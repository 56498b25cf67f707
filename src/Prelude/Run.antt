-- ===== src/Prelude/Run.antt =====
-- What a call of C code may do besides returning: stop at a processor exception, or go on for
-- longer than the rounds that a loop is given.
use mathlib.Core.Path.{subst, ◌≡◌}

pub data Run {ℓ} (A : Type ℓ) : Type ℓ where
  returns : A → Run A
  fault : Run A
  out_of_fuel : Run A

infixl 5 ◌>>=◌
abbrev pub ◌>>=◌ {ℓ κ} : {A : Type ℓ} {B : Type κ} (call : Run A) (next : A → Run B) → Run B
returns result >>= next = next result
fault >>= next = fault
out_of_fuel >>= next = out_of_fuel

-- What a call that returns does.
abbrev pub Holds {ℓ κ} : {A : Type ℓ} (P : A → Type κ) → Run A → Type κ
Holds P (returns a) = P a
Holds P fault = Unit
Holds P out_of_fuel = Unit

pub Holds->>= {ℓ κ μ} :
    {A : Type ℓ} {B : Type κ} (P : A → Type μ) (Q : B → Type μ) (call : Run A) (next : A → Run B)
    → Holds P call
    → ((a : A) → P a → Holds Q (next a))
    → Holds Q (call >>= next)
Holds->>= P Q (returns a) next holds step = step a holds
Holds->>= P Q fault next holds step = tt
Holds->>= P Q out_of_fuel next holds step = tt

abbrev Faults {ℓ} : {A : Type ℓ} → Run A → Type 0
Faults (returns a) = ⊥
Faults fault = Unit
Faults out_of_fuel = ⊥

pub fault_returns {ℓ} : {A : Type ℓ} {a : A} → fault ≡ returns a → ⊥
fault_returns e = subst Faults e tt
