-- ===== src/Prelude/Loops.antt =====
-- A C loop `for (i = first; i < first + rounds; i++)` over a state, and its invariant rule.
use native.Mathlib.Omega.{arith}
use Prim.Native.Nat.{ℕ, zero, suc, ◌+◌, ◌≤◌}
use mathlib.Core.Path.{◌≡◌}

unfoldable pub for_range {ℓ} :
    {State : Type ℓ} (rounds first : ℕ) (step : ℕ → State → State) (start : State) → State
for_range zero first step start = start
for_range (suc more) first step start = for_range more (first + 1) step (step first start)

pub for_range_inv {ℓ κ} :
    {State : Type ℓ} (Inv : ℕ → State → Type κ) (step : ℕ → State → State) (rounds first last : ℕ)
    (start : State) (bound : first + rounds ≡ last)
    (keeps : (at : ℕ) (now : State) → suc at ≤ last → Inv at now → Inv (at + 1) (step at now))
    (holds : Inv first start)
    → Inv last (for_range rounds first step start)
unfolding for_range
for_range_inv Inv step zero first last start bound keeps holds =
    let same : first ≡ last = omega arith in rw (← same) holds
for_range_inv Inv step (suc more) first last start bound keeps holds =
    let held = keeps first start (omega arith) holds in
    for_range_inv Inv step more (first + 1) last (step first start) (omega arith) keeps held
