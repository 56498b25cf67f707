-- ===== src/Keyboard/Table.antt =====
-- The table of open keyboard files of kernel/keyboard/keyboard.c: when it is sound.
use bitloader.Prelude.{
  Bool, Bool-cases, List, Option, [], arith, false, get_elem?, if◌then◌else◌, inl, inr, length,
  none, refl, some, true, ℕ, ◌++◌, ◌==◌, ◌||◌, ◌∙◌, ◌∷◌, ◌≡◌,
}
use bitloader.Keyboard.{Keyboard, KeyboardFileData}

abbrev pub has : ℕ → List ℕ → Bool
has p [] = false
has p (x ∷ xs) = (p == x) || has p xs

abbrev pub Distinct : List ℕ → Type 0
Distinct [] = Unit
Distinct (x ∷ xs) = (has x xs ≡ false) × Distinct xs

-- Every entry of the table leads to a ring.
abbrev pub AllLive : (ℕ → Option KeyboardFileData) → List ℕ → Type 0
AllLive rings [] = Unit
AllLive rings (x ∷ xs) = ((fd : KeyboardFileData) × (rings x ≡ some fd)) × AllLive rings xs

pub record TableOk (k : Keyboard) : Type 0 where
  pub counted : k.table_length ≡ length k.table
  pub distinct : Distinct k.table
  pub live : AllLive k.rings k.table

pub get_elem?-length :
    (pre : List ℕ) (x : ℕ) (xs : List ℕ) → get_elem? (pre ++ (x ∷ xs)) (length pre) ≡ some x
get_elem?-length [] x xs = refl
get_elem?-length (y ∷ pre) x xs = get_elem?-length pre x xs

pub AllLive-frame :
    (rings rings' : ℕ → Option KeyboardFileData) (xs : List ℕ)
    → ((p : ℕ) → has p xs ≡ true → rings' p ≡ rings p)
    → AllLive rings xs
    → AllLive rings' xs
AllLive-frame rings rings' [] same h = tt
AllLive-frame rings rings' (x ∷ xs) same h = (
  (h.0.0, same x (ground arith) ∙ h.0.1),
  AllLive-frame rings rings' xs (λ p i. same p (ground (arith, i))) h.1,
)

-- Changing a ring keeps every ring there.
pub AllLive-kept :
    (rings : ℕ → Option KeyboardFileData) (x : ℕ) (fd : KeyboardFileData) (xs : List ℕ)
    → AllLive rings xs
    → AllLive (λ q. if q == x then some fd else rings q) xs
AllLive-kept rings x fd [] h = tt
AllLive-kept rings x fd (y ∷ ys) h = elim (Bool-cases (y == x)) [
  | inl same ↦ ((fd, rw same), AllLive-kept rings x fd ys h.1)
  | inr other ↦ ((h.0.0, rw other h.0.1), AllLive-kept rings x fd ys h.1)
]

pub has-append : (q : ℕ) (xs ys : List ℕ) → has q (xs ++ ys) ≡ (has q xs || has q ys)
has-append q [] ys = refl
has-append q (x ∷ xs) ys = ground (arith, has-append q xs ys)

pub Distinct-front : (xs ys : List ℕ) → Distinct (xs ++ ys) → Distinct xs
Distinct-front [] ys d = tt
Distinct-front (x ∷ xs) ys d = (ground (arith, d.0, has-append x xs ys), Distinct-front xs ys d.1)

pub Distinct-apart :
    (xs : List ℕ) (p : ℕ) (ys : List ℕ) → Distinct (xs ++ (p ∷ ys)) → has p xs ≡ false
Distinct-apart [] p ys d = refl
Distinct-apart (x ∷ xs) p ys d =
    ground (arith, d.0, has-append x xs (p ∷ ys), Distinct-apart xs p ys d.1)

pub AllLive-front :
    (rings : ℕ → Option KeyboardFileData) (xs ys : List ℕ)
    → AllLive rings (xs ++ ys)
    → AllLive rings xs
AllLive-front rings [] ys h = tt
AllLive-front rings (x ∷ xs) ys h = (h.0, AllLive-front rings xs ys h.1)

-- Taking a ring away leaves the others.
pub AllLive-without :
    (rings rings' : ℕ → Option KeyboardFileData) (p : ℕ) (xs : List ℕ)
    → ((q : ℕ) → rings' q ≡ (if q == p then none else rings q))
    → has p xs ≡ false
    → AllLive rings xs
    → AllLive rings' xs
AllLive-without rings rings' p [] same apart h = tt
AllLive-without rings rings' p (x ∷ xs) same apart h = (
  (h.0.0, same x ∙ ground (arith, h.0.1)),
  AllLive-without rings rings' p xs same (ground arith) h.1,
)

pub AllLive-snoc :
    (rings : ℕ → Option KeyboardFileData) (xs : List ℕ) (p : ℕ) (fd : KeyboardFileData)
    → AllLive rings xs
    → rings p ≡ some fd
    → AllLive rings (xs ++ (p ∷ []))
AllLive-snoc rings [] p fd h e = ((fd, e), tt)
AllLive-snoc rings (x ∷ xs) p fd h e = (h.0, AllLive-snoc rings xs p fd h.1 e)

pub Distinct-snoc :
    (xs : List ℕ) (p : ℕ) → Distinct xs → has p xs ≡ false → Distinct (xs ++ (p ∷ []))
Distinct-snoc [] p d apart = (refl, tt)
Distinct-snoc (x ∷ xs) p d apart =
    (ground (arith, d.0, has-append x xs (p ∷ [])), Distinct-snoc xs p d.1 (ground arith))

pub length-eq-zero : (xs : List ℕ) → length xs ≡ 0 → xs ≡ []
length-eq-zero [] h = refl
length-eq-zero (x ∷ xs) h = absurd (omega arith)

pub get_elem?-end : (xs : List ℕ) → get_elem? xs (length xs) ≡ none
get_elem?-end [] = refl
get_elem?-end (x ∷ xs) = get_elem?-end xs
