-- ===== src/Files/Directory/Names.antt =====
-- kernel/filesystem/estros-fs.c: the comparison of a path's part with an entry's name, which has no
-- NUL behind it.
use bitloader.Prelude.{
  Bool, Bool-cases, List, [], ap, arith, false, get_or, inl, inr, leb, length, ltb, not, refl, suc,
  sym, true, ℕ, ◌&&◌, ◌+◌, ◌-◌, ◌==◌, ◌||◌, ◌∙◌, ◌∷◌, ◌≡◌, ◌≢◌,
}
use bitloader.Prelude.Int.{pos, sub_ℕ, ◌==ℤ◌}
use bitloader.Strings.{Bytes, literal, strncmp, strncmp_loop}

abbrev pub same_name : List ℕ → List ℕ → Bool
same_name [] [] = true
same_name [] (y ∷ ys) = false
same_name (x ∷ xs) [] = false
same_name (x ∷ xs) (y ∷ ys) = x == y && same_name xs ys

abbrev pub NoNul : List ℕ → Type 0
NoNul [] = Unit
NoNul (x ∷ xs) = (x ≢ 0) × NoNul xs

-- The bytes from `i` on are the characters, and a NUL.
abbrev pub HasString : Bytes → ℕ → List ℕ → Type 0
HasString s i [] = s i ≡ 0
HasString s i (x ∷ xs) = (s i ≡ x) × HasString s (i + 1) xs

-- The bytes from `i` on start with the characters.
abbrev pub HasName : Bytes → ℕ → List ℕ → Type 0
HasName s i [] = Unit
HasName s i (y ∷ ys) = (s i ≡ y) × HasName s (i + 1) ys

sub_ℕ-zero : (a b : ℕ) → (sub_ℕ a b ==ℤ pos 0) ≡ (a == b)
sub_ℕ-zero a b = elim (Bool-cases (leb b a)) [
  | inl below ↦ rw below (ground arith)
  | inr above ↦ rw above (ground arith)
]

-- `strncmp` for the name's length, with the test that the path is not longer.
loop-same_name :
    (s name : Bytes) (i : ℕ) (xs : List ℕ) (y : ℕ) (ys : List ℕ)
    → HasString s i xs
    → HasName name i (y ∷ ys)
    → NoNul xs
    → NoNul (y ∷ ys)
    → ((strncmp_loop (length ys) s name i ==ℤ pos 0) && leb (length xs) (length ys + 1))
      ≡ same_name xs (y ∷ ys)
unfolding strncmp_loop
loop-same_name s name i [] y [] hs hn nx ny =
    let some_y = ny.0 in rw hs (rw hn.0 (rw (sub_ℕ-zero 0 y) (ground arith)))
loop-same_name s name i (x ∷ []) y [] hs hn nx ny =
    rw hs.0 (rw hn.0 (rw (sub_ℕ-zero x y) (ground arith)))
loop-same_name s name i (x ∷ w ∷ xs) y [] hs hn nx ny =
    rw hs.0 (rw hn.0 (rw (sub_ℕ-zero x y) (ground arith)))
loop-same_name s name i [] y (z ∷ ys) hs hn nx ny =
    let some_y = ny.0 in
    let differ : (0 == y) ≡ false = ground arith in
    rw hs (rw hn.0 (rw (sub_ℕ-zero 0 y) (rw differ refl)))
loop-same_name s name i (x ∷ xs) y (z ∷ ys) hs hn nx ny =
    let some_x = nx.0 in
    let more : (x == 0) ≡ false = ground arith in
    let rest = loop-same_name s name (i + 1) xs z ys hs.1 hn.1 nx.1 ny.1 in
    let both : leb (suc (length xs)) (suc (length ys) + 1) ≡ leb (length xs) (length ys + 1) =
      ground arith in
    elim (Bool-cases (x == y)) [
      | inl same ↦ rw hs.0 (rw hn.0 (rw more (rw same (rw both rest))))
      | inr other ↦ rw hs.0 (rw hn.0 (rw more (rw other (rw (sub_ℕ-zero x y) (rw other refl)))))
    ]

de_morgan : (a b : Bool) → not (a && b) ≡ (not a || not b)
de_morgan true b = refl
de_morgan false b = refl

-- The test of `other_name`, for a name that is not empty and has no NUL: the names differ.
pub other-same_name :
    (s name : Bytes) (xs : List ℕ) (y : ℕ) (ys : List ℕ)
    → HasString s 0 xs
    → HasName name 0 (y ∷ ys)
    → NoNul xs
    → NoNul (y ∷ ys)
    → (not (strncmp s name (length ys + 1) ==ℤ pos 0) || ltb (length ys + 1) (length xs))
      ≡ not (same_name xs (y ∷ ys))
unfolding strncmp
other-same_name s name xs y ys hs hn nx ny =
    let len : length ys + 1 - 1 ≡ length ys = omega arith in
    let whole = loop-same_name s name 0 xs y ys hs hn nx ny in
    let split : ltb (length ys + 1) (length xs) ≡ not (leb (length xs) (length ys + 1)) =
      ground arith in
    rw len (
      rw split (
        sym (
          de_morgan (strncmp_loop (length ys) s name 0 ==ℤ pos 0) (leb (length xs) (length ys + 1)))
        ∙ ap not whole))

read-HasString :
    (s : Bytes) (i : ℕ) (xs : List ℕ) → ((k : ℕ) → s (i + k) ≡ get_or xs k 0) → HasString s i xs
read-HasString s i [] reads = let at : i ≡ i + 0 = omega arith in ap s at ∙ reads 0
read-HasString s i (x ∷ xs) reads =
    let at : i ≡ i + 0 = omega arith in
    (
      ap s at ∙ reads 0,
      read-HasString s (i + 1) xs
          (λ k. let next : i + 1 + k ≡ i + suc k = omega arith in ap s next ∙ reads (suc k)),
    )

pub literal-HasString : (xs : List ℕ) → HasString (literal xs) 0 xs
literal-HasString xs =
    read-HasString (literal xs) 0 xs
      (λ k. let at : 0 + k ≡ k = omega arith in ap (λ j. get_or xs j 0) at)
