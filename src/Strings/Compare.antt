-- ===== src/Strings/Compare.antt =====
-- What the comparisons and measures of lib/goblibc/src/string.c find out about strings.
use bitloader.Prelude.{
  Bool, Bool-cases, List, [], ap, ap₂, arith, false, if◌then◌else◌, inl, inr, length, min, refl,
  suc, sym, true, zero, ℕ, ◌+◌, ◌-◌, ◌<◌, ◌==◌, ◌↔◌, ◌∙◌, ◌∷◌, ◌≡◌, ◌≢◌, ◌≤◌,
}
use bitloader.Prelude.Int.{pos, sub_ℕ, ℤ}
use bitloader.Prelude.Run.{returns}
use bitloader.Strings.{
  Bytes, isalpha, strcmp, strlen, strlen_loop, strncmp, strncmp_loop, strnlen, strnlen_loop,
  tolower, toupper,
}

-- The bytes hold a NUL-terminated string from an index on.
abbrev pub IsString : Bytes → ℕ → List ℕ → Type 0
IsString s i [] = s i ≡ 0
IsString s i (c ∷ cs) = (s i ≡ c) × (c ≢ 0) × IsString s (i + 1) cs

-- `strlen` counts the characters before the NUL, with one round of fuel more than there are.
strlen_loop-length :
    (fuel : ℕ) (s : Bytes) (i n : ℕ) (cs : List ℕ)
    → IsString s i cs
    → length cs < fuel
    → n ≡ i + length cs
    → strlen_loop fuel s i ≡ returns n
unfolding strlen_loop
strlen_loop-length zero s i n cs h enough e = absurd (omega arith)
strlen_loop-length (suc fuel) s i n [] h enough e =
    let same : n ≡ i = omega arith in rw h (rw same refl)
strlen_loop-length (suc fuel) s i n (c ∷ cs) h enough e =
    let more : (s i == 0) ≡ false = ground arith in
    rw more (strlen_loop-length fuel s (i + 1) n cs h.2 (omega arith) (omega arith))

-- The order of two strings: the difference of the first characters that differ.
abbrev pub order : List ℕ → List ℕ → ℤ
order [] [] = pos 0
order [] (y ∷ ys) = sub_ℕ 0 y
order (x ∷ xs) [] = sub_ℕ x 0
order (x ∷ xs) (y ∷ ys) = if x == y then order xs ys else sub_ℕ x y

if-returns :
    (b : Bool) (x y : ℤ) → (if b then returns x else returns y) ≡ returns (if b then x else y)
if-returns true x y = refl
if-returns false x y = refl

pub strcmp-order :
    (fuel : ℕ) (s1 : Bytes) (i : ℕ) (s2 : Bytes) (j : ℕ) (xs ys : List ℕ)
    → IsString s1 i xs
    → IsString s2 j ys
    → length xs < fuel
    → strcmp fuel s1 i s2 j ≡ returns (order xs ys)
unfolding strcmp
strcmp-order zero s1 i s2 j xs ys hx hy enough = absurd (omega arith)
strcmp-order (suc fuel) s1 i s2 j [] [] hx hy enough = rw hx (rw hy refl)
strcmp-order (suc fuel) s1 i s2 j [] (y ∷ ys) hx hy enough = rw hx (rw hy.0 refl)
strcmp-order (suc fuel) s1 i s2 j (x ∷ xs) [] hx hy enough =
    let more : (x == 0) ≡ false = ground arith in rw hx.0 (rw hy (rw more refl))
strcmp-order (suc fuel) s1 i s2 j (x ∷ xs) (y ∷ ys) hx hy enough =
    let more : (x == 0) ≡ false = ground arith in
    rw hx.0 (
      rw hy.0 (
        rw more (
          ap (λ r. if x == y then r else returns (sub_ℕ x y))
            (strcmp-order fuel s1 (i + 1) s2 (j + 1) xs ys hx.2 hy.2 (omega arith))
          ∙ if-returns (x == y) (order xs ys) (sub_ℕ x y))))

if-then : (b : Bool) (x y z : ℤ) → b ≡ true → (if b then x else y) ≡ z → x ≡ z
if-then true x y z e h = h
if-then false x y z e h = absurd (ground arith)

if-else : (b : Bool) (x y z : ℤ) → b ≡ false → (if b then x else y) ≡ z → y ≡ z
if-else true x y z e h = absurd (ground arith)
if-else false x y z e h = h

differs_not : (x y : ℕ) → (x == y) ≡ false → x ≢ y
differs_not x y h = ground arith

sub_ℕ-zero : (x y : ℕ) → sub_ℕ x y ≡ pos 0 → x ≡ y
sub_ℕ-zero x y h = ground arith

order_refl : (xs : List ℕ) → order xs xs ≡ pos 0
order_refl [] = refl
order_refl (x ∷ xs) = let same : (x == x) ≡ true = ground arith in rw same (order_refl xs)

order-equal :
    (s1 : Bytes) (i : ℕ) (s2 : Bytes) (j : ℕ) (xs ys : List ℕ)
    → IsString s1 i xs
    → IsString s2 j ys
    → order xs ys ≡ pos 0
    → xs ≡ ys
order-equal s1 i s2 j [] [] hx hy h = refl
order-equal s1 i s2 j [] (y ∷ ys) hx hy h = absurd (hy.1 (sym (sub_ℕ-zero 0 y h)))
order-equal s1 i s2 j (x ∷ xs) [] hx hy h = absurd (hx.1 (sub_ℕ-zero x 0 h))
order-equal s1 i s2 j (x ∷ xs) (y ∷ ys) hx hy h = elim (Bool-cases (x == y)) [
  | inl same ↦
      let e : x ≡ y = ground arith in
      let h' : order xs ys ≡ pos 0 = if-then (x == y) (order xs ys) (sub_ℕ x y) (pos 0) same h in
      ap₂ ◌∷◌ e (order-equal s1 (i + 1) s2 (j + 1) xs ys hx.2 hy.2 h')
  | inr differs ↦ absurd (
      differs_not x y differs
        (sub_ℕ-zero x y (if-else (x == y) (order xs ys) (sub_ℕ x y) (pos 0) differs h)))
]

-- `strcmp` returns 0 exactly for equal strings, and with one round of fuel more than the first
-- string has characters it does return.
pub strcmp-zero :
    (fuel : ℕ) (s1 : Bytes) (i : ℕ) (s2 : Bytes) (j : ℕ) (xs ys : List ℕ)
    → IsString s1 i xs
    → IsString s2 j ys
    → length xs < fuel
    → (result : ℤ) × (strcmp fuel s1 i s2 j ≡ returns result) × (result ≡ pos 0 ↔ xs ≡ ys)
strcmp-zero fuel s1 i s2 j xs ys hx hy enough = (
  order xs ys,
  strcmp-order fuel s1 i s2 j xs ys hx hy enough,
  (order-equal s1 i s2 j xs ys hx hy, λ e. rw (← e) (order_refl xs)),
)

-- `strncmp` of two strings of less than `len` characters agrees with `strcmp`.
strncmp_loop-order :
    (more : ℕ) (s1 s2 : Bytes) (i : ℕ) (xs ys : List ℕ)
    → IsString s1 i xs
    → IsString s2 i ys
    → length xs ≤ more
    → strncmp_loop more s1 s2 i ≡ order xs ys
unfolding strncmp_loop
strncmp_loop-order zero s1 s2 i [] [] hx hy enough = rw hx (rw hy refl)
strncmp_loop-order zero s1 s2 i [] (y ∷ ys) hx hy enough = rw hx (rw hy.0 refl)
strncmp_loop-order zero s1 s2 i (x ∷ xs) ys hx hy enough = absurd (omega arith)
strncmp_loop-order (suc more) s1 s2 i [] [] hx hy enough = rw hx (rw hy refl)
strncmp_loop-order (suc more) s1 s2 i [] (y ∷ ys) hx hy enough = rw hx (rw hy.0 refl)
strncmp_loop-order (suc more) s1 s2 i (x ∷ xs) [] hx hy enough =
    let go : (x == 0) ≡ false = ground arith in rw hx.0 (rw hy (rw go refl))
strncmp_loop-order (suc more) s1 s2 i (x ∷ xs) (y ∷ ys) hx hy enough =
    let go : (x == 0) ≡ false = ground arith in
    rw hx.0 (
      rw hy.0 (
        rw go (
          ap (λ r. if x == y then r else sub_ℕ x y)
            (strncmp_loop-order more s1 s2 (i + 1) xs ys hx.2 hy.2 (omega arith)))))

-- For strings shorter than the limit, `strncmp` and `strcmp` give the same result.
strncmp-strcmp :
    (fuel len : ℕ) (s1 s2 : Bytes) (xs ys : List ℕ)
    → IsString s1 0 xs
    → IsString s2 0 ys
    → length xs < len
    → length xs < fuel
    → strcmp fuel s1 0 s2 0 ≡ returns (strncmp s1 s2 len)
unfolding strncmp
strncmp-strcmp fuel len s1 s2 xs ys hx hy short enough =
    strcmp-order fuel s1 0 s2 0 xs ys hx hy enough
    ∙ ap returns (sym (strncmp_loop-order (len - 1) s1 s2 0 xs ys hx hy (omega arith)))

strnlen_loop-min :
    (left : ℕ) (s : Bytes) (i n : ℕ) (cs : List ℕ)
    → IsString s i cs
    → n ≡ i + min left (length cs)
    → strnlen_loop left s i ≡ n
unfolding strnlen_loop
strnlen_loop-min zero s i n cs h e = omega arith
strnlen_loop-min (suc left) s i n [] h e = let same : n ≡ i = omega arith in rw h (rw same refl)
strnlen_loop-min (suc left) s i n (c ∷ cs) h e =
    let more : (s i == 0) ≡ false = ground arith in
    rw more (strnlen_loop-min left s (i + 1) n cs h.2 (omega arith))

-- `strlen` returns the number of characters before the NUL, given one round of fuel more, and
-- `strnlen` that number or its limit, whichever is less.
strlen-length :
    (fuel n : ℕ) (s : Bytes) (cs : List ℕ)
    → IsString s 0 cs
    → length cs < fuel
    → (strlen fuel s ≡ returns (length cs)) × (strnlen s n ≡ min n (length cs))
unfolding strlen strnlen
strlen-length fuel n s cs h enough = (
  strlen_loop-length fuel s 0 (length cs) cs h enough (omega arith),
  strnlen_loop-min n s 0 _ cs h (omega arith),
)

-- A letter's case can be changed and changed back: `toupper` and `tolower` undo each other up to
-- the letter's own case, they keep letters letters, and each leaves every other character alone.
toupper-tolower :
    (c : ℕ)
    → (toupper (tolower c) ≡ toupper c)
      × (tolower (toupper c) ≡ tolower c)
      × (isalpha (tolower c) ≡ isalpha c)
      × (isalpha (toupper c) ≡ isalpha c)
      × (isalpha c ≡ false → (tolower c ≡ c) × (toupper c ≡ c))
unfolding toupper tolower isalpha
toupper-tolower c = (ground arith, ground arith, ground arith, ground arith, ground arith)
