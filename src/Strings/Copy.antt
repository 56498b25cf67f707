-- ===== src/Strings/Copy.antt =====
-- What `memcpy`, `memset` and `memcmp` of lib/goblibc/src/string.c do to memory.
use bitloader.Prelude.{
  Bool, Bool-cases, ap, ap₂, arith, false, if◌then◌else◌, inl, inr, leb, ltb, refl, suc, sym, true,
  zero, ℕ, ◌%◌, ◌&&◌, ◌+◌, ◌-◌, ◌<◌, ◌==◌, ◌∙◌, ◌≡◌, ◌≤◌, ◌⊎◌,
}
use bitloader.Prelude.Int.{add_ℤ, sub_ℕ}
use bitloader.Prelude.Loops.{for_range_inv}
use bitloader.Strings.{Bytes, memcmp, memcmp_loop, memcpy, memset, poke}

-- The memory with the bytes from `dest` on copied from `source`, up to the `i`-th.
abbrev pub copied : (dest source i : ℕ) → Bytes → Bytes
copied dest source i mem q =
    if leb dest q && ltb q (dest + i) then mem (source + (q - dest)) else mem q

if-false : (b : Bool) (x y : ℕ) → b ≡ false → (if b then x else y) ≡ y
if-false true x y e = absurd (ground arith)
if-false false x y e = refl

empty_range : (dest q : ℕ) → (leb dest q && ltb q (dest + 0)) ≡ false
empty_range dest q = ground arith

copied-next :
    (dest source size i : ℕ) (mem m : Bytes)
    → i < size
    → (dest + size ≤ source) ⊎ (source + size ≤ dest)
    → ((q : ℕ) → m q ≡ copied dest source i mem q)
    → (q : ℕ) → poke (dest + i) (m (source + i)) m q ≡ copied dest source (i + 1) mem q
copied-next dest source size i mem m small apart h q =
    let outside : (leb dest (source + i) && ltb (source + i) (dest + i)) ≡ false = ground arith in
    let read : m (source + i) ≡ mem (source + i) = h (source + i) ∙ if-false _ _ _ outside in
    elim (Bool-cases (q == dest + i)) [
      | inl here ↦
          let in_range : (leb dest q && ltb q (dest + (i + 1))) ≡ true = ground arith in
          rw here (rw in_range (read ∙ ap mem (ground arith)))
      | inr there ↦
          let same : (leb dest q && ltb q (dest + (i + 1))) ≡ (leb dest q && ltb q (dest + i)) =
            ground arith in
          rw there (rw same (h q))
    ]

-- Where the two ranges do not meet, `memcpy` copies every byte and changes no other.
memcpy-copied :
    (dest source size : ℕ) (mem : Bytes)
    → (dest + size ≤ source) ⊎ (source + size ≤ dest)
    → (q : ℕ) → memcpy dest source size mem q ≡ copied dest source size mem q
unfolding memcpy
memcpy-copied dest source size mem apart =
    for_range_inv (λ i m. (q : ℕ) → m q ≡ copied dest source i mem q)
      (λ i m. poke (dest + i) (m (source + i)) m) size 0 size mem (omega arith)
      (λ i m small h. copied-next dest source size i mem m small apart h)
      (λ q. sym (if-false _ _ _ (empty_range dest q)))

-- `memset` stores the low byte of its value in the range and changes no other byte.
pub memset-filled :
    (buf n size : ℕ) (mem : Bytes) (q : ℕ)
    → memset buf n size mem q ≡ (if leb buf q && ltb q (buf + size) then n % 256 else mem q)
unfolding memset
memset-filled buf n size mem =
    for_range_inv (λ i m. (q : ℕ) → m q ≡ (if leb buf q && ltb q (buf + i) then n % 256 else mem q))
      (λ i m. poke (buf + i) (n % 256) m) size 0 size mem (omega arith)
      (λ i m small h q. let before = h q in ground arith) (λ q. ground arith)

abbrev pub sum_of : Bytes → ℕ → ℕ → ℕ
sum_of b i zero = 0
sum_of b i (suc n) = b i + sum_of b (i + 1) n

add-sub_ℕ : (x y a b : ℕ) → add_ℤ (sub_ℕ x y) (sub_ℕ a b) ≡ sub_ℕ (x + a) (y + b)
add-sub_ℕ x y a b = ground arith

memcmp_loop-sums :
    (left : ℕ) (b1 b2 : Bytes) (i x y : ℕ)
    → memcmp_loop left b1 b2 i (sub_ℕ x y) ≡ sub_ℕ (x + sum_of b1 i left) (y + sum_of b2 i left)
unfolding memcmp_loop
memcmp_loop-sums zero b1 b2 i x y = ap₂ sub_ℕ (omega arith) (omega arith)
memcmp_loop-sums (suc left) b1 b2 i x y = rw (add-sub_ℕ x y (b1 i) (b2 i)) (
    memcmp_loop-sums left b1 b2 (i + 1) (x + b1 i) (y + b2 i)
    ∙ ap₂ sub_ℕ (omega arith) (omega arith))

-- `memcmp` compares the sums of the two buffers' bytes and not the bytes: it returns their
-- difference, so buffers with the same bytes in another order are equal to it.
memcmp-sums :
    (b1 b2 : Bytes) (size : ℕ) → memcmp b1 b2 size ≡ sub_ℕ (sum_of b1 0 size) (sum_of b2 0 size)
unfolding memcmp
memcmp-sums b1 b2 size = memcmp_loop-sums size b1 b2 0 0 0 ∙ ap₂ sub_ℕ (omega arith) (omega arith)
