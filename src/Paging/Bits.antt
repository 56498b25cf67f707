-- ===== src/Paging/Bits.antt =====
-- What `|` does to the flags and to the page of an entry of kernel/pager.c.
use bitloader.Prelude.{
  ap, arith, bit_or, max, refl, suc, zero, ℕ, ◌%◌, ◌*◌, ◌+◌, ◌/◌, ◌<◌, ◌^◌, ◌∙◌, ◌≡◌, ◌≤◌,
}
use bitloader.Paging.{enable, page_present, page_size, page_write_through, page_writeable}
use native.Mathlib.Numerals.{unary_clauses}
use Prim.Native.Nat.{digits, bit_or-bitwise}

digits-zero : (n a : ℕ) → a ≤ n → digits (λ b. b) max n a 0 ≡ a
digits-zero zero a small = omega arith
digits-zero (suc n) zero small = refl
digits-zero (suc n) (suc a) small =
    let rest = digits-zero n (suc a / 2) (omega arith) in rw rest (ground arith)

or_digits : (a b : ℕ) → bit_or a b ≡ digits (λ b. b) max a a b
or_digits a b = λ i. bit_or-bitwise a b i

pub bit_or-zero : (a : ℕ) → bit_or a 0 ≡ a
bit_or-zero a = or_digits a 0 ∙ digits-zero a a (omega arith)

odd_digits : (a b : ℕ) → a % 2 ≡ 1 → digits (λ b. b) max a a b % 2 ≡ 1
odd_digits zero b odd = absurd (omega arith)
odd_digits (suc a) b odd = rw odd (ground arith)

-- A bit that is set stays set.
pub bit_or-odd : (a b : ℕ) → a % 2 ≡ 1 → bit_or a b % 2 ≡ 1
bit_or-odd a b odd = rw (or_digits a b) (odd_digits a b odd)

odd_digits_right : (a b : ℕ) → b % 2 ≡ 1 → digits (λ b. b) max a a b % 2 ≡ 1
odd_digits_right zero b odd = odd
odd_digits_right (suc a) b odd = rw odd (ground arith)

-- An entry that is put in is present, whatever the flags are.
pub enable-present : (old flags : ℕ) → enable old flags % 2 ≡ 1
enable-present old flags =
    bit_or-odd (bit_or old (page_present + page_writeable + page_write_through)) (flags % page_size)
      (rw (or_digits old (page_present + page_writeable + page_write_through))
        (odd_digits_right old (page_present + page_writeable + page_write_through) refl))

digits_sum : (k n m b q : ℕ) → m ≡ q * 2 ^ k → m ≤ n → b < 2 ^ k → digits (λ b. b) max n m b ≡ m + b
digits_sum zero n m b q e small low =
    let no_bits : b ≡ 0 = omega arith in rw no_bits (digits-zero n m small ∙ omega arith)
digits_sum (suc k) zero m b q e small low = omega arith
digits_sum (suc k) (suc n) zero b q e small low = omega arith
digits_sum (suc k) (suc n) (suc m) b q e small low =
    let p = 2 ^ k in
    let double : 2 ^ suc k ≡ p * 2 = simp unary_clauses refl in
    let even : suc m ≡ q * p * 2 = e ∙ (ap (λ w. q * w) double ∙ omega arith) in
    let half : suc m / 2 ≡ q * p = omega arith in
    let rest = digits_sum k n (suc m / 2) (b / 2) q half (omega arith) (omega arith) in
    let last : (suc m / 2 + b / 2) * 2 + max (suc m % 2) (b % 2) ≡ suc m + b = ground arith in
    ap (λ h. h * 2 + max (suc m % 2) (b % 2)) rest ∙ last

-- Digits that are apart are put together by `|`.
pub bit_or-sum : (k q b : ℕ) → b < 2 ^ k → bit_or (q * 2 ^ k) b ≡ q * 2 ^ k + b
bit_or-sum k q b low =
    or_digits (q * 2 ^ k) b ∙ digits_sum k (q * 2 ^ k) (q * 2 ^ k) b q refl (omega arith) low
