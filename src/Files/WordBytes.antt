-- ===== src/Files/WordBytes.antt =====
-- kernel/filesystem/estros-fs.c: the bytes of a block's words.
use bitloader.Prelude.{
  ap, arith, if◌then◌else◌, refl, suc, zero, ℕ, ◌%◌, ◌*◌, ◌+◌, ◌/◌, ◌<◌, ◌==◌, ◌^◌, ◌≡◌,
}
use bitloader.Files.OpenFile.{Memory}

abbrev pub AreBytes : (size : ℕ) → Memory → Type 0
AreBytes size bytes = (o : ℕ) → o < size → bytes o < 256

pub byte_of-word :
    (a b c d k : ℕ)
    → a < 256
    → b < 256
    → c < 256
    → d < 256
    → k < 4
    → (a + b * 256 + c * 256 ^ 2 + d * 256 ^ 3) / 256 ^ k % 256
      ≡ (if k == 0 then a else if k == 1 then b else if k == 2 then c else d)
byte_of-word a b c d zero ha hb hc hd below = omega arith
byte_of-word a b c d (suc zero) ha hb hc hd below = omega arith
byte_of-word a b c d (suc (suc zero)) ha hb hc hd below = omega arith
byte_of-word a b c d (suc (suc (suc zero))) ha hb hc hd below = omega arith
byte_of-word a b c d (suc (suc (suc (suc k)))) ha hb hc hd below = absurd (omega arith)

pub pick :
    (bytes : Memory) (at k : ℕ)
    → k < 4
    → (if k == 0
        then bytes at
        else if k == 1
        then bytes (at + 1)
        else if k == 2
        then bytes (at + 2)
        else bytes (at + 3))
      ≡ bytes (at + k)
pick bytes at zero below = let same : at ≡ at + 0 = omega arith in ap bytes same
pick bytes at (suc zero) below = refl
pick bytes at (suc (suc zero)) below = refl
pick bytes at (suc (suc (suc zero))) below = refl
pick bytes at (suc (suc (suc (suc k)))) below = absurd (omega arith)
