-- ===== src/Prelude/Bytes.antt =====
-- A test of every value of a small range, which evaluation decides.
use native.Mathlib.Omega.{arith}
use Prim.Native.Nat.{ℕ, zero, suc, ◌<◌}
use mathlib.Core.Path.{◌≡◌}
use mathlib.Core.Bool.{Bool, true, ◌&&◌}

unfoldable pub all_below : (bound : ℕ) (test : ℕ → Bool) → Bool
all_below zero test = true
all_below (suc top) test = all_below top test && test top

pub all_below_sound :
    (bound : ℕ) (test : ℕ → Bool) (value : ℕ) (passed : all_below bound test ≡ true)
    → value < bound
    → test value ≡ true
unfolding all_below
all_below_sound zero test value passed small = absurd (omega arith)
all_below_sound (suc top) test value passed small = ground (arith, all_below_sound top test value)
