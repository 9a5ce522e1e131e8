-- ===== src/Prelude/Tables.antt =====
-- A test of every number below a bound, by computation.
use Prim.Native.Nat.{ℕ, zero, suc, ◌<◌}
use mathlib.Core.Path.{◌≡◌}
use mathlib.Core.Bool.{Bool, true, false}
use native.Mathlib.Omega.{arith}
use mp_cache.Prelude.Tests.{if◌then◌else◌}

unfoldable pub every_below : (ℕ → Bool) → ℕ → Bool
every_below test zero = true
every_below test (suc bound) = if every_below test bound then test bound else false

pub every_below-lt :
    (test : ℕ → Bool) (bound n : ℕ) → every_below test bound ≡ true → n < bound → test n ≡ true
unfolding every_below
every_below-lt test zero n checked below = absurd (omega arith)
every_below-lt test (suc bound) n checked below = ground (arith, every_below-lt test bound n)
