-- ===== src/Prelude/Checks.antt =====
-- Facts over a small range of numbers, by evaluation of every case.

use Prim.Native.Nat.{ℕ, zero, suc, ◌<◌}
use mathlib.Core.Path.{◌≡◌}
use mathlib.Core.Bool.{Bool, true, ◌&&◌}
use native.Mathlib.Omega.{arith}

-- The test succeeds on every number below the bound.
unfoldable pub every : (ℕ → Bool) → ℕ → Bool
every test zero = true
every test (suc bound) = every test bound && test bound

pub every-below :
    (test : ℕ → Bool) (bound i : ℕ) → i < bound → every test bound ≡ true → test i ≡ true
unfolding every
every-below test zero i below all = absurd (omega (arith, below))
every-below test (suc bound) i below all = ground (arith, every-below test bound i)
