-- ===== src/Base/Table.antt =====
-- Tables: a test of every number below a bound, run by the checker.
use Prim.Native.Nat.{ℕ, zero, suc, ◌<◌}
use mathlib.Core.Path.{◌≡◌}
use mathlib.Core.Bool.{Bool, true, ◌&&◌}
use native.Mathlib.Omega.{arith}

unfoldable pub table : (ℕ → Bool) → ℕ → Bool
table test zero = true
table test (suc bound) = table test bound && test bound

-- A row of a table that holds.
pub row : (test : ℕ → Bool) (bound k : ℕ) → k < bound → table test bound ≡ true → test k ≡ true
unfolding table
row test zero k below checked = absurd (omega arith)
row test (suc bound) k below checked = ground (arith, row test bound k)
