-- ===== src/Base/Int.antt =====
-- Signed numbers: nanoseconds and tick counts, which the program keeps in `int64_t` and which here
-- do not overflow.
use Prim.Native.Nat.{ℕ, suc, ◌+◌, ◌-◌, ◌≤◌}
use mathlib.Core.Path.{◌≡◌}
use mathlib.Core.Bool.{Bool}
use native.Mathlib.Omega.{arith}
use mach_emu.Base.Tests.{ltb, leb, if◌then◌else◌}

-- `negsuc n` is -(n + 1).
pub data ℤ : Type 0 where
  pos : ℕ → ℤ
  negsuc : ℕ → ℤ

-- What is above zero, and what is below.
abbrev pub above : ℤ → ℕ
above (pos n) = n
above (negsuc n) = 0

abbrev pub below : ℤ → ℕ
below (pos n) = 0
below (negsuc n) = suc n

-- The difference of two numbers.
unfoldable pub minus : ℕ → ℕ → ℤ
minus a b = if leb b a then pos (a - b) else negsuc (b - a - 1)

infixl 65 ◌+ℤ◌ ◌-ℤ◌
unfoldable pub ◌+ℤ◌ : ℤ → ℤ → ℤ
unfolding minus
a +ℤ b = minus (above a + above b) (below a + below b)

unfoldable pub ◌-ℤ◌ : ℤ → ℤ → ℤ
unfolding minus
a -ℤ b = minus (above a + below b) (below a + above b)

abbrev pub leb_ℤ : ℤ → ℤ → Bool
leb_ℤ a b = leb (above a + below b) (above b + below a)

abbrev pub ltb_ℤ : ℤ → ℤ → Bool
ltb_ℤ a b = ltb (above a + below b) (above b + below a)

infix 50 ◌≤ℤ◌
abbrev pub ◌≤ℤ◌ : ℤ → ℤ → Type 0
a ≤ℤ b = above a + below b ≤ above b + below a

pub minus_sides : (a b : ℕ) → above (minus a b) + b ≡ a + below (minus a b)
unfolding minus
minus_sides a b = ground arith

pub +ℤ_sides : (a b : ℤ) → above (a +ℤ b) + below a + below b ≡ above a + above b + below (a +ℤ b)
unfolding ◌+ℤ◌
+ℤ_sides a b = ground arith

pub -ℤ_sides : (a b : ℤ) → above (a -ℤ b) + below a + above b ≡ above a + below b + below (a -ℤ b)
unfolding ◌-ℤ◌
-ℤ_sides a b = ground arith

pub ruleset signed = (arith, minus_sides, +ℤ_sides, -ℤ_sides)

pub above_less : (a : ℤ) (x y : ℕ) → y ≤ x → above (a -ℤ minus x y) ≤ above a
unfolding ◌-ℤ◌ minus
above_less a x y h = ground arith

pub above_sum : (a b : ℤ) → above (a +ℤ b) ≤ above a + above b
unfolding ◌+ℤ◌ minus
above_sum a b = ground arith
