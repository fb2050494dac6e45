-- ===== src/Bits/Values.antt =====
-- `std::bitset<8>` as a type: its values are the bytes.
use mathlib.Core.Equiv.{Iso, iso_to_equiv, ◌≃◌}
use mathlib.Core.HLevel.{Σ_prop_path}
use native.Mathlib.Bridge.{le_prop}
use mach_emu.Base.{ℕ, ◌-◌, ◌+◌, ◌*◌, ◌/◌, Bool, true, false, not, ◌%◌, ◌<◌, ◌≡◌, refl, ◌∙◌, arith}
use mach_emu.Bits.{digit, flip, shift_left, shift_right, Bitset, of_ulong, to_ulong}
use mach_emu.Bits.Laws.{to_ulong-of_ulong, of_ulong-to_ulong, to_ulong-lt, digit-le-one}

-- A `uint8_t`.
abbrev pub Byte : Type 0
Byte = (n : ℕ) × (n < 256)

abbrev pub to_byte : Bitset → Byte
to_byte r = (to_ulong r, to_ulong-lt r)

abbrev pub of_byte : Byte → Bitset
of_byte n = of_ulong n.0

of_byte-to_byte : (n : Byte) → to_byte (of_byte n) ≡ n
of_byte-to_byte (n, small) = Σ_prop_path (λ m. le_prop) (to_ulong-of_ulong n ∙ omega arith)

abbrev bitset_iso : Iso Bitset Byte
bitset_iso = record {
  fun = to_byte;
  inv = of_byte;
  rinv = of_byte-to_byte;
  linv = of_ulong-to_ulong;
}

digit-not : (b : Bool) → digit (not b) + digit b ≡ 1
unfolding digit
digit-not true = refl
digit-not false = refl

-- The registers are the bytes, by their numeric value, and as operations on bytes: `flip` takes from
-- 255, a shift to the left doubles modulo 256, and one to the right halves, dropping the remainder.
pub bitset_values :
    (e : Bitset ≃ Byte) × ((r : Bitset) → (e.0 r).0 ≡ to_ulong r)
    × ((n : Byte) → to_ulong (of_ulong n.0) ≡ n.0)
    × ((r : Bitset) → to_ulong (flip r) ≡ 255 - to_ulong r)
    × ((r : Bitset) → to_ulong (shift_left r) ≡ 2 * to_ulong r % 256)
    × ((r : Bitset) → to_ulong (shift_right r) ≡ to_ulong r / 2)
unfolding to_ulong flip shift_left shift_right digit
bitset_values = (
  iso_to_equiv bitset_iso,
  λ r. refl,
  λ n. to_ulong-of_ulong n.0 ∙ omega (arith, n.1),
  λ r. omega (arith, digit-le-one, digit-not),
  λ r. omega (arith, digit-le-one),
  λ r. omega (arith, digit-le-one),
)
