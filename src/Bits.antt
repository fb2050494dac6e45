-- ===== src/Bits.antt =====
-- `std::bitset<8>`, the type of the cpu's registers (`Intel8080::Register`) and of the control
-- bus's lanes: eight bits, `bit0` the lowest. The operations are those that Cpu/source/8080.cpp,
-- Cpu/include/Cpu/8080.h and SystemBus/include/SystemBus/SystemBus.h call.
pub mod Laws
pub mod Values
use mach_emu.Base.{ℕ, ◌+◌, ◌*◌, ◌/◌, ◌%◌, Bool, true, false, not, ◌&&◌, ◌||◌, xor, ◌==◌}

pub record Bitset : Type 0 where
  pub bit0 : Bool
  pub bit1 : Bool
  pub bit2 : Bool
  pub bit3 : Bool
  pub bit4 : Bool
  pub bit5 : Bool
  pub bit6 : Bool
  pub bit7 : Bool

-- Whether a number is odd: its lowest binary digit.
unfoldable pub odd : ℕ → Bool
odd n = n % 2 == 1

unfoldable pub digit : Bool → ℕ
digit true = 1
digit false = 0

-- `std::bitset<8>(n)` takes the low eight digits of `n`.
unfoldable pub of_ulong : ℕ → Bitset
of_ulong n = record {
  bit0 = odd n;
  bit1 = odd (n / 2);
  bit2 = odd (n / 4);
  bit3 = odd (n / 8);
  bit4 = odd (n / 16);
  bit5 = odd (n / 32);
  bit6 = odd (n / 64);
  bit7 = odd (n / 128);
}

unfoldable pub to_ulong : Bitset → ℕ
to_ulong r =
    digit r.bit0
    + 2 * digit r.bit1
    + 4 * digit r.bit2
    + 8 * digit r.bit3
    + 16 * digit r.bit4
    + 32 * digit r.bit5
    + 64 * digit r.bit6
    + 128 * digit r.bit7

abbrev pub no_bits : Bitset
no_bits = record {
  bit0 = false;
  bit1 = false;
  bit2 = false;
  bit3 = false;
  bit4 = false;
  bit5 = false;
  bit6 = false;
  bit7 = false;
}

-- A bitwise operation on two sets.
abbrev pub zip_with : (Bool → Bool → Bool) → Bitset → Bitset → Bitset
zip_with f x y = record {
  bit0 = f x.bit0 y.bit0;
  bit1 = f x.bit1 y.bit1;
  bit2 = f x.bit2 y.bit2;
  bit3 = f x.bit3 y.bit3;
  bit4 = f x.bit4 y.bit4;
  bit5 = f x.bit5 y.bit5;
  bit6 = f x.bit6 y.bit6;
  bit7 = f x.bit7 y.bit7;
}

unfoldable pub and_bits : Bitset → Bitset → Bitset
and_bits = zip_with ◌&&◌

unfoldable pub or_bits : Bitset → Bitset → Bitset
or_bits = zip_with ◌||◌

unfoldable pub xor_bits : Bitset → Bitset → Bitset
xor_bits = zip_with xor

unfoldable pub flip : Bitset → Bitset
flip r = zip_with (λ x y. not x) r r

-- `r <<= 1` and `r >>= 1`.
unfoldable pub shift_left : Bitset → Bitset
shift_left r = record {
  bit0 = false;
  bit1 = r.bit0;
  bit2 = r.bit1;
  bit3 = r.bit2;
  bit4 = r.bit3;
  bit5 = r.bit4;
  bit6 = r.bit5;
  bit7 = r.bit6;
}

unfoldable pub shift_right : Bitset → Bitset
shift_right r = record {
  bit0 = r.bit1;
  bit1 = r.bit2;
  bit2 = r.bit3;
  bit3 = r.bit4;
  bit4 = r.bit5;
  bit5 = r.bit6;
  bit6 = r.bit7;
  bit7 = false;
}

-- The number of set bits.
unfoldable pub count : Bitset → ℕ
count r =
    digit r.bit0
    + digit r.bit1
    + digit r.bit2
    + digit r.bit3
    + digit r.bit4
    + digit r.bit5
    + digit r.bit6
    + digit r.bit7

unfoldable pub is_none : Bitset → Bool
is_none r = count r == 0
