-- ===== src/Bits/Laws.antt =====
-- `std::bitset<8>` and the bytes 0 to 255 are the same thing.
use mach_emu.Base.{
  ℕ, ◌/◌, ◌%◌, ◌≤◌, ◌<◌, ◌≡◌, sym, ap, ◌∙◌, Bool, true, false, ltb, leb, ◌==◌, ◌+◌, ◌*◌, arith,
}
use mach_emu.Bits.{Bitset, odd, digit, of_ulong, to_ulong, count, is_none}

pub digit-odd : (n : ℕ) → digit (odd n) ≡ n % 2
unfolding digit odd
digit-odd n = ground arith

pub digit-le-one : (b : Bool) → digit b ≤ 1
unfolding digit
digit-le-one true = omega arith
digit-le-one false = omega arith

odd_of_digit : (b : Bool) (n : ℕ) → n % 2 ≡ digit b → odd n ≡ b
unfolding digit odd
odd_of_digit b n h = ground arith

-- A byte stored in a register is its low eight binary digits.
pub to_ulong-of_ulong : (n : ℕ) → to_ulong (of_ulong n) ≡ n % 256
unfolding to_ulong of_ulong
to_ulong-of_ulong n = omega (arith, digit-odd)

pub to_ulong-lt : (r : Bitset) → to_ulong r < 256
unfolding to_ulong
to_ulong-lt r = omega (arith, digit-le-one)

-- A register's value determines the register.
pub of_ulong-to_ulong : (r : Bitset) → of_ulong (to_ulong r) ≡ r
unfolding to_ulong of_ulong
of_ulong-to_ulong r = λ i. record {
  bit0 = odd_of_digit r.bit0 (to_ulong r) (omega (arith, digit-le-one)) i;
  bit1 = odd_of_digit r.bit1 (to_ulong r / 2) (omega (arith, digit-le-one)) i;
  bit2 = odd_of_digit r.bit2 (to_ulong r / 4) (omega (arith, digit-le-one)) i;
  bit3 = odd_of_digit r.bit3 (to_ulong r / 8) (omega (arith, digit-le-one)) i;
  bit4 = odd_of_digit r.bit4 (to_ulong r / 16) (omega (arith, digit-le-one)) i;
  bit5 = odd_of_digit r.bit5 (to_ulong r / 32) (omega (arith, digit-le-one)) i;
  bit6 = odd_of_digit r.bit6 (to_ulong r / 64) (omega (arith, digit-le-one)) i;
  bit7 = odd_of_digit r.bit7 (to_ulong r / 128) (omega (arith, digit-le-one)) i;
}

-- The ninth digit of a sum of bytes.
pub digit-ltb : (n : ℕ) → n < 512 → digit (ltb 255 n) ≡ n / 256
unfolding digit
digit-ltb n h = ground arith

leb-digit : (b : Bool) (rest : ℕ) → rest < 128 → leb 128 (rest + 128 * digit b) ≡ b
unfolding digit
leb-digit true rest h = ground arith
leb-digit false rest h = ground arith

-- The highest bit of a register tells whether its value is at least 128.
pub bit7-eq-leb : (r : Bitset) → r.bit7 ≡ leb 128 (to_ulong r)
unfolding to_ulong
bit7-eq-leb r = sym (leb-digit r.bit7 _ (omega (arith, digit-le-one)))

eq_zero_ext : (n m : ℕ) → n ≤ m → (n ≡ 0 → m ≡ 0) → (n == 0) ≡ (m == 0)
eq_zero_ext n m h k = ground arith

-- A register has no bit set exactly if its value is 0.
pub is_none-eq-zero : (r : Bitset) → is_none r ≡ (to_ulong r == 0)
unfolding is_none to_ulong count
is_none-eq-zero r = eq_zero_ext _ _ (omega arith) (λ h. omega arith)

-- A register is determined by the byte stored in it.
pub of_ulong-eq : (n : ℕ) (r : Bitset) → n % 256 ≡ to_ulong r → of_ulong n ≡ r
of_ulong-eq n r h =
    sym (of_ulong-to_ulong (of_ulong n))
    ∙ ap of_ulong (to_ulong-of_ulong n ∙ h)
    ∙ of_ulong-to_ulong r
