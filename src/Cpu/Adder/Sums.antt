-- ===== src/Cpu/Adder/Sums.antt =====
-- What the adder computes: 8-bit addition and subtraction with carry and borrow, and the flags.
use mach_emu.Base.{
  ℕ, ◌+◌, ◌-◌, ◌*◌, ◌/◌, ◌%◌, ◌<◌, ◌≡◌, refl, Bool, true, false, not, ◌==◌, ltb, leb, u16, arith,
  ◌∙◌,
}
use mach_emu.Bits.{Bitset, digit, count}
use mach_emu.Bits.Laws.{
  to_ulong-of_ulong, to_ulong-lt, digit-le-one, digit-ltb, is_none-eq-zero, bit7-eq-leb,
}
use mach_emu.Cpu.State.{
  Intel8080, Condition, carry_flag, parity_flag, aux_carry_flag, zero_flag, sign_flag, test_flag,
  Reg, deref, value, ready,
}
use mach_emu.Cpu.Adder.{adc_reg, sbb_reg, cmp_reg}

abbrev pub flag : Condition → Intel8080 → Bool
flag f cpu = test_flag f cpu.status

digit-not : (b : Bool) → digit (digit b == 0) + digit b ≡ 1
unfolding digit
digit-not true = refl
digit-not false = refl

not_borrow : (n : ℕ) → n < 512 → digit (not (ltb 255 n)) + n / 256 ≡ 1
unfolding digit
not_borrow n h = ground arith

less_of_carry :
    (sum x y : ℕ) → sum ≡ x + (255 - y) + 1 → x < 256 → y < 256 → not (ltb 255 sum) ≡ ltb x y
less_of_carry sum x y e hx hy = ground arith

zero_of_sum : (r x y : ℕ) → r ≡ (x + (255 - y) + 1) % 256 → x < 256 → y < 256 → (r == 0) ≡ (x == y)
zero_of_sum r x y e hx hy = ground arith

-- The flags that describe a result: zero, sign (its highest bit) and even parity.
abbrev pub Describes : Bitset → Bitset → Type 0
Describes status r =
    (test_flag zero_flag status ≡ (value r == 0))
    × (test_flag sign_flag status ≡ leb 128 (value r))
    × (test_flag parity_flag status ≡ (count r % 2 == 0))

module _ {W : Type 0} (cpu : Intel8080) (w : W) (r : Reg) where
  -- ADC: with its carry as a ninth bit, the new accumulator is the sum of the old one, the register
  -- and the old carry. The auxiliary carry is that out of the low four bits, zero, sign and parity
  -- describe the new accumulator, and only the accumulator, the flags and the program counter
  -- change. All for any register, the accumulator included.
  pub adc_sum :
      let cpu' = (adc_reg r (ready cpu w)).1.cpu in
      (value cpu'.a + 256 * digit (flag carry_flag cpu')
        ≡ value cpu.a + value (deref r cpu) + digit (flag carry_flag cpu))
      × (flag aux_carry_flag cpu'
          ≡ ltb 15 (value cpu.a % 16 + value (deref r cpu) % 16 + digit (flag carry_flag cpu)))
      × Describes cpu'.status cpu'.a
      × (cpu' ≡ record cpu { a = cpu'.a; pc = u16 (cpu.pc + 1); status = cpu'.status })
  unfolding adc_reg
  adc_sum = (
    omega (arith, to_ulong-of_ulong, digit-ltb, to_ulong-lt, digit-le-one),
    refl,
    (is_none-eq-zero _, bit7-eq-leb _, refl),
    refl,
  )

  -- SBB: the register and the old borrow are taken from the accumulator, and the new borrow, in
  -- the carry flag, stands for 256; zero, sign and parity describe the new accumulator, and only
  -- the accumulator, the flags and the program counter change.
  pub sbb_difference :
      let cpu' = (sbb_reg r (ready cpu w)).1.cpu in
      (value cpu'.a + value (deref r cpu) + digit (flag carry_flag cpu)
        ≡ value cpu.a + 256 * digit (flag carry_flag cpu'))
      × Describes cpu'.status cpu'.a
      × (cpu' ≡ record cpu { a = cpu'.a; pc = u16 (cpu.pc + 1); status = cpu'.status })
  unfolding sbb_reg
  sbb_difference = (
    omega (arith, to_ulong-of_ulong, not_borrow, to_ulong-lt, digit-not),
    (is_none-eq-zero _, bit7-eq-leb _, refl),
    refl,
  )

  -- CMP: the carry flag tells whether the accumulator is less than the register, the zero flag
  -- whether they are equal, and no register changes but the flags and the program counter.
  pub cmp_order :
      let cpu' = (cmp_reg r (ready cpu w)).1.cpu in
      (flag carry_flag cpu' ≡ ltb (value cpu.a) (value (deref r cpu)))
      × (flag zero_flag cpu' ≡ (value cpu.a == value (deref r cpu)))
      × (cpu' ≡ record cpu { pc = u16 (cpu.pc + 1); status = cpu'.status })
  unfolding cmp_reg
  cmp_order = (
    less_of_carry _ (value cpu.a) (value (deref r cpu))
        (omega (arith, to_ulong-of_ulong, to_ulong-lt)) (to_ulong-lt _) (to_ulong-lt _),
    is_none-eq-zero _
        ∙ zero_of_sum _ (value cpu.a) (value (deref r cpu))
            (omega (arith, to_ulong-of_ulong, to_ulong-lt)) (to_ulong-lt _) (to_ulong-lt _),
    refl,
  )
