-- ===== src/Cpu/Logic/Flags.antt =====
-- ANA, XRA and ORA.
use mach_emu.Base.{◌+◌, ◌≡◌, refl, Bool, true, false, xor, ◌&&◌, ◌||◌, u16}
use mach_emu.Bits.{Bitset, no_bits, xor_bits, and_bits, or_bits}
use mach_emu.Bits.Laws.{is_none-eq-zero, bit7-eq-leb}
use mach_emu.Cpu.State.{Intel8080, carry_flag, Reg, reg_a, ready}
use mach_emu.Cpu.Logic.{ana_reg, xra_reg, ora_reg}
use mach_emu.Cpu.Adder.Sums.{flag, Describes}

-- What the three leave: no carry, flags that describe the accumulator, and nothing else changed.
abbrev pub IsLogical : Intel8080 → Intel8080 → Type 0
IsLogical cpu cpu' =
    (flag carry_flag cpu' ≡ false)
    × Describes cpu'.status cpu'.a
    × (cpu' ≡ record cpu { a = cpu'.a; pc = u16 (cpu.pc + 1); status = cpu'.status })

xor_self : (x : Bool) → xor x x ≡ false
unfolding xor
xor_self true = refl
xor_self false = refl

xor_bits_self : (x : Bitset) → xor_bits x x ≡ no_bits
unfolding xor_bits
xor_bits_self x = λ i. record {
  bit0 = xor_self x.bit0 i;
  bit1 = xor_self x.bit1 i;
  bit2 = xor_self x.bit2 i;
  bit3 = xor_self x.bit3 i;
  bit4 = xor_self x.bit4 i;
  bit5 = xor_self x.bit5 i;
  bit6 = xor_self x.bit6 i;
  bit7 = xor_self x.bit7 i;
}

and_self : (x : Bool) → (x && x) ≡ x
and_self true = refl
and_self false = refl

or_self : (x : Bool) → (x || x) ≡ x
or_self true = refl
or_self false = refl

and_bits_self : (x : Bitset) → and_bits x x ≡ x
unfolding and_bits
and_bits_self x = λ i. record {
  bit0 = and_self x.bit0 i;
  bit1 = and_self x.bit1 i;
  bit2 = and_self x.bit2 i;
  bit3 = and_self x.bit3 i;
  bit4 = and_self x.bit4 i;
  bit5 = and_self x.bit5 i;
  bit6 = and_self x.bit6 i;
  bit7 = and_self x.bit7 i;
}

or_bits_self : (x : Bitset) → or_bits x x ≡ x
unfolding or_bits
or_bits_self x = λ i. record {
  bit0 = or_self x.bit0 i;
  bit1 = or_self x.bit1 i;
  bit2 = or_self x.bit2 i;
  bit3 = or_self x.bit3 i;
  bit4 = or_self x.bit4 i;
  bit5 = or_self x.bit5 i;
  bit6 = or_self x.bit6 i;
  bit7 = or_self x.bit7 i;
}

module _ {W : Type 0} (cpu : Intel8080) (w : W) where
  logical :
      (r : Reg)
      → IsLogical cpu (ana_reg r (ready cpu w)).1.cpu
        × IsLogical cpu (xra_reg r (ready cpu w)).1.cpu
        × IsLogical cpu (ora_reg r (ready cpu w)).1.cpu
  unfolding ana_reg xra_reg ora_reg
  logical r = (
    (refl, (is_none-eq-zero _, bit7-eq-leb _, refl), refl),
    (refl, (is_none-eq-zero _, bit7-eq-leb _, refl), refl),
    (refl, (is_none-eq-zero _, bit7-eq-leb _, refl), refl),
  )

module _ {W : Type 0} (cpu : Intel8080) (w : W) where
  -- ANA, XRA and ORA of any register clear the carry, let zero, sign and parity describe the new
  -- accumulator, and change nothing else but the program counter. Of the accumulator itself, ANA
  -- and ORA keep it, and so test it, and XRA clears it.
  pub bitwise_self :
      ((r : Reg)
        → IsLogical cpu (ana_reg r (ready cpu w)).1.cpu
          × IsLogical cpu (xra_reg r (ready cpu w)).1.cpu
          × IsLogical cpu (ora_reg r (ready cpu w)).1.cpu)
      × ((ana_reg reg_a (ready cpu w)).1.cpu.a ≡ cpu.a)
      × ((xra_reg reg_a (ready cpu w)).1.cpu.a ≡ no_bits)
      × ((ora_reg reg_a (ready cpu w)).1.cpu.a ≡ cpu.a)
  unfolding ana_reg xra_reg ora_reg
  bitwise_self = (logical cpu w, and_bits_self cpu.a, xor_bits_self cpu.a, or_bits_self cpu.a)
