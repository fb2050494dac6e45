-- ===== src/Cpu/Logic/Rotates.antt =====
-- The rotates as arithmetic on the accumulator and the carry, and as inverses of each other.
use mach_emu.Base.{ℕ, ◌+◌, ◌*◌, ◌≡◌, refl, u16, arith}
use mach_emu.Bits.{digit, to_ulong}
use mach_emu.Cpu.State.{Intel8080, carry_flag, assign_flag, value, ready}
use mach_emu.Cpu.Logic.{rlc, rrc, ral, rar}
use mach_emu.Cpu.Adder.Sums.{flag}

abbrev pub carry_of : Intel8080 → ℕ
carry_of c = digit (flag carry_flag c)

-- The program counter after two one-byte instructions.
abbrev pub twice_on : Intel8080 → Intel8080
twice_on c = record c { pc = u16 (u16 (c.pc + 1) + 1) }

module _ {W : Type 0} (cpu : Intel8080) (w : W) where
  -- RAL doubles the nine-bit number that the carry and the accumulator form, bringing the old
  -- carry in at the bottom, and RAR undoes that; RLC and RRC rotate the accumulator alone, and
  -- leave in the carry the bit that went round.
  pub rotate_values :
      (value (ral (ready cpu w)).1.cpu.a + 256 * carry_of (ral (ready cpu w)).1.cpu
        ≡ 2 * value cpu.a + carry_of cpu)
      × (2 * value (rar (ready cpu w)).1.cpu.a + carry_of (rar (ready cpu w)).1.cpu
          ≡ value cpu.a + 256 * carry_of cpu)
      × (value (rlc (ready cpu w)).1.cpu.a + 255 * carry_of (rlc (ready cpu w)).1.cpu
          ≡ 2 * value cpu.a)
      × (2 * value (rrc (ready cpu w)).1.cpu.a
          ≡ value cpu.a + 255 * carry_of (rrc (ready cpu w)).1.cpu)
  unfolding ral rar rlc rrc to_ulong digit
  rotate_values = (omega arith, omega arith, omega arith, omega arith)

  -- RAR undoes RAL and RAL undoes RAR: nothing is changed but the program counter. RRC undoes RLC
  -- and RLC undoes RRC on the accumulator, and the carry keeps the bit that went round.
  pub rotate_undo :
      ((rar (ral (ready cpu w)).1).1.cpu ≡ twice_on cpu)
      × ((ral (rar (ready cpu w)).1).1.cpu ≡ twice_on cpu)
      × ((rrc (rlc (ready cpu w)).1).1.cpu
          ≡ twice_on (record cpu { status = assign_flag carry_flag cpu.a.bit7 cpu.status }))
      × ((rlc (rrc (ready cpu w)).1).1.cpu
          ≡ twice_on (record cpu { status = assign_flag carry_flag cpu.a.bit0 cpu.status }))
  unfolding ral rar rlc rrc
  rotate_undo = (refl, refl, refl, refl)
