-- ===== src/Cpu/Execute/Operands.antt =====
-- The forms of the arithmetic and logic instructions that take their operand from memory.
use mach_emu.Base.{ℕ, ◌+◌, ◌≡◌, refl, u16}
use mach_emu.Bits.{Bitset, of_ulong}
use mach_emu.Cpu.State.{Intel8080, reg_b, uint16, Process, ready, receive}
use mach_emu.Cpu.Adder.{
  add_reg, adc_reg, sub_reg, sbb_reg, cmp_reg, add_mem, adc_mem, sub_mem, sbb_mem, cmp_mem,
}
use mach_emu.Cpu.Logic.{ana_reg, xra_reg, ora_reg, ana_mem, xra_mem, ora_mem}
use mach_emu.Cpu.Decode.{Alu, memory, immediate}
use mach_emu.Cpu.Execute.{alu_reg, alu_mem, exec_alu}
use mach_emu.Cpu.Protocol.{Devices, read_memory}

-- The register form of an operation with a byte in place of the register's contents.
abbrev pub on_byte : {W : Type 0} ⦃p : Process W⦄ → Alu → Bitset → Intel8080 → W → Intel8080
on_byte op x cpu w =
    let cpu' = (alu_reg op reg_b (ready (record cpu { b = x }) w)).1.cpu in
    record cpu' { b = cpu.b }

module _ {W : Type 0} ⦃p : Process W⦄ ⦃dev : Devices W⦄ (cpu : Intel8080) (w : W) where
  alu_mem_lem :
      (op : Alu) (addr : ℕ)
      → alu_mem op addr (ready cpu w)
        ≡ (7, ready (on_byte op (of_ulong (dev.peek w addr)) cpu w) (dev.loaded addr w))
  unfolding alu_mem alu_reg add_reg adc_reg sub_reg sbb_reg cmp_reg add_mem adc_mem sub_mem sbb_mem
      cmp_mem ana_reg xra_reg ora_reg ana_mem xra_mem ora_mem receive
  alu_mem_lem Alu.add addr = rw read_memory refl
  alu_mem_lem Alu.adc addr = rw read_memory refl
  alu_mem_lem Alu.sub addr = rw read_memory refl
  alu_mem_lem Alu.sbb addr = rw read_memory refl
  alu_mem_lem Alu.ana addr = rw read_memory refl
  alu_mem_lem Alu.xra addr = rw read_memory refl
  alu_mem_lem Alu.ora addr = rw read_memory refl
  alu_mem_lem Alu.cmp addr = rw read_memory refl

module _ {W : Type 0} ⦃p : Process W⦄ ⦃dev : Devices W⦄ (cpu : Intel8080) (w : W) where
  -- An operation on the byte at HL, and one on the byte after the opcode, take 7 ticks and do what
  -- the operation does on a register that holds that byte; the immediate form moves the program
  -- counter one byte further.
  pub exec_alu-alu_reg :
      (op : Alu)
      → (exec_alu op memory (ready cpu w) ≡ (
        7,
        ready
            (on_byte op (of_ulong (dev.peek w (uint16 cpu.h cpu.l))) cpu w)
            (dev.loaded (uint16 cpu.h cpu.l) w),
      ))
        × (exec_alu op immediate (ready cpu w) ≡ (
          7,
          ready
              (on_byte op
                (of_ulong (dev.peek w (u16 (cpu.pc + 1))))
                (record cpu { pc = u16 (cpu.pc + 1) })
                w)
              (dev.loaded (u16 (cpu.pc + 1)) w),
        ))
  unfolding exec_alu
  exec_alu-alu_reg op = (
    alu_mem_lem cpu w op (uint16 cpu.h cpu.l),
    alu_mem_lem (record cpu { pc = u16 (cpu.pc + 1) }) w op (u16 (cpu.pc + 1)),
  )
