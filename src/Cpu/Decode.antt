-- ===== src/Cpu/Decode.antt =====
-- The `switch (opcode_)` of `Intel8080::Execute` (Cpu/source/8080.cpp): which operation, with which
-- arguments, each of the 256 opcodes selects.
pub mod Low
pub mod High
pub mod Switch
pub mod Fields
pub mod Table
use mach_emu.Base.{Bool}
use mach_emu.Cpu.State.{Condition, Reg}

-- The operations of the adder and the logic unit that take a register, the byte at HL, or the
-- byte at `++pc_`.
pub data Alu : Type 0 where
  add adc sub sbb ana xra ora cmp : Alu

pub data Operand : Type 0 where
  reg : Reg → Operand
  memory immediate : Operand

-- `true`, or `status_.test(flag) == v`.
pub data Test : Type 0 where
  always : Test
  flag_is : Condition → Bool → Test

-- The operations that cannot fail.
pub data Call : Type 0 where
  nop : Call
  lxi stax inx dcx dad ldax push pop : Reg → Reg → Call
  lxi_sp inx_sp dcx_sp dad_sp pop_psw : Call
  inr_reg dcr_reg mvi_reg : Reg → Call
  inr_mem dcr_mem mvi_mem : Call
  rlc rrc ral rar daa cma stc cmc : Call
  shld lhld sta lda : Call
  mov : Reg → Reg → Call
  mov_from_mem mov_to_mem : Reg → Call
  alu : Alu → Operand → Call
  jmp call : Test → Call
  ret : Test → Bool → Call
  rst out input xthl pchl xchg di sphl ei : Call

-- HLT and the missing opcodes hold an `assert(0)`.
pub data Instruction : Type 0 where
  hlt not_implemented : Instruction
  total : Call → Instruction
