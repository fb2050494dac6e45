-- ===== src/Cpu/Valid/Execution.antt =====
-- Each call of the `switch` keeps the cpu valid and the bus idle, whatever the memory holds.
use mach_emu.Base.{◌≡◌, Bool, true, ◌&&◌, arith}
use mach_emu.Cpu.State.{Intel8080, Process, ready}
use mach_emu.Cpu.Decode.{Call, Instruction, total, Operand}
use mach_emu.Cpu.Execute.{exec, exec_alu, holds}
use mach_emu.Cpu.Protocol.{Devices}
use mach_emu.Cpu.Valid.{IsValid, Completes, is_plain, next_pc-IsValid}
use mach_emu.Cpu.Valid.Registers
use mach_emu.Cpu.Valid.Memory

-- The registers that a call assigns to through a `Register&` are not `status_`.
abbrev pub is_safe : Call → Bool
is_safe (Call.lxi hi low) = is_plain hi && is_plain low
is_safe (Call.inx hi low) = is_plain hi && is_plain low
is_safe (Call.dcx hi low) = is_plain hi && is_plain low
is_safe (Call.pop hi low) = is_plain hi && is_plain low
is_safe (Call.inr_reg r) = is_plain r
is_safe (Call.dcr_reg r) = is_plain r
is_safe (Call.mvi_reg r) = is_plain r
is_safe (Call.mov_from_mem r) = is_plain r
is_safe (Call.mov r q) = is_plain r
is_safe _ = true

abbrev pub is_safe_instruction : Instruction → Bool
is_safe_instruction (total i) = is_safe i
is_safe_instruction _ = true

module _ {W : Type 0} ⦃p : Process W⦄ ⦃dev : Devices W⦄ (cpu : Intel8080) (w : W)
    (h : IsValid cpu) where
  pub exec-Completes : (i : Call) → is_safe i ≡ true → Completes (exec i (ready cpu w))
  unfolding exec exec_alu
  exec-Completes Call.nop s = Registers.nop-Completes cpu w h
  exec-Completes (Call.lxi hi low) s =
      Memory.lxi-Completes cpu w h hi low (ground arith) (ground arith)
  exec-Completes (Call.stax hi low) s = Memory.stax-Completes cpu w h hi low
  exec-Completes (Call.inx hi low) s =
      Registers.inx-Completes cpu w h hi low (ground arith) (ground arith)
  exec-Completes (Call.dcx hi low) s =
      Registers.dcx-Completes cpu w h hi low (ground arith) (ground arith)
  exec-Completes (Call.dad hi low) s = Registers.dad-Completes cpu w h _ _
  exec-Completes (Call.ldax hi low) s = Memory.ldax-Completes cpu w h hi low
  exec-Completes (Call.push hi low) s = Memory.push-Completes cpu w h hi low
  exec-Completes (Call.pop hi low) s =
      Memory.pop-Completes cpu w h hi low (ground arith) (ground arith)
  exec-Completes Call.lxi_sp s = Memory.lxi_sp-Completes cpu w h
  exec-Completes Call.inx_sp s = Registers.inx_sp-Completes cpu w h
  exec-Completes Call.dcx_sp s = Registers.dcx_sp-Completes cpu w h
  exec-Completes Call.dad_sp s = Registers.dad_sp-Completes cpu w h
  exec-Completes Call.pop_psw s = Memory.pop_psw-Completes cpu w h
  exec-Completes (Call.inr_reg r) s = Registers.inr_reg-Completes cpu w h r s
  exec-Completes (Call.dcr_reg r) s = Registers.dcr_reg-Completes cpu w h r s
  exec-Completes (Call.mvi_reg r) s = Memory.mvi_reg-Completes cpu w h r s
  exec-Completes Call.inr_mem s = Memory.inr_mem-Completes cpu w h
  exec-Completes Call.dcr_mem s = Memory.dcr_mem-Completes cpu w h _
  exec-Completes Call.mvi_mem s = Memory.mvi_mem-Completes cpu w h
  exec-Completes Call.rlc s = Registers.rlc-Completes cpu w h
  exec-Completes Call.rrc s = Registers.rrc-Completes cpu w h
  exec-Completes Call.ral s = Registers.ral-Completes cpu w h
  exec-Completes Call.rar s = Registers.rar-Completes cpu w h
  exec-Completes Call.daa s = Registers.daa-Completes cpu w h
  exec-Completes Call.cma s = Registers.cma-Completes cpu w h
  exec-Completes Call.stc s = Registers.stc-Completes cpu w h
  exec-Completes Call.cmc s = Registers.cmc-Completes cpu w h
  exec-Completes Call.shld s = Memory.shld-Completes cpu w h
  exec-Completes Call.lhld s = Memory.lhld-Completes cpu w h
  exec-Completes Call.sta s = Memory.sta-Completes cpu w h
  exec-Completes Call.lda s = Memory.lda-Completes cpu w h
  exec-Completes (Call.mov r q) s = Registers.mov-Completes cpu w h r q s
  exec-Completes (Call.mov_from_mem r) s = Memory.mov_from_mem-Completes cpu w h r s
  exec-Completes (Call.mov_to_mem r) s = Memory.mov_to_mem-Completes cpu w h _
  exec-Completes (Call.alu op (Operand.reg r)) s = Registers.alu_reg-Completes cpu w h op r
  exec-Completes (Call.alu op Operand.memory) s = Memory.alu_mem-Completes cpu w h op _
  exec-Completes (Call.alu op Operand.immediate) s =
      Memory.alu_mem-Completes _ w (next_pc-IsValid cpu h) op _
  exec-Completes (Call.jmp t) s = Memory.jmp_on_flag-Completes cpu w h (holds t cpu)
  exec-Completes (Call.call t) s = Memory.call_on_flag-Completes cpu w h (holds t cpu)
  exec-Completes (Call.ret t b) s = Memory.ret_on_flag-Completes cpu w h (holds t cpu) b
  exec-Completes Call.rst s = Memory.rst-Completes cpu w h
  exec-Completes Call.out s = Memory.out-Completes cpu w h
  exec-Completes Call.input s = Memory.input-Completes cpu w h
  exec-Completes Call.xthl s = Memory.xthl-Completes cpu w h
  exec-Completes Call.pchl s = Registers.pchl-Completes cpu w h
  exec-Completes Call.xchg s = Registers.xchg-Completes cpu w h
  exec-Completes Call.di s = Registers.di-Completes cpu w h
  exec-Completes Call.sphl s = Registers.sphl-Completes cpu w h
  exec-Completes Call.ei s = Registers.ei-Completes cpu w h
