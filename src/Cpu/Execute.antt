-- ===== src/Cpu/Execute.antt =====
-- `Intel8080::Fetch` and `Intel8080::Execute` (Cpu/source/8080.cpp): one instruction, or the
-- acknowledgement of an interrupt. `asserts` says whether the build keeps `assert`; where one
-- fails the result is `none`.
pub mod Operands
use Prim.Native.Nat.{bit_or}
use mach_emu.Base.{ℕ, ◌*◌, Bool, true, false, not, ◌==◌, if◌then◌else◌, Option, none, some, u8}
use mach_emu.Bus.{memory_read, interrupt}
use mach_emu.Cpu.State.{
  Intel8080, test_flag, Reg, deref, value, uint16, Process, St, M, ◌>>=◌, ◌>>◌, pure, gets, modify,
  inc_pc, receive, receive_signal, read_from_address,
}
use mach_emu.Cpu.Adder
use mach_emu.Cpu.Logic
use mach_emu.Cpu.Transfer
use mach_emu.Cpu.Control
use mach_emu.Controller.{no_interrupt}
use mach_emu.Cpu.Decode.{
  Alu, Operand, reg, memory, immediate, Test, always, flag_is, Call, Instruction, total, hlt,
  not_implemented,
}
use mach_emu.Cpu.Decode.Switch.{decode}

abbrev pub holds : Test → Intel8080 → Bool
holds always cpu = true
holds (flag_is f true) cpu = test_flag f cpu.status
holds (flag_is f false) cpu = not (test_flag f cpu.status)

module _ {W : Type 0} ⦃p : Process W⦄ where
  unfoldable pub alu_reg : Alu → Reg → M W ℕ
  alu_reg Alu.add r = Adder.add_reg r
  alu_reg Alu.adc r = Adder.adc_reg r
  alu_reg Alu.sub r = Adder.sub_reg r
  alu_reg Alu.sbb r = Adder.sbb_reg r
  alu_reg Alu.ana r = Logic.ana_reg r
  alu_reg Alu.xra r = Logic.xra_reg r
  alu_reg Alu.ora r = Logic.ora_reg r
  alu_reg Alu.cmp r = Adder.cmp_reg r

  unfoldable pub alu_mem : Alu → ℕ → M W ℕ
  alu_mem Alu.add addr = Adder.add_mem addr
  alu_mem Alu.adc addr = Adder.adc_mem addr
  alu_mem Alu.sub addr = Adder.sub_mem addr
  alu_mem Alu.sbb addr = Adder.sbb_mem addr
  alu_mem Alu.ana addr = Logic.ana_mem addr
  alu_mem Alu.xra addr = Logic.xra_mem addr
  alu_mem Alu.ora addr = Logic.ora_mem addr
  alu_mem Alu.cmp addr = Adder.cmp_mem addr

  unfoldable pub exec_alu : Alu → Operand → M W ℕ
  unfolding alu_reg alu_mem uint16
  exec_alu op (reg r) = alu_reg op r
  exec_alu op memory = do addr ← gets (λ cpu. uint16 cpu.h cpu.l); alu_mem op addr
  exec_alu op immediate = do addr ← inc_pc; alu_mem op addr

  -- The switch's calls that cannot fail.
  unfoldable pub exec : Call → M W ℕ
  unfolding exec_alu uint16
  exec Call.nop = Control.nop
  exec (Call.lxi hi low) = Transfer.lxi hi low
  exec (Call.stax hi low) = Transfer.stax hi low
  exec (Call.inx hi low) = Transfer.inx hi low
  exec (Call.dcx hi low) = Transfer.dcx hi low
  exec (Call.ldax hi low) = Transfer.ldax hi low
  exec (Call.push hi low) = Control.push hi low
  exec (Call.pop hi low) = Control.pop hi low
  exec (Call.dad hi low) = do x ← gets (deref hi); y ← gets (deref low); Transfer.dad x y
  exec Call.lxi_sp = Transfer.lxi_sp
  exec Call.inx_sp = Transfer.inx_sp
  exec Call.dcx_sp = Transfer.dcx_sp
  exec Call.dad_sp = Transfer.dad_sp
  exec Call.pop_psw = Control.pop_psw
  exec (Call.inr_reg r) = Adder.inr_reg r
  exec Call.inr_mem = Adder.inr_mem
  exec (Call.dcr_reg r) = Adder.dcr_reg r
  exec Call.dcr_mem = do addr ← gets (λ cpu. uint16 cpu.h cpu.l); Adder.dcr_mem addr
  exec (Call.mvi_reg r) = Transfer.mvi_reg r
  exec Call.mvi_mem = Transfer.mvi_mem
  exec Call.rlc = Logic.rlc
  exec Call.rrc = Logic.rrc
  exec Call.ral = Logic.ral
  exec Call.rar = Logic.rar
  exec Call.cma = Logic.cma
  exec Call.stc = Logic.stc
  exec Call.cmc = Logic.cmc
  exec Call.daa = Adder.daa
  exec Call.shld = Transfer.shld
  exec Call.lhld = Transfer.lhld
  exec Call.sta = Transfer.sta
  exec Call.lda = Transfer.lda
  exec (Call.mov r q) = Transfer.mov r q
  exec (Call.mov_from_mem r) = Transfer.mov_from_mem r
  exec (Call.mov_to_mem r) = do v ← gets (λ cpu. value (deref r cpu)); Transfer.mov_to_mem v
  exec (Call.alu op v) = exec_alu op v
  exec (Call.jmp t) = do b ← gets (holds t); Control.jmp_on_flag b
  exec (Call.call t) = do b ← gets (holds t); Control.call_on_flag b
  exec (Call.ret t is_ret) = do b ← gets (holds t); Control.ret_on_flag b is_ret
  exec Call.rst = Control.rst
  exec Call.out = Transfer.out
  exec Call.input = Transfer.input
  exec Call.xthl = Transfer.xthl
  exec Call.pchl = Control.pchl
  exec Call.xchg = Transfer.xchg
  exec Call.di = Control.di
  exec Call.sphl = Transfer.sphl
  exec Call.ei = Control.ei

  unfoldable pub exec_instruction : Bool → Instruction → St W → Option (ℕ × St W)
  unfolding exec
  exec_instruction asserts hlt s = Control.hlt asserts s
  exec_instruction asserts not_implemented s = Control.not_implemented asserts s
  exec_instruction asserts (total i) s = some (exec i s)

  -- `Fetch`.
  unfoldable pub fetch : M W (Unit {0})
  fetch = do
    pc ← gets (λ cpu. cpu.pc)
    read_from_address memory_read pc
    v ← receive
    modify (λ cpu. record cpu { opcode = v })

  -- The branch of a pending interrupt.
  unfoldable pub acknowledge_pending : M W ℕ
  acknowledge_pending = do
    isr ← receive
    enabled ← gets (λ cpu. cpu.iff)
    if enabled then (modify (λ cpu. record cpu { iff = false }) >> pure isr) else pure no_interrupt

  -- The opening of `Execute`: the interrupt that is acknowledged, or `no_interrupt`. The data bus
  -- is read even if interrupts are disabled.
  unfoldable pub acknowledge : M W ℕ
  unfolding acknowledge_pending
  acknowledge = do
    pending ← receive_signal interrupt
    if pending then acknowledge_pending else pure no_interrupt

  -- The `switch`, whose `default` is an `assert(0)`.
  unfoldable pub run_opcode : Bool → Option Instruction → St W → Option (ℕ × St W)
  unfolding exec_instruction
  run_opcode asserts (some i) s = exec_instruction asserts i s
  run_opcode asserts none s = elim (Control.assert_zero asserts s) [
    | none ↦ none
    | some s' ↦ some (0, s')
  ]

  -- `opcode_ = 0xC7 | (static_cast<uint8_t>(isr) << 3)`, and the call of `Rst(opcode_)`.
  unfoldable pub service : ℕ → M W ℕ
  service isr = do
    let code = u8 (bit_or 0xc7 (u8 isr * 8))
    modify (λ cpu. record cpu { opcode = code })
    Control.rst_interrupt code

  -- The rest of `Execute`.
  unfoldable pub dispatch : Bool → ℕ → St W → Option (ℕ × St W)
  unfolding fetch run_opcode service
  dispatch asserts isr s =
      if isr == no_interrupt
      then run_opcode asserts (decode (fetch s).1.cpu.opcode) (fetch s).1
      else some (service isr s)

  unfoldable pub execute : Bool → St W → Option (ℕ × St W)
  unfolding acknowledge dispatch
  execute asserts s = dispatch asserts (acknowledge s).0 (acknowledge s).1
