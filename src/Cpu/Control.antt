-- ===== src/Cpu/Control.antt =====
-- The instructions of Cpu/source/8080.cpp that work on the stack and the program counter, and those
-- of the interrupt system: PUSH, POP, JMP, CALL, RET, RST, PCHL, NOP, HLT, EI and DI.
pub mod Stack
pub mod Calls
pub mod Interrupts
use Prim.Native.Nat.{bit_and}
use mach_emu.Base.{
  ℕ, ◌+◌, ◌/◌, ◌%◌, Bool, true, false, ◌||◌, ◌==◌, if◌then◌else◌, Option, none, some, u16,
}
use mach_emu.Bits.{of_ulong, and_bits, or_bits}
use mach_emu.Bus.{memory_read, memory_write}
use mach_emu.Cpu.State.{
  Reg, reg_a, reg_status, deref, value, uint16, Process, St, M, ◌>>=◌, ◌>>◌, pure, gets, modify,
  assign, inc_pc, post_inc_sp, dec_sp, receive, read_from_address, write_to_address,
}
use mach_emu.Cpu.Transfer.{read_operand}

unfoldable pub nop : {W : Type 0} → M W ℕ
nop = do inc_pc; pure 4

-- `assert(0)`: `none` is the abort of a build with assertions; without them it does nothing.
abbrev pub assert_zero : {W : Type 0} → Bool → St W → Option (St W)
assert_zero asserts s = if asserts then none else some s

unfoldable pub hlt : {W : Type 0} → Bool → St W → Option (ℕ × St W)
hlt asserts s = elim (assert_zero asserts s) [
  | none ↦ none
  | some s' ↦ some ((inc_pc >> pure 7) s')
]

unfoldable pub not_implemented : {W : Type 0} → Bool → St W → Option (ℕ × St W)
not_implemented asserts s =
    let opcode = s.cpu.opcode in
    elim (if opcode == 0xed || opcode == 0xfd || opcode == 0xdd
      then some (inc_pc s).1
      else assert_zero asserts s) [ none ↦ none | some s' ↦ some ((inc_pc >> pure 0) s') ]

unfoldable pub pchl : {W : Type 0} → M W ℕ
unfolding uint16
pchl = do modify (λ cpu. record cpu { pc = uint16 cpu.h cpu.l }); pure 5

unfoldable pub di : {W : Type 0} → M W ℕ
di = do modify (λ cpu. record cpu { iff = false }); inc_pc; pure 4

unfoldable pub ei : {W : Type 0} → M W ℕ
ei = do modify (λ cpu. record cpu { iff = true }); inc_pc; pure 4

module _ {W : Type 0} ⦃p : Process W⦄ where
  unfoldable pub push : Reg → Reg → M W ℕ
  push hi low = do
    write_to_address memory_write (← dec_sp) (← gets (λ cpu. value (deref hi cpu)))
    write_to_address memory_write (← dec_sp) (← gets (λ cpu. value (deref low cpu)))
    inc_pc
    pure 11

  unfoldable pub pop : Reg → Reg → M W ℕ
  pop hi low = do
    read_from_address memory_read (← post_inc_sp)
    v ← receive
    assign low (of_ulong v)
    read_from_address memory_read (← post_inc_sp)
    w ← receive
    assign hi (of_ulong w)
    inc_pc
    pure 10

  -- `case 0xF1`: the bits of `status_` that are no flags are put back.
  unfoldable pub pop_psw : M W ℕ
  unfolding pop and_bits or_bits of_ulong
  pop_psw = do
    ticks ← pop reg_a reg_status
    modify (λ cpu. record cpu {
      status = or_bits (and_bits cpu.status (of_ulong 0xd7)) (of_ulong 0x02);
    })
    pure ticks

  unfoldable pub jmp_on_flag : Bool → M W ℕ
  unfolding read_operand
  jmp_on_flag status = do
    addr ← read_operand
    modify (λ cpu. record cpu { pc = if status then addr else u16 (cpu.pc + 1) })
    pure 10

  -- The push of the program counter in `CallOnFlag` and `Rst`.
  unfoldable pub push_pc : M W (Unit {0})
  push_pc = do
    write_to_address memory_write (← dec_sp) (← gets (λ cpu. cpu.pc / 256))
    write_to_address memory_write (← dec_sp) (← gets (λ cpu. cpu.pc % 256))

  unfoldable pub call_on_flag : Bool → M W ℕ
  unfolding read_operand push_pc
  call_on_flag status = do
    addr ← read_operand
    inc_pc
    if status then (do push_pc; modify (λ cpu. record cpu { pc = addr }); pure 17) else pure 11

  -- The taken branch of `RetOnFlag`. `is_ret` is the comparison of the instruction's name with
  -- "RET".
  unfoldable pub ret : Bool → M W ℕ
  unfolding uint16
  ret is_ret = do
    read_from_address memory_read (← post_inc_sp)
    pc_low ← receive
    read_from_address memory_read (← post_inc_sp)
    pc_hi ← receive
    modify (λ cpu. record cpu { pc = uint16 (of_ulong pc_hi) (of_ulong pc_low) })
    pure (if is_ret then 10 else 11)

  unfoldable pub ret_on_flag : Bool → Bool → M W ℕ
  unfolding ret
  ret_on_flag status is_ret = do inc_pc; if status then ret is_ret else pure 5

  -- `Rst(restart)`, of an interrupt: the program counter is pushed as it is.
  unfoldable pub rst_interrupt : ℕ → M W ℕ
  unfolding push_pc
  rst_interrupt restart = do
    let addr = bit_and restart 0x38
    push_pc
    modify (λ cpu. record cpu { pc = addr })
    pure 11

  -- `Rst()`, the instruction: the address of the next one is pushed.
  unfoldable pub rst : M W ℕ
  unfolding push_pc
  rst = do
    addr ← gets (λ cpu. bit_and cpu.opcode 0x38)
    inc_pc
    push_pc
    modify (λ cpu. record cpu { pc = addr })
    pure 11
