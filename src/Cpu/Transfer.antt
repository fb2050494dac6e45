-- ===== src/Cpu/Transfer.antt =====
-- The instructions of Cpu/source/8080.cpp that move data between registers, register pairs, memory
-- and ports, and the 16-bit arithmetic: MVI, LXI, SHLD, STAX, INX, DAD, LHLD, LDAX, DCX, STA, LDA,
-- MOV, XTHL, XCHG, SPHL, IN and OUT.
pub mod Pairs
use mach_emu.Base.{ℕ, ◌+◌, ◌/◌, ◌%◌, ltb, u16}
use mach_emu.Bits.{Bitset, of_ulong}
use mach_emu.Bus.{memory_read, memory_write, io_read, io_write}
use mach_emu.Cpu.State.{
  carry_flag, Reg, reg_a, reg_h, reg_l, deref, value, uint16, Process, M, ◌>>=◌, ◌>>◌, pure, gets,
  modify, assign, set_flag, inc_pc, dec_sp, receive, read_from_address, write_to_address,
}

unfoldable pub inx : {W : Type 0} → Reg → Reg → M W ℕ
unfolding uint16
inx hi low = do
  x ← gets (deref hi)
  y ← gets (deref low)
  let val = u16 (uint16 x y + 1)
  assign hi (of_ulong (val / 256 % 256))
  assign low (of_ulong (val % 256))
  inc_pc
  pure 5

unfoldable pub inx_sp : {W : Type 0} → M W ℕ
inx_sp = do modify (λ cpu. record cpu { sp = u16 (cpu.sp + 1) }); inc_pc; pure 5

unfoldable pub dcx : {W : Type 0} → Reg → Reg → M W ℕ
unfolding uint16
dcx hi low = do
  x ← gets (deref hi)
  y ← gets (deref low)
  let val = u16 (uint16 x y + 0xffff)
  assign hi (of_ulong (val / 256 % 256))
  assign low (of_ulong (val % 256))
  inc_pc
  pure 5

unfoldable pub dcx_sp : {W : Type 0} → M W ℕ
dcx_sp = do dec_sp; inc_pc; pure 5

-- `Dad(hi, low)`: `val` is a `uint32_t`, which holds the sum of two 16-bit numbers.
unfoldable pub dad : {W : Type 0} → Bitset → Bitset → M W ℕ
unfolding uint16
dad hi low = do
  hl ← gets (λ cpu. uint16 cpu.h cpu.l)
  let val = uint16 hi low + hl
  assign reg_h (of_ulong (val / 256 % 256))
  assign reg_l (of_ulong (val % 256))
  set_flag carry_flag (ltb 0xffff val)
  inc_pc
  pure 10

unfoldable pub dad_sp : {W : Type 0} → M W ℕ
unfolding dad
dad_sp = do sp ← gets (λ cpu. cpu.sp); dad (of_ulong (sp / 256 % 256)) (of_ulong (sp % 256))

-- `Mov(lhs, rhs)`.
unfoldable pub mov : {W : Type 0} → Reg → Reg → M W ℕ
mov lhs rhs = do v ← gets (deref rhs); assign lhs v; inc_pc; pure 5

unfoldable pub xchg : {W : Type 0} → M W ℕ
xchg = do
  modify (λ cpu. record cpu { h = cpu.d; d = cpu.h })
  modify (λ cpu. record cpu { l = cpu.e; e = cpu.l })
  inc_pc
  pure 4

unfoldable pub sphl : {W : Type 0} → M W ℕ
unfolding uint16
sphl = do modify (λ cpu. record cpu { sp = uint16 cpu.h cpu.l }); inc_pc; pure 5

module _ {W : Type 0} ⦃p : Process W⦄ where
  unfoldable pub mvi_reg : Reg → M W ℕ
  mvi_reg reg = do
    read_from_address memory_read (← inc_pc)
    v ← receive
    assign reg (of_ulong v)
    inc_pc
    pure 7

  unfoldable pub mvi_mem : M W ℕ
  unfolding uint16
  mvi_mem = do
    read_from_address memory_read (← inc_pc)
    v ← receive
    addr ← gets (λ cpu. uint16 cpu.h cpu.l)
    write_to_address memory_write addr v
    inc_pc
    pure 10

  unfoldable pub lxi : Reg → Reg → M W ℕ
  lxi reg_hi reg_low = do
    read_from_address memory_read (← inc_pc)
    low ← receive
    assign reg_low (of_ulong low)
    read_from_address memory_read (← inc_pc)
    hi ← receive
    assign reg_hi (of_ulong hi)
    inc_pc
    pure 10

  -- The two bytes after the opcode, low byte first: the opening lines of LXI SP, SHLD, LHLD, STA,
  -- LDA, `JmpOnFlag` and `CallOnFlag`. It leaves `pc_` at the second byte.
  unfoldable pub read_operand : M W ℕ
  unfolding uint16
  read_operand = do
    read_from_address memory_read (← inc_pc)
    low ← receive
    read_from_address memory_read (← inc_pc)
    hi ← receive
    pure (uint16 (of_ulong hi) (of_ulong low))

  unfoldable pub lxi_sp : M W ℕ
  unfolding read_operand
  lxi_sp = do sp ← read_operand; modify (λ cpu. record cpu { sp = sp }); inc_pc; pure 10

  unfoldable pub shld : M W ℕ
  unfolding read_operand
  shld = do
    addr ← read_operand
    write_to_address memory_write addr (← gets (λ cpu. value cpu.l))
    write_to_address memory_write (u16 (addr + 1)) (← gets (λ cpu. value cpu.h))
    inc_pc
    pure 16

  unfoldable pub lhld : M W ℕ
  unfolding read_operand
  lhld = do
    addr ← read_operand
    read_from_address memory_read addr
    low ← receive
    assign reg_l (of_ulong low)
    read_from_address memory_read (u16 (addr + 1))
    hi ← receive
    assign reg_h (of_ulong hi)
    inc_pc
    pure 16

  unfoldable pub sta : M W ℕ
  unfolding read_operand
  sta = do
    addr ← read_operand
    write_to_address memory_write addr (← gets (λ cpu. value cpu.a))
    inc_pc
    pure 13

  unfoldable pub lda : M W ℕ
  unfolding read_operand
  lda = do
    addr ← read_operand
    read_from_address memory_read addr
    v ← receive
    assign reg_a (of_ulong v)
    inc_pc
    pure 13

  unfoldable pub stax : Reg → Reg → M W ℕ
  unfolding uint16
  stax hi low = do
    addr ← gets (λ cpu. uint16 (deref hi cpu) (deref low cpu))
    write_to_address memory_write addr (← gets (λ cpu. value cpu.a))
    inc_pc
    pure 7

  unfoldable pub ldax : Reg → Reg → M W ℕ
  unfolding uint16
  ldax hi low = do
    addr ← gets (λ cpu. uint16 (deref hi cpu) (deref low cpu))
    read_from_address memory_read addr
    v ← receive
    assign reg_a (of_ulong v)
    inc_pc
    pure 7

  -- `Mov(lhs)`, from memory, and `Mov(value)`, to memory.
  unfoldable pub mov_from_mem : Reg → M W ℕ
  unfolding uint16
  mov_from_mem lhs = do
    addr ← gets (λ cpu. uint16 cpu.h cpu.l)
    read_from_address memory_read addr
    v ← receive
    assign lhs (of_ulong v)
    inc_pc
    pure 7

  unfoldable pub mov_to_mem : ℕ → M W ℕ
  unfolding uint16
  mov_to_mem v = do
    addr ← gets (λ cpu. uint16 cpu.h cpu.l)
    write_to_address memory_write addr v
    inc_pc
    pure 7

  unfoldable pub xthl : M W ℕ
  xthl = do
    read_from_address memory_read (← gets (λ cpu. cpu.sp))
    spl ← receive
    read_from_address memory_read (← gets (λ cpu. u16 (cpu.sp + 1)))
    sph ← receive
    l ← gets (λ cpu. value cpu.l)
    h ← gets (λ cpu. value cpu.h)
    assign reg_l (of_ulong spl)
    assign reg_h (of_ulong sph)
    write_to_address memory_write (← gets (λ cpu. cpu.sp)) l
    write_to_address memory_write (← gets (λ cpu. u16 (cpu.sp + 1))) h
    inc_pc
    pure 18

  unfoldable pub out : M W ℕ
  out = do
    read_from_address memory_read (← inc_pc)
    port ← receive
    write_to_address io_write port (← gets (λ cpu. value cpu.a))
    inc_pc
    pure 10

  -- `In`.
  unfoldable pub input : M W ℕ
  input = do
    read_from_address memory_read (← inc_pc)
    port ← receive
    read_from_address io_read port
    v ← receive
    assign reg_a (of_ulong v)
    inc_pc
    pure 10
