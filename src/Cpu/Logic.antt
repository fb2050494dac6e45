-- ===== src/Cpu/Logic.antt =====
-- The logical instructions of Cpu/source/8080.cpp: ANA, XRA, ORA, the rotates, CMA, STC and CMC.
pub mod Rotates
pub mod Flags
use mach_emu.Base.{ℕ, Bool, true, false, not}
use mach_emu.Bits.{
  Bitset, of_ulong, no_bits, and_bits, or_bits, xor_bits, flip, shift_left, shift_right, is_none,
}
use mach_emu.Bus.{memory_read}
use mach_emu.Cpu.State.{
  carry_flag, parity_flag, aux_carry_flag, zero_flag, sign_flag, Reg, reg_a, deref, parity, sign,
  zero, Process, M, ◌>>=◌, ◌>>◌, pure, gets, modify, assign, set_flag, inc_pc, receive,
  read_from_address,
}
use mach_emu.Cpu.Adder.{get_flag}

-- `Ana(r)`. The mask of the auxiliary carry is `Register(0x08)`.
unfoldable pub ana : {W : Type 0} → Bitset → M W (Unit {0})
unfolding sign zero parity and_bits or_bits is_none
ana r = do
  a ← gets (λ cpu. cpu.a)
  set_flag aux_carry_flag (not (is_none (and_bits (or_bits a r) (record no_bits { bit3 = true }))))
  assign reg_a (and_bits a r)
  a' ← gets (λ cpu. cpu.a)
  set_flag carry_flag false
  set_flag zero_flag (zero a')
  set_flag sign_flag (sign a')
  set_flag parity_flag (parity a')
  inc_pc
  pure tt

unfoldable pub ana_reg : {W : Type 0} → Reg → M W ℕ
unfolding ana
ana_reg r = do v ← gets (deref r); ana v; pure 4

unfoldable pub xra : {W : Type 0} → Bitset → M W (Unit {0})
unfolding sign zero parity xor_bits
xra r = do
  a ← gets (λ cpu. cpu.a)
  assign reg_a (xor_bits a r)
  a' ← gets (λ cpu. cpu.a)
  set_flag aux_carry_flag false
  set_flag carry_flag false
  set_flag zero_flag (zero a')
  set_flag sign_flag (sign a')
  set_flag parity_flag (parity a')
  inc_pc
  pure tt

unfoldable pub xra_reg : {W : Type 0} → Reg → M W ℕ
unfolding xra
xra_reg r = do v ← gets (deref r); xra v; pure 4

unfoldable pub ora : {W : Type 0} → Bitset → M W (Unit {0})
unfolding sign zero parity or_bits
ora r = do
  a ← gets (λ cpu. cpu.a)
  assign reg_a (or_bits a r)
  a' ← gets (λ cpu. cpu.a)
  set_flag aux_carry_flag false
  set_flag carry_flag false
  set_flag zero_flag (zero a')
  set_flag sign_flag (sign a')
  set_flag parity_flag (parity a')
  inc_pc
  pure tt

unfoldable pub ora_reg : {W : Type 0} → Reg → M W ℕ
unfolding ora
ora_reg r = do v ← gets (deref r); ora v; pure 4

module _ {W : Type 0} ⦃p : Process W⦄ where
  unfoldable pub ana_mem : ℕ → M W ℕ
  unfolding ana
  ana_mem addr = do read_from_address memory_read addr; v ← receive; ana (of_ulong v); pure 7

  unfoldable pub xra_mem : ℕ → M W ℕ
  unfolding xra
  xra_mem addr = do read_from_address memory_read addr; v ← receive; xra (of_ulong v); pure 7

  unfoldable pub ora_mem : ℕ → M W ℕ
  unfolding ora
  ora_mem addr = do read_from_address memory_read addr; v ← receive; ora (of_ulong v); pure 7

-- `a_[0] = v` and `a_[7] = v`.
abbrev pub assign_bit0 : {W : Type 0} → Bool → M W (Unit {0})
assign_bit0 v = modify (λ cpu. record cpu { a = record (cpu.a) { bit0 = v } })

abbrev pub assign_bit7 : {W : Type 0} → Bool → M W (Unit {0})
assign_bit7 v = modify (λ cpu. record cpu { a = record (cpu.a) { bit7 = v } })

unfoldable pub rlc : {W : Type 0} → M W ℕ
unfolding shift_left
rlc = do
  set_flag carry_flag (← gets (λ cpu. cpu.a.bit7))
  modify (λ cpu. record cpu { a = shift_left cpu.a })
  assign_bit0 (← get_flag carry_flag)
  inc_pc
  pure 4

unfoldable pub rrc : {W : Type 0} → M W ℕ
unfolding shift_right
rrc = do
  set_flag carry_flag (← gets (λ cpu. cpu.a.bit0))
  modify (λ cpu. record cpu { a = shift_right cpu.a })
  assign_bit7 (← get_flag carry_flag)
  inc_pc
  pure 4

unfoldable pub ral : {W : Type 0} → M W ℕ
unfolding shift_left
ral = do
  tmp ← get_flag carry_flag
  set_flag carry_flag (← gets (λ cpu. cpu.a.bit7))
  modify (λ cpu. record cpu { a = shift_left cpu.a })
  assign_bit0 tmp
  inc_pc
  pure 4

unfoldable pub rar : {W : Type 0} → M W ℕ
unfolding shift_right
rar = do
  tmp ← get_flag carry_flag
  set_flag carry_flag (← gets (λ cpu. cpu.a.bit0))
  modify (λ cpu. record cpu { a = shift_right cpu.a })
  assign_bit7 tmp
  inc_pc
  pure 4

unfoldable pub cma : {W : Type 0} → M W ℕ
unfolding flip
cma = do modify (λ cpu. record cpu { a = flip cpu.a }); inc_pc; pure 4

unfoldable pub stc : {W : Type 0} → M W ℕ
stc = do set_flag carry_flag true; inc_pc; pure 4

unfoldable pub cmc : {W : Type 0} → M W ℕ
cmc = do carry ← get_flag carry_flag; set_flag carry_flag (not carry); inc_pc; pure 4
