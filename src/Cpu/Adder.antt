-- ===== src/Cpu/Adder.antt =====
-- The instructions that go through the adder of Cpu/source/8080.cpp: INR, DCR, ADD, ADC, SUB, SBB,
-- CMP and DAA. Where the source overloads a name, `_reg` takes a register and `_mem` an address.
-- A mask of `k` low bits is `% 2 ^ k`, a shift to the right is `/ 2 ^ k`.
pub mod Sums
pub mod Decimal
use mach_emu.Base.{
  ℕ, ◌+◌, ◌-◌, ◌/◌, ◌%◌, ◌^◌, Bool, true, false, not, ◌&&◌, ◌||◌, ◌==◌, ltb, if◌then◌else◌, u8,
}
use mach_emu.Bits.{Bitset, digit, of_ulong}
use mach_emu.Bus.{memory_read, memory_write}
use mach_emu.Cpu.State.{
  Condition, carry_flag, parity_flag, aux_carry_flag, zero_flag, sign_flag, test_flag, Reg, reg_a,
  deref, value, uint16, parity, sign, zero, Process, M, ◌>>=◌, ◌>>◌, pure, gets, assign, set_flag,
  inc_pc, receive, read_from_address, write_to_address,
}

-- `status_[Condition]` as a value.
abbrev pub get_flag : {W : Type 0} → Condition → M W Bool
get_flag f = gets (λ cpu. test_flag f cpu.status)

-- `Add(lhs, rhs, carry, setCarryFlag, _)`.
unfoldable pub add : {W : Type 0} → Bitset → Bitset → ℕ → Bool → M W Bitset
unfolding sign zero parity
add lhs rhs carry set_carry_flag = do
  let x = value lhs
  let y = value rhs
  if set_carry_flag then set_flag carry_flag (ltb 0xff (x + y + carry)) else pure tt
  set_flag aux_carry_flag (ltb 0x0f (x % 16 + y % 16 + carry))
  let r = of_ulong (x + y + carry)
  set_flag zero_flag (zero r)
  set_flag sign_flag (sign r)
  set_flag parity_flag (parity r)
  inc_pc
  pure r

-- `Sub(r, withCarry, _)`. `~Value(r)` is an `int`, and the register takes its low eight bits.
unfoldable pub sub : {W : Type 0} → Bitset → ℕ → M W Bitset
unfolding add digit
sub r with_carry = do
  a ← gets (λ cpu. cpu.a)
  reg ← add a (of_ulong (2 ^ 64 - 1 - value r)) (digit (with_carry == 0)) true
  carry ← get_flag carry_flag
  set_flag carry_flag (not carry)
  pure reg

unfoldable pub inr_reg : {W : Type 0} → Reg → M W ℕ
unfolding add
inr_reg r = do v ← gets (deref r); v' ← add v (of_ulong 0x01) 0 false; assign r v'; pure 5

unfoldable pub dcr_reg : {W : Type 0} → Reg → M W ℕ
unfolding add
dcr_reg r = do v ← gets (deref r); v' ← add v (of_ulong 0xff) 0 false; assign r v'; pure 5

unfoldable pub add_reg : {W : Type 0} → Reg → M W ℕ
unfolding add
add_reg r = do
  a ← gets (λ cpu. cpu.a)
  v ← gets (deref r)
  a' ← add a v 0 true
  assign reg_a a'
  pure 4

unfoldable pub adc_reg : {W : Type 0} → Reg → M W ℕ
unfolding add digit
adc_reg r = do
  a ← gets (λ cpu. cpu.a)
  v ← gets (deref r)
  carry ← get_flag carry_flag
  a' ← add a v (digit carry) true
  assign reg_a a'
  pure 4

unfoldable pub sub_reg : {W : Type 0} → Reg → M W ℕ
unfolding sub
sub_reg r = do v ← gets (deref r); a' ← sub v 0; assign reg_a a'; pure 4

unfoldable pub sbb_reg : {W : Type 0} → Reg → M W ℕ
unfolding sub digit
sbb_reg r = do
  v ← gets (deref r)
  carry ← get_flag carry_flag
  a' ← sub v (digit carry)
  assign reg_a a'
  pure 4

-- The difference is dropped, the flags are kept.
unfoldable pub cmp_reg : {W : Type 0} → Reg → M W ℕ
unfolding sub
cmp_reg r = do v ← gets (deref r); sub v 0; pure 4

-- The last call leaves the carry as it is.
unfoldable pub daa : {W : Type 0} → M W ℕ
unfolding add
daa = do
  a ← gets (λ cpu. cpu.a)
  let high_nibble = value a / 16
  let low_nibble = value a % 16
  aux ← get_flag aux_carry_flag
  let low_adjustment : ℕ = if ltb 0x09 low_nibble || aux then 6 else 0
  carry ← get_flag carry_flag
  adjustment ←
      (if ltb 0x09 high_nibble || carry || (ltb 8 high_nibble && ltb 9 low_nibble)
        then (set_flag carry_flag true >> pure (u8 (low_adjustment + 0x60)))
        else pure low_adjustment)
  a' ← add a (of_ulong adjustment) 0 false
  assign reg_a a'
  pure 4

module _ {W : Type 0} ⦃p : Process W⦄ where
  unfoldable pub inr_mem : M W ℕ
  unfolding add uint16
  inr_mem = do
    addr ← gets (λ cpu. uint16 cpu.h cpu.l)
    read_from_address memory_read addr
    v ← receive
    r ← add (of_ulong v) (of_ulong 0x01) 0 false
    write_to_address memory_write addr (value r)
    pure 10

  unfoldable pub dcr_mem : ℕ → M W ℕ
  unfolding add
  dcr_mem addr = do
    read_from_address memory_read addr
    v ← receive
    r ← add (of_ulong v) (of_ulong 0xff) 0 false
    write_to_address memory_write addr (value r)
    pure 10

  unfoldable pub add_mem : ℕ → M W ℕ
  unfolding add
  add_mem addr = do
    read_from_address memory_read addr
    a ← gets (λ cpu. cpu.a)
    v ← receive
    a' ← add a (of_ulong v) 0 true
    assign reg_a a'
    pure 7

  -- `Adi`, which nothing calls; its argument is not used.
  unfoldable pub adi : M W ℕ
  adi = do
    addr ← inc_pc
    read_from_address memory_read addr
    a ← gets (λ cpu. cpu.a)
    v ← receive
    assign reg_a (of_ulong (value a + v))
    inc_pc
    pure 7

  unfoldable pub adc_mem : ℕ → M W ℕ
  unfolding add digit
  adc_mem addr = do
    read_from_address memory_read addr
    a ← gets (λ cpu. cpu.a)
    v ← receive
    carry ← get_flag carry_flag
    a' ← add a (of_ulong v) (digit carry) true
    assign reg_a a'
    pure 7

  unfoldable pub sub_mem : ℕ → M W ℕ
  unfolding sub
  sub_mem addr = do
    read_from_address memory_read addr
    v ← receive
    a' ← sub (of_ulong v) 0
    assign reg_a a'
    pure 7

  unfoldable pub sbb_mem : ℕ → M W ℕ
  unfolding sub digit
  sbb_mem addr = do
    read_from_address memory_read addr
    v ← receive
    carry ← get_flag carry_flag
    a' ← sub (of_ulong v) (digit carry)
    assign reg_a a'
    pure 7

  unfoldable pub cmp_mem : ℕ → M W ℕ
  unfolding sub
  cmp_mem addr = do read_from_address memory_read addr; v ← receive; sub (of_ulong v) 0; pure 7
