-- ===== src/Cpu/State.antt =====
-- The state of `Intel8080` (Cpu/include/Cpu/8080.h) and the effects that its operations are
-- made of. An operation of the class runs on the cpu, the shared bus, and whatever `process_`
-- works on, the type `W`; it returns its result and the new state.
use mach_emu.Base.{ℕ, ◌+◌, ◌*◌, ◌%◌, Bool, true, false, ◌==◌, u16}
use mach_emu.Bits.{Bitset, no_bits, to_ulong, count, is_none}
use mach_emu.Bus.{
  SystemBus, Signal, idle, send_data, receive_data, send_address, send_control, receive_control,
}

-- `registers_` and the rest of the private fields. `pc` and `sp` are `uint16_t`, `opcode` is
-- `uint8_t`.
pub record Intel8080 : Type 0 where
  pub a : Bitset
  pub b : Bitset
  pub c : Bitset
  pub d : Bitset
  pub e : Bitset
  pub h : Bitset
  pub l : Bitset
  pub pc : ℕ
  pub sp : ℕ
  pub status : Bitset
  pub iff : Bool
  pub opcode : ℕ

-- `enum Condition`: the bits of `status_` that are flags.
pub data Condition : Type 0 where
  carry_flag parity_flag aux_carry_flag zero_flag sign_flag : Condition

-- `status_[Condition]`, and the assignment to it.
abbrev pub test_flag : Condition → Bitset → Bool
test_flag carry_flag r = r.bit0
test_flag parity_flag r = r.bit2
test_flag aux_carry_flag r = r.bit4
test_flag zero_flag r = r.bit6
test_flag sign_flag r = r.bit7

abbrev pub assign_flag : Condition → Bool → Bitset → Bitset
assign_flag carry_flag v r = record r { bit0 = v }
assign_flag parity_flag v r = record r { bit2 = v }
assign_flag aux_carry_flag v r = record r { bit4 = v }
assign_flag zero_flag v r = record r { bit6 = v }
assign_flag sign_flag v r = record r { bit7 = v }

-- A `Register&` argument: which member it refers to.
pub data Reg : Type 0 where
  reg_a reg_b reg_c reg_d reg_e reg_h reg_l reg_status : Reg

abbrev pub deref : Reg → Intel8080 → Bitset
deref reg_a cpu = cpu.a
deref reg_b cpu = cpu.b
deref reg_c cpu = cpu.c
deref reg_d cpu = cpu.d
deref reg_e cpu = cpu.e
deref reg_h cpu = cpu.h
deref reg_l cpu = cpu.l
deref reg_status cpu = cpu.status

abbrev pub assign_reg : Reg → Bitset → Intel8080 → Intel8080
assign_reg reg_a v cpu = record cpu { a = v }
assign_reg reg_b v cpu = record cpu { b = v }
assign_reg reg_c v cpu = record cpu { c = v }
assign_reg reg_d v cpu = record cpu { d = v }
assign_reg reg_e v cpu = record cpu { e = v }
assign_reg reg_h v cpu = record cpu { h = v }
assign_reg reg_l v cpu = record cpu { l = v }
assign_reg reg_status v cpu = record cpu { status = v }

-- `Value`, `Uint16`, `Parity`, `Sign` and `Zero`.
abbrev pub value : Bitset → ℕ
value = to_ulong

unfoldable pub uint16 : Bitset → Bitset → ℕ
uint16 hi low = value hi * 256 + value low

unfoldable pub parity : Bitset → Bool
parity r = count r % 2 == 0

unfoldable pub sign : Bitset → Bool
sign r = r.bit7

unfoldable pub zero : Bitset → Bool
zero r = is_none r

-- The bits of 0b00000010, the value of `status_` with every flag clear.
abbrev pub initial_status : Bitset
initial_status = record no_bits { bit1 = true }

-- `Reset`. The opcode of the last fetch is left.
unfoldable pub reset : ℕ → Intel8080 → Intel8080
reset pc cpu = record cpu {
  a = no_bits;
  b = no_bits;
  c = no_bits;
  d = no_bits;
  e = no_bits;
  h = no_bits;
  l = no_bits;
  pc = pc;
  sp = 0;
  status = initial_status;
  iff = false;
}

-- The callback `process_` that the constructor is given.
pub record Process (W : Type 0) : Type 0 where
  pub run : SystemBus → W → SystemBus × W

pub record St (W : Type 0) : Type 0 where
  pub cpu : Intel8080
  pub bus : SystemBus
  pub world : W

abbrev pub M : Type 0 → Type 0 → Type 0
M W A = St W → A × St W

infixl 5 ◌>>=◌ ◌>>◌
abbrev pub ◌>>=◌ : {W A B : Type 0} → M W A → (A → M W B) → M W B
◌>>=◌ m f s = f (m s).0 (m s).1

abbrev pub ◌>>◌ : {W A B : Type 0} → M W A → M W B → M W B
◌>>◌ m k s = k (m s).1

abbrev pub pure : {W A : Type 0} → A → M W A
pure x s = (x, s)

-- A value read from the cpu, and an assignment to it.
abbrev pub gets : {W A : Type 0} → (Intel8080 → A) → M W A
gets f s = (f s.cpu, s)

abbrev pub modify : {W : Type 0} → (Intel8080 → Intel8080) → M W (Unit {0})
modify f s = (tt, record s { cpu = f s.cpu })

abbrev pub assign : {W : Type 0} → Reg → Bitset → M W (Unit {0})
assign r v = modify (assign_reg r v)

abbrev pub set_flag : {W : Type 0} → Condition → Bool → M W (Unit {0})
set_flag f v = modify (λ cpu. record cpu { status = assign_flag f v cpu.status })

-- `++pc_`, whose value is the new one; `pc_++` as a statement is the same.
abbrev pub inc_pc : {W : Type 0} → M W ℕ
inc_pc s = let pc = u16 (s.cpu.pc + 1) in (pc, record s { cpu = record (s.cpu) { pc = pc } })

-- `sp_++`, whose value is the old one.
abbrev pub post_inc_sp : {W : Type 0} → M W ℕ
post_inc_sp s = (s.cpu.sp, record s { cpu = record (s.cpu) { sp = u16 (s.cpu.sp + 1) } })

-- `sp_ += 0xFFFF`, with the new value.
abbrev pub dec_sp : {W : Type 0} → M W ℕ
dec_sp s = let sp = u16 (s.cpu.sp + 0xffff) in (sp, record s { cpu = record (s.cpu) { sp = sp } })

-- `dataBus_->Receive()`.
unfoldable pub receive : {W : Type 0} → M W ℕ
unfolding receive_data
receive s = ((receive_data s.bus).0, record s { bus = (receive_data s.bus).1 })

-- `controlBus_->Receive(signal)`.
unfoldable pub receive_signal : {W : Type 0} → Signal → M W Bool
unfolding receive_control
receive_signal sig s =
    ((receive_control sig s.bus).0, record s { bus = (receive_control sig s.bus).1 })

module _ {W : Type 0} ⦃p : Process W⦄ where
  -- The call of `process_` with the cpu's three buses.
  unfoldable pub process : M W (Unit {0})
  process s = (tt, record s { bus = (p.run s.bus s.world).0; world = (p.run s.bus s.world).1 })

  unfoldable pub read_from_address : Signal → ℕ → M W (Unit {0})
  unfolding process send_control send_address
  read_from_address read_location addr s =
      process (record s { bus = send_address addr (send_control read_location s.bus) })

  -- The parameter `value` is a `uint8_t`.
  unfoldable pub write_to_address : Signal → ℕ → ℕ → M W (Unit {0})
  unfolding process send_control send_address send_data
  write_to_address write_location addr v s =
      process
        (record s { bus = send_data v (send_address addr (send_control write_location s.bus)) })

-- A cpu with nothing pending on its bus.
abbrev pub ready : {W : Type 0} → Intel8080 → W → St W
ready cpu w = record { cpu = cpu; bus = idle; world = w }
