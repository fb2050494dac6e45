-- ===== src/Cpu/Valid/Step.antt =====
-- `Execute` on any opcode and any pending interrupt.
use Prim.Native.Nat.{bit_or}
use mach_emu.Base.{
  ℕ, ◌*◌, ◌≤◌, ◌<◌, ◌≡◌, refl, Bool, true, false, ◌++◌, Option, none, some, all, get_elem?-all, u8,
  arith, Bool-cases, inl, inr, ==_false,
}
use mach_emu.Bits.{no_bits}
use mach_emu.Bus.{SystemBus, interrupt, set_lane, idle}
use mach_emu.Cpu.State.{Intel8080, Process, St, ready, receive, receive_signal}
use mach_emu.Cpu.Decode.{Instruction, total, hlt, not_implemented}
use mach_emu.Cpu.Decode.Low.{page0, page1}
use mach_emu.Cpu.Decode.High.{page2, page3}
use mach_emu.Cpu.Decode.Switch.{decode}
use mach_emu.Cpu.Control
use mach_emu.Cpu.Execute.{exec_instruction, acknowledge, run_opcode, dispatch, execute}
use mach_emu.Controller.{no_interrupt}
use mach_emu.Cpu.Protocol.{Devices, read_memory}
use mach_emu.Cpu.Valid.{IsValid, next_pc-IsValid}
use mach_emu.Cpu.Valid.Memory.{rst_interrupt-Completes}
use mach_emu.Cpu.Valid.Execution.{is_safe_instruction, exec-Completes}

-- The bus with the machine's interrupt on it.
unfoldable abbrev pub pending : ℕ → SystemBus
unfolding set_lane
pending isr = record {
  address_bus = 0;
  data_bus = isr;
  control_bus = set_lane interrupt true no_bits;
}

-- What the machine leaves on the bus for the cpu: nothing, or an interrupt.
pub data Awaits : SystemBus → Type 0 where
  nothing : Awaits idle
  request : (isr : ℕ) → isr < 256 → Awaits (pending isr)

-- The call returns, on an idle bus, with a valid cpu, in the ticks of one instruction.
abbrev pub Runs : {W : Type 0} → Option (ℕ × St W) → Type 0
Runs none = ⊥
Runs (some (ticks, s)) = (s.bus ≡ idle) × IsValid s.cpu × (ticks ≤ 18)

pages_safe : all is_safe_instruction (page0 ++ (page1 ++ (page2 ++ page3))) ≡ true
unfolding all
pages_safe = refl

-- Every byte has a case, and none assigns to the status register but POP PSW.
pub decode_total :
    (opcode : ℕ)
    → opcode < 256
    → (i : Instruction) × (decode opcode ≡ some i) × (is_safe_instruction i ≡ true)
unfolding decode
decode_total opcode h = get_elem?-all is_safe_instruction _ opcode pages_safe (omega arith)

module _ {W : Type 0} ⦃p : Process W⦄ ⦃dev : Devices W⦄ (cpu : Intel8080) (w : W)
    (h : IsValid cpu) where
  exec_instruction-Runs :
      (i : Instruction)
      → is_safe_instruction i ≡ true
      → Runs (exec_instruction false i (ready cpu w))
  unfolding exec_instruction Control.hlt Control.not_implemented
  exec_instruction-Runs hlt s = (refl, next_pc-IsValid cpu h, omega arith)
  exec_instruction-Runs not_implemented s = ground arith
  exec_instruction-Runs (total i) s =
      let (bus, valid, low, high) = exec-Completes cpu w h i s in (bus, valid, high)

  run_opcode-Runs :
      (opcode : ℕ) → opcode < 256 → Runs (run_opcode false (decode opcode) (ready cpu w))
  unfolding run_opcode
  run_opcode-Runs opcode small =
      let (i, e, s) = decode_total opcode small in rw e (exec_instruction-Runs i s)

-- The opcode that the acknowledgement of `isr` makes up.
abbrev pub restart_code : ℕ → ℕ
restart_code isr = u8 (bit_or 0xc7 (u8 isr * 8))

-- `dispatch` without an interrupt fetches the byte at the program counter.
module _ {W : Type 0} ⦃p : Process W⦄ ⦃dev : Devices W⦄ (cpu : Intel8080) (w : W) where
  abbrev pub fetched : Intel8080
  fetched = record cpu { opcode = dev.peek w cpu.pc }

  pub dispatch-no_interrupt :
      (asserts : Bool)
      → dispatch asserts no_interrupt (ready cpu w)
        ≡ run_opcode asserts (decode (dev.peek w cpu.pc)) (ready fetched (dev.loaded cpu.pc w))
  unfolding dispatch receive
  dispatch-no_interrupt asserts = rw read_memory

  pub acknowledge-idle : acknowledge (ready cpu w) ≡ (no_interrupt, ready cpu w)
  unfolding acknowledge receive_signal receive
  acknowledge-idle = refl

  pub acknowledge-masked :
      (isr : ℕ)
      → cpu.iff ≡ false
      → acknowledge (record { cpu = cpu; bus = pending isr; world = w })
        ≡ (no_interrupt, ready cpu w)
  unfolding acknowledge receive_signal receive
  acknowledge-masked isr masked = rw masked

  pub acknowledge-enabled :
      (isr : ℕ)
      → cpu.iff ≡ true
      → acknowledge (record { cpu = cpu; bus = pending isr; world = w })
        ≡ (isr, ready (record cpu { iff = false }) w)
  unfolding acknowledge receive_signal receive
  acknowledge-enabled isr enabled = rw enabled

  pub dispatch-interrupt :
      (asserts : Bool) (isr : ℕ)
      → isr < 256
      → dispatch asserts isr (ready cpu w)
        ≡ some (
            Control.rst_interrupt
              (restart_code isr)
              (ready (record cpu { opcode = restart_code isr }) w))
  unfolding dispatch
  dispatch-interrupt asserts isr small = rw (==_false isr no_interrupt (omega arith))

module _ {W : Type 0} ⦃p : Process W⦄ ⦃dev : Devices W⦄ (cpu : Intel8080) (w : W)
    (h : IsValid cpu) where
  dispatch-Runs : Runs (dispatch false no_interrupt (ready cpu w))
  dispatch-Runs = rw (dispatch-no_interrupt cpu w false) (
      run_opcode-Runs (fetched cpu w) (dev.loaded cpu.pc w) (ground (arith, dev.peek-lt w cpu.pc)) _
        (dev.peek-lt w cpu.pc))

  dispatch_interrupt-Runs : (isr : ℕ) → isr < 256 → Runs (dispatch false isr (ready cpu w))
  dispatch_interrupt-Runs isr small =
      let (bus, valid, low, high) =
        rst_interrupt-Completes (record cpu { opcode = restart_code isr }) w (ground arith)
          (restart_code isr) (omega arith) in
      rw (dispatch-interrupt cpu w false isr small) (bus, valid, high)

module _ {W : Type 0} ⦃p : Process W⦄ ⦃dev : Devices W⦄ (cpu : Intel8080) (w : W)
    (h : IsValid cpu) where
  execute-pending-Runs :
      (isr : ℕ)
      → isr < 256
      → Runs (execute false (record { cpu = cpu; bus = pending isr; world = w }))
  unfolding execute
  execute-pending-Runs isr small = elim (Bool-cases cpu.iff) [
    | inl on ↦
        rw (acknowledge-enabled cpu w isr on)
          (dispatch_interrupt-Runs (record cpu { iff = false }) w (ground arith) isr small)
    | inr off ↦ rw (acknowledge-masked cpu w isr off) (dispatch-Runs cpu w h)
  ]

  -- In a build without assertions, one call of `Execute` on a valid cpu always returns: it leaves
  -- the bus idle and the cpu valid, and takes at most 18 ticks. This holds of every opcode in
  -- memory, and of every byte that a pending interrupt puts on the data bus.
  pub execute-Runs :
      {bus : SystemBus}
      → Awaits bus
      → Runs (execute false (record { cpu = cpu; bus = bus; world = w }))
  execute-Runs nothing = unfold execute in rw (acknowledge-idle cpu w) (dispatch-Runs cpu w h)
  execute-Runs (request isr small) = execute-pending-Runs isr small
