-- ===== src/Cpu/Valid/Aborts.antt =====
-- When a build with assertions aborts in `Execute`.
use mach_emu.Base.{
  ℕ, ◌<◌, ◌≡◌, ◌↔◌, refl, Bool, true, false, not, ◌||◌, ◌==◌, Option, none, some, arith,
}
use mach_emu.Base.Table.{table, row}
use mach_emu.Cpu.State.{Intel8080, Process, St, ready}
use mach_emu.Cpu.Decode.{Instruction, total, hlt, not_implemented}
use mach_emu.Cpu.Decode.Switch.{decode}
use mach_emu.Cpu.Control
use mach_emu.Cpu.Execute.{exec_instruction, run_opcode, execute}
use mach_emu.Cpu.Protocol.{Devices}
use mach_emu.Cpu.Valid.Step.{fetched, dispatch-no_interrupt, acknowledge-idle}

-- HLT and the seven missing opcodes below 0x40, 0xCB and 0xD9. The missing 0xDD, 0xED and 0xFD
-- are skipped.
abbrev pub is_fatal : ℕ → Bool
is_fatal opcode =
    opcode == 0x76
    || opcode == 0x08
    || opcode == 0x10
    || opcode == 0x18
    || opcode == 0x20
    || opcode == 0x28
    || opcode == 0x30
    || opcode == 0x38
    || opcode == 0xcb
    || opcode == 0xd9

abbrev asserts_on : Option Instruction → ℕ → Bool
asserts_on none opcode = true
asserts_on (some hlt) opcode = true
asserts_on (some not_implemented) opcode = not (opcode == 0xed || opcode == 0xfd || opcode == 0xdd)
asserts_on (some (total i)) opcode = false

same : Bool → Bool → Bool
same true b = b
same false b = not b

same-eq : (a b : Bool) → same a b ≡ true → a ≡ b
unfolding same
same-eq a b h = ground arith

fatal_table :
    table (λ opcode. same (asserts_on (decode opcode) opcode) (is_fatal opcode)) 256 ≡ true
unfolding table same decode
fatal_table = refl

asserts_on-is_fatal :
    (opcode : ℕ) → opcode < 256 → asserts_on (decode opcode) opcode ≡ is_fatal opcode
asserts_on-is_fatal opcode h = same-eq _ _ (row _ 256 opcode h fatal_table)

module _ {W : Type 0} ⦃p : Process W⦄ (s : St W) where
  run_opcode-none :
      (i : Option Instruction) → (run_opcode true i s ≡ none) ↔ (asserts_on i s.cpu.opcode ≡ true)
  unfolding run_opcode exec_instruction Control.hlt Control.not_implemented
  run_opcode-none none = (λ _. refl, λ _. refl)
  run_opcode-none (some hlt) = (λ _. refl, λ _. refl)
  run_opcode-none (some not_implemented) = ground arith
  run_opcode-none (some (total i)) = (λ e. cc, λ e. cc)

module _ {W : Type 0} ⦃p : Process W⦄ ⦃dev : Devices W⦄ (cpu : Intel8080) (w : W) where
  -- With assertions, `Execute` without an interrupt aborts exactly when the byte at the program
  -- counter is the opcode of HLT or one of the missing opcodes 0x08 to 0x38, 0xCB and 0xD9.
  pub execute-none_iff : (execute true (ready cpu w) ≡ none) ↔ (is_fatal (dev.peek w cpu.pc) ≡ true)
  unfolding execute
  execute-none_iff =
      rw
        (
          acknowledge-idle cpu w,
          dispatch-no_interrupt cpu w true,
          ← asserts_on-is_fatal _ (dev.peek-lt w cpu.pc),
        )
        (run_opcode-none (ready (fetched cpu w) (dev.loaded cpu.pc w)) _)
