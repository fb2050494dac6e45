-- ===== src/Cpu/Decode/Table.antt =====
-- `Execute` of Cpu/source/8080.cpp as it is compiled with ENABLE_OPCODE_TABLE: the operation is taken
-- from a table.
pub mod Low
pub mod High
use mach_emu.Base.{ℕ, Bool, ◌≡◌, refl, ap, ◌++◌, ◌==◌, if◌then◌else◌, Option, some, List, get_elem?}
use mach_emu.Controller.{no_interrupt}
use mach_emu.Cpu.State.{Process, St}
use mach_emu.Cpu.Decode.{Instruction}
use mach_emu.Cpu.Decode.Switch.{decode}
use mach_emu.Cpu.Decode.Table.Low.{opcodes0, opcodes1}
use mach_emu.Cpu.Decode.Table.High.{opcodes2, opcodes3}
use mach_emu.Cpu.Execute.{fetch, acknowledge, run_opcode, service, dispatch, execute}

-- `opcodeTable_`.
unfoldable pub opcode_table : List Instruction
opcode_table = opcodes0 ++ (opcodes1 ++ (opcodes2 ++ opcodes3))

module _ {W : Type 0} ⦃p : Process W⦄ where
  -- `opcodeTable_[opcode_]()` in place of the `switch`.
  unfoldable pub dispatch_table : Bool → ℕ → St W → Option (ℕ × St W)
  unfolding opcode_table fetch run_opcode service
  dispatch_table asserts isr s =
      if isr == no_interrupt
      then run_opcode asserts (get_elem? opcode_table (fetch s).1.cpu.opcode) (fetch s).1
      else some (service isr s)

  unfoldable pub execute_table : Bool → St W → Option (ℕ × St W)
  unfolding acknowledge dispatch_table
  execute_table asserts s = dispatch_table asserts (acknowledge s).0 (acknowledge s).1

decode-opcode_table : (opcode : ℕ) → get_elem? opcode_table opcode ≡ decode opcode
unfolding opcode_table decode
decode-opcode_table opcode = refl

module _ {W : Type 0} ⦃p : Process W⦄ where
  -- With the table Execute does what it does with the `switch`, from every state, in a build with
  -- assertions and in one without.
  pub execute_table-execute :
      (asserts : Bool) (s : St W) → execute_table asserts s ≡ execute asserts s
  unfolding execute_table dispatch_table execute dispatch
  execute_table-execute asserts s =
      let r = acknowledge s in
      ap
        (λ i.
          if r.0 == no_interrupt
          then run_opcode asserts i (fetch r.1).1
          else some (service r.0 r.1))
        (decode-opcode_table (fetch r.1).1.cpu.opcode)
