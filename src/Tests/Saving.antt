-- ===== src/Tests/Saving.antt =====
-- The theorems on saving and loading the memory, with the board.
use mach_emu.Base.{
  all, ℕ, ◌≡◌, ◌∙◌, ap, refl, false, if◌then◌else◌, none, some, inr, List, [], ◌∷◌, replicate,
  count_up, arith,
}
use mach_emu.Cpu.State.{reset}
use mach_emu.Cpu.Snapshot
use mach_emu.Cpu.Snapshot.{same_bytes}
use mach_emu.Utils.{bin_to_txt}
use mach_emu.Machine.Images.{Layout, Document, save_image, write_state, load_machine_state}
use mach_emu.Machine.Images.Blocks.{peek, image, Same, save_image_lem}
use mach_emu.Machine.Images.Loads.{Loads, load_machine_state-Loads}
use mach_emu.Machine.Images.Restore.{covers}
use mach_emu.Machine.Images.RoundTrip.{
  save_machine_state_lem, load_machine_state-save_machine_state,
}
use mach_emu.TestControllers.Memory.{cleared, fill}
use mach_emu.TestControllers.Board.{Board, memory_controller, board_laws}
use mach_emu.Tests.{board, cpu}
use mach_emu.Tests.Running.{plain, cpu-IsValid}
use mach_emu.Tests.Coding.{coding, coding-IsCoding, pad}

-- The program, and the address that it calls.
abbrev rom : Layout
rom = (0x100, 5) ∷ []

abbrev ram : Layout
ram = (0x205, 3) ∷ (0x206, 3) ∷ []

save_image_lem_example :
    (w : Board) × (save_image memory_controller 65536 rom board
      ≡ some (image memory_controller rom board, w))
    × Same memory_controller w board
unfolding all
save_image_lem_example = save_image_lem board_laws 65536 rom board refl (omega arith)

-- A board whose ram differs.
abbrev changed : Board
changed = memory_controller.write 0x206 7 board

abbrev uuid : List ℕ
uuid = replicate 16 1

abbrev saved : Document Snapshot.Document
saved = record {
  cpu = Snapshot.save plain cpu;
  uuid = pad uuid;
  rom = pad (replicate 16 0);
  encoder = "base64";
  compressor = "none";
  size = 6;
  bytes = pad (replicate 6 0);
}

saved_state :
    write_state plain false "base64" "none" uuid cpu
      (image memory_controller rom board)
      (image memory_controller ram board)
    ≡ inr saved
unfolding replicate image board memory_controller write_state count_up bin_to_txt cleared fill
saved_state = refl

load_machine_state-save_machine_state_example :
    (w : Board) × (load_machine_state plain false memory_controller rom ram uuid saved
        (reset 0 cpu)
        changed
      ≡ (none, record cpu { iff = false; opcode = 0 }, w))
    × ((a : ℕ)
        → peek memory_controller a w ≡ (
            if covers ram a
            then peek memory_controller a board
            else peek memory_controller a changed))
unfolding all replicate same_bytes reset image board memory_controller count_up
load_machine_state-save_machine_state_example =
    let (w, e) =
      save_machine_state_lem plain false coding-IsCoding board_laws 65536 rom ram "base64" "none"
        uuid cpu board refl refl (omega arith) in
    load_machine_state-save_machine_state plain false coding-IsCoding board_laws 65536 rom ram
      "base64" "none" uuid cpu (reset 0 cpu) saved board changed w refl refl (omega arith) refl refl
      refl cpu-IsValid (e ∙ ap (λ d. some (d, w)) saved_state)

load_machine_state-Loads_example :
    Loads plain false memory_controller rom ram uuid saved
      (reset 0 cpu)
      changed
      (load_machine_state plain false memory_controller rom ram uuid saved (reset 0 cpu) changed)
unfolding all
load_machine_state-Loads_example =
    load_machine_state-Loads plain false board_laws rom ram uuid saved (reset 0 cpu) changed refl
      refl
