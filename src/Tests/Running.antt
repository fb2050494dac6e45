-- ===== src/Tests/Running.antt =====
-- The theorems on the machine as a whole at concrete states.
use mach_emu.Base.{ℕ, ◌≡◌, ◌*◌, inr, refl, false, some, arith}
use mach_emu.Cpu.State.{reset, ready}
use mach_emu.Cpu.Execute.{execute}
use mach_emu.Cpu.Valid.{IsValid}
use mach_emu.Cpu.Valid.Step.{Awaits}
use mach_emu.Cpu.Snapshot.{Document, Format, save, load, load-save}
use mach_emu.Controller.{Controller}
use mach_emu.Machine.Loop.{LoopSt, still_running, iterate, machine_loop}
use mach_emu.Machine.Loop.Safety.{IsSafe, Between, machine_loop-IsSafe}
use mach_emu.Machine.Loop.Service.{Serves, iterate-Serves}
use mach_emu.Machine.Loop.Starved.{IsFilled, machine_loop-IsFilled}
use mach_emu.TestControllers.Memory
use mach_emu.TestControllers.Board.{
  Board, memory_controller, io_controller, board_process, board_devices,
}
use mach_emu.Tests.{board, cpu}

-- The clock of a 2 MHz cpu that never sleeps.
abbrev tick : ℕ → Board → ℕ × Board
tick ticks w = (500 * ticks, w)

abbrev loop : LoopSt Board
loop = record { state = ready cpu board; curr_time = 0; total_ticks = 0; last_ticks = 0 }

pub cpu-IsValid : IsValid cpu
cpu-IsValid = record {
  pc_fits = omega arith;
  sp_fits = omega arith;
  opcode_fits = omega arith;
  one = refl;
  three = refl;
  five = refl;
}

machine_loop-IsSafe_example :
    IsSafe 10 tick io_controller (machine_loop false 10 tick io_controller 1000 loop)
machine_loop-IsSafe_example =
    machine_loop-IsSafe 10 tick io_controller 1000 loop
      (record { valid = cpu-IsValid; between = Between.awaits Awaits.nothing })

iterate-Serves_example :
    Serves 10 tick io_controller
      (execute false loop.state)
      loop
      (iterate false 10 tick io_controller loop)
iterate-Serves_example =
    iterate-Serves 10 tick io_controller loop cpu-IsValid Awaits.nothing (omega arith)
      (record { ordered = omega arith; recent = omega arith })

-- A board whose memory is filled with 0xED.
abbrev filled_board : Board
filled_board = record board { memory = record { memory = λ a. 0xed } }

abbrev filled_loop : LoopSt Board
filled_loop = record loop { state = ready cpu filled_board }

machine_loop-IsFilled_example :
    (t : LoopSt Board) × ((io : Controller Board)
      → machine_loop false 10 tick io 1000 filled_loop ≡ still_running t)
    × (t.total_ticks ≡ 0)
    × (t.last_ticks ≡ 0)
    × IsFilled t.state.world
unfolding board_devices board_process memory_controller Memory.memory_controller Memory.read
machine_loop-IsFilled_example =
    machine_loop-IsFilled 10 tick 1000 filled_loop refl (omega arith) (λ a. refl)
      (λ w filled. filled)

-- A text that is the document itself.
abbrev pub plain : Format Document
plain = record { print = λ d. d; parse = λ d. some d; parse-print = λ d. refl }

load-save_example :
    load plain (save plain cpu) (reset 0 cpu) ≡ inr (record cpu { iff = false; opcode = 0 })
unfolding reset
load-save_example = load-save plain cpu (reset 0 cpu) cpu-IsValid
