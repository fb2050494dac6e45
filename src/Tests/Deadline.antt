-- ===== src/Tests/Deadline.antt =====
-- The theorem on a `Run` that returns in time, with an io controller that quits after five
-- nanoseconds.
use mach_emu.Base.{ℕ, ◌≤◌, ◌≡◌, refl, true, false, leb, if◌then◌else◌, some, inr, all, arith}
use mach_emu.Base.Int.{negsuc}
use mach_emu.Controller.{Controller, isr_quit, no_interrupt}
use mach_emu.Cpu.Snapshot
use mach_emu.CpuClock.{no_error}
use mach_emu.Machine.Handlers
use mach_emu.Machine.Settings.{set_clock_resolution}
use mach_emu.Machine.Run.Punctual.{IsPunctual}
use mach_emu.Machine.Lifecycle.{Whole, callback_policies, reset_machine}
use mach_emu.Machine.Lifecycle.Runs.{run}
use mach_emu.Machine.Lifecycle.Progress.{IsReady, launched_here}
use mach_emu.Machine.Lifecycle.Deadline.{ReturnsBy, run-ReturnsBy}
use mach_emu.Options
use mach_emu.Options.Invariant.{calls}
use mach_emu.TestControllers.Board.{Board, memory_controller, io_controller, board_laws}
use mach_emu.Tests.Coding.{coding}
use mach_emu.Tests.Lifecycle.{host, env, whole, settings, settings_read}
use mach_emu.Tests.Settings.{json, no_files}
use mach_emu.Tests.Timing.{counting, counting-IsMoving}
use mach_emu.Tests.Values.{Value}

-- The ports are those of the board.
abbrev punctual_io : Controller Board
punctual_io = record io_controller {
  service_interrupts = λ time cycles w. if leb 5 time then (isr_quit, w) else (no_interrupt, w);
}

abbrev timed : Whole Value Board ℕ Snapshot.Document
timed = record whole { io_controller = some punctual_io }

timed-IsReady :
    IsReady counting-IsMoving env memory_controller punctual_io 70000
      (launched_here 0x100 timed settings)
unfolding calls callback_policies all reset_machine Options.set_options Handlers.get_load
    Options.rom Options.ram
timed-IsReady = record {
  release = refl;
  lawful = board_laws;
  memory_set = refl;
  io_set = refl;
  async = (false, false);
  policies_read = refl;
  rom_fits = refl;
  ram_fits = refl;
  sound = λ w. tt;
  enough_rounds = omega arith;
}

quits_late :
    (time cycles : ℕ) (w : Board)
    → 5 ≤ time
    → (punctual_io.service_interrupts time cycles w).0 ≡ isr_quit
quits_late time cycles w late = let on : leb 5 time ≡ true = ground arith in rw on refl

io-IsPunctual : IsPunctual counting punctual_io (negsuc 0) 5 1
io-IsPunctual = record {
  always_due = refl;
  next_reading = λ h. omega arith;
  quits = λ time cycles w late soon. quits_late time cycles w late;
  fits = omega arith;
}

timed_read :
    set_clock_resolution true no_files env.print_number env.isr_ticks
      (negsuc 0)
      (reset_machine 0x100 timed).settings
    ≡ inr (no_error, settings)
unfolding reset_machine
timed_read = settings_read

run-ReturnsBy_example : ReturnsBy 6 (run env 100 70000 0x100 timed)
unfolding calls Options.clock_resolution Options.set_options Options.run_async
run-ReturnsBy_example =
    run-ReturnsBy counting-IsMoving env memory_controller punctual_io 70000 5 1 100 0x100 timed
      (negsuc 0) (no_error, settings) refl refl (omega arith) (omega arith) refl timed_read refl
      timed-IsReady (omega arith) (omega arith) refl io-IsPunctual (omega arith)
