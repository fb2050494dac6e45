-- ===== src/Tests/Lifecycle.antt =====
-- The theorems on a whole machine with the test controllers.
use mach_emu.Machine.Lifecycle.{throws, returns, Call}
use mach_emu.Machine.Lifecycle.Waiting.{launched_there, wait_for_completion-run}
use mach_emu.Base.{Bool}
use mach_emu.Base.{
  ℕ, ◌≡◌, refl, true, false, Option, none, some, inr, [], ◌∷◌, all, replicate, arith,
}
use mach_emu.Base.Int.{pos, negsuc}
use mach_emu.Cpu.State.{ready}
use mach_emu.Cpu.Snapshot
use mach_emu.CpuClock
use mach_emu.CpuClock.Platform.{Host}
use mach_emu.Machine.Controllers.Requests.{machine_process, machine_devices}
use mach_emu.Machine.Handlers.{Session, not_valid, launched}
use mach_emu.Machine.Loop.Safety.{Between}
use mach_emu.Cpu.Valid.Step.{Awaits}
use mach_emu.Cpu.State.{Process}
use mach_emu.Cpu.Protocol.{Devices}
use mach_emu.Machine.Handlers
use mach_emu.CpuClock.{no_error}
use mach_emu.Machine.Settings.{Settings, set_clock_resolution}
use mach_emu.Machine.Run.{RunSt, run_loop}
use mach_emu.Machine.Run.Progress.{Progresses, run_loop-Progresses}
use mach_emu.Machine.Lifecycle.{Environment, Whole, reset_machine, callback_policies}
use mach_emu.Machine.Lifecycle.Runs.{run, wait_for_completion, loop_start}
use mach_emu.Machine.Lifecycle.Completing.{Settles, run-Settles}
use mach_emu.Machine.Lifecycle.Progress.{IsReady, Completes, launched_here, run-Completes}
use mach_emu.Options
use mach_emu.Options.{codes, default_opts}
use mach_emu.Options.Invariant.{calls}
use mach_emu.TestControllers.Board.{Board, memory_controller, io_controller, board_laws}
use mach_emu.Tests.{board, cpu}
use mach_emu.Tests.Coding.{coding}
use mach_emu.Tests.Running.{plain, cpu-IsValid}
use mach_emu.Tests.Settings.{json, no_files, with_cpu, made}
use mach_emu.Tests.Timing.{counting, counting-IsMoving}
use mach_emu.Tests.Values.{Value}

instance abbrev pub host : Host ℕ
host = counting

abbrev pub env : Environment Value Board Snapshot.Document
env = record {
  asserts = false;
  zlib = true;
  files = no_files;
  print_number = λ n. codes "{\"clockResolution\":-1}";
  isr_ticks = λ freq ticks. ticks;
  format = plain;
  print = λ d. d.cpu;
  parse = λ text. none;
  ready = λ w. (false, w);
}

-- A machine with the callbacks not set.
abbrev pub whole : Whole Value Board ℕ Snapshot.Document
whole = record {
  settings = record {
    options = with_cpu;
    clock = made.clock;
    ticks_per_isr = pos 0;
    running = false;
    on_save = none;
    on_load = none;
  };
  memory_controller = some memory_controller;
  uuid = replicate 16 1;
  io_controller = some io_controller;
  state = ready cpu board;
  host_state = 7;
  fut = not_valid;
}

-- One whose option says neither that the loop runs in another thread nor that it does not.
abbrev pub misled : Whole Value Board ℕ Snapshot.Document
misled = record whole {
  settings = record (whole.settings) {
    options =
        calls true no_files (default_opts true)
          (some (codes "{\"cpu\":\"i8080\"}") ∷ some (codes "{\"runAsync\":1}") ∷ []);
  };
}

run-Settles_example : Settles env (run env 100 70000 0x100 misled)
run-Settles_example = run-Settles env 100 70000 0x100 misled refl refl

-- The options once Run has set the resolution that they say.
abbrev pub settings :
    Settings Value (Snapshot.Document → Board → Board) (Board → Option Snapshot.Document × Board)
settings = record (whole.settings) {
  options =
      calls true no_files (default_opts true)
        (some (codes "{\"cpu\":\"i8080\"}") ∷ some (codes "{\"clockResolution\":-1}") ∷ []);
  clock = record (made.clock) { total_ticks = negsuc 0; epoch = 8; last_time = 8 };
  ticks_per_isr = negsuc 0;
}

pub settings_read :
    set_clock_resolution true no_files env.print_number env.isr_ticks
      (negsuc 0)
      (reset_machine 0x100 whole).settings
    ≡ inr (no_error, settings)
unfolding set_clock_resolution calls reset_machine Options.set_options CpuClock.set_tick_resolution
    Options.isr_freq
settings_read = refl

whole-IsReady :
    IsReady counting-IsMoving env memory_controller io_controller 70000
      (launched_here 0x100 whole settings)
unfolding calls callback_policies all reset_machine Options.set_options Handlers.get_load
    Options.rom Options.ram
whole-IsReady = record {
  release = refl;
  lawful = board_laws;
  memory_set = refl;
  io_set = refl;
  async = (false, false);
  policies_read = refl;
  rom_fits = refl;
  ram_fits = refl;
  sound = λ w. tt;
  enough_rounds = omega arith;
}

run-Completes_example : Completes (run env 100 70000 0x100 whole)
unfolding calls Options.clock_resolution Options.set_options Options.run_async
run-Completes_example =
    run-Completes counting-IsMoving env memory_controller io_controller 70000 100 0x100 0 whole
      (negsuc 0) (no_error, settings) refl refl (omega arith) (omega arith) refl settings_read refl
      whole-IsReady (omega arith) (omega arith) (omega arith) (omega arith)

-- One whose loop runs in another thread.
abbrev apart : Whole Value Board ℕ Snapshot.Document
apart = record whole {
  settings = record (whole.settings) {
    options =
        calls true no_files (default_opts true)
          (some (codes "{\"cpu\":\"i8080\"}") ∷ some (codes "{\"runAsync\":true}") ∷ []);
  };
}

abbrev apart_settings :
    Settings Value (Snapshot.Document → Board → Board) (Board → Option Snapshot.Document × Board)
apart_settings = record settings {
  options = calls true no_files (default_opts true) (
      some (codes "{\"cpu\":\"i8080\"}")
      ∷ some (codes "{\"runAsync\":true}")
      ∷ some (codes "{\"clockResolution\":-1}")
      ∷ []);
}

apart_settings_read :
    set_clock_resolution true no_files env.print_number env.isr_ticks
      (negsuc 0)
      (reset_machine 0x100 apart).settings
    ≡ inr (no_error, apart_settings)
unfolding set_clock_resolution calls reset_machine Options.set_options CpuClock.set_tick_resolution
    Options.isr_freq
apart_settings_read = refl

apart-IsReady :
    IsReady counting-IsMoving env memory_controller io_controller 70000
      (launched_there 0x100 apart apart_settings)
unfolding calls callback_policies all reset_machine Options.set_options Handlers.get_load
    Options.rom Options.ram
apart-IsReady = record {
  release = refl;
  lawful = board_laws;
  memory_set = refl;
  io_set = refl;
  async = (false, false);
  policies_read = refl;
  rom_fits = refl;
  ram_fits = refl;
  sound = λ w. tt;
  enough_rounds = omega arith;
}

wait_for_completion-run_example :
    (run env 1 70000 0x100 apart ≡ returns 0 (launched_there 0x100 apart apart_settings))
    × Completes (wait_for_completion env 100 70000 (launched_there 0x100 apart apart_settings))
unfolding calls Options.clock_resolution Options.set_options Options.run_async
wait_for_completion-run_example =
    wait_for_completion-run counting-IsMoving env memory_controller io_controller 70000 100 1 0x100
      0 apart (negsuc 0) (no_error, apart_settings) refl refl (omega arith) (omega arith) refl
      apart_settings_read refl apart-IsReady (omega arith) (omega arith) (omega arith) (omega arith)

-- A load in another thread, and a save.
abbrev busy : Session Board Snapshot.Document
busy = record {
  load_callback = some (λ w. (none, w));
  save_callback = some (λ text w. w);
  load_async = true;
  save_async = false;
  ready = λ w. (false, w);
  memory = memory_controller;
  uuid = replicate 16 1;
  rom = some ((0, 0x100) ∷ []);
  ram = some ((0x100, 0x200) ∷ []);
  names = some ("base64", "zlib");
}

abbrev beginning : RunSt Board ℕ Snapshot.Document
beginning = loop_start env (record whole { settings = settings; host_state = 8 })

-- The instances of the machine of the two controllers.
instance abbrev process : Process Board
process = machine_process memory_controller io_controller

instance abbrev devices : Devices Board
devices = machine_devices memory_controller io_controller board_laws

run_loop-Progresses_example :
    Progresses counting-IsMoving true plain env.print env.parse io_controller busy (pos 4) 70000 (
      run_loop false true plain env.print env.parse io_controller busy (pos 4) 70000 1000 beginning)
unfolding all Handlers.get_load
run_loop-Progresses_example =
    run_loop-Progresses counting-IsMoving true plain env.print env.parse io_controller busy (pos 4)
      70000 (λ w. tt) board_laws (omega arith) refl refl 1000 beginning
      (record {
        valid_cpu = cpu-IsValid;
        between = Between.awaits Awaits.nothing;
        timely = record {
          sampled = omega arith;
          paid = omega arith;
          limit = 0;
          counted = omega arith;
          resolution = omega arith;
          enough = omega arith;
        };
        exclusive = (refl, refl, refl);
        settled = λ stops. (refl, refl);
      })

-- Run throws, and leaves that machine running.
abbrev is_locked : Call Value Board ℕ Snapshot.Document ℕ → Bool
is_locked (throws e m) = m.settings.running
is_locked _ = false

misled_locked : is_locked (run env 1 10 0x100 misled) ≡ true
unfolding run calls Options.set_options CpuClock.set_tick_resolution Options.isr_freq
misled_locked = refl
