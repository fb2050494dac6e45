-- ===== src/Tests/Histories.antt =====
-- The theorems on sequences of calls, with the test controllers.
use mathlib.Core.Path.{subst⁻¹}
use mach_emu.Base.{ℕ, ◌≡◌, refl, true, Option, none, some, [], ◌∷◌, replicate}
use mach_emu.Base.Int.{negsuc}
use mach_emu.Cpu.Snapshot
use mach_emu.CpuClock
use mach_emu.Machine.Settings as MachineSettings
use mach_emu.Machine.Settings.{Settings, make_machine, set_options, set_clock_resolution}
use mach_emu.Machine.Setup.{set_memory_controller, set_io_controller}
use mach_emu.Machine.Lifecycle.{
  Whole, Call, throws, returns, of_settings, on_update, on_controllers, reset_machine, Thrown,
}
use mach_emu.Machine.Lifecycle.Runs.{run, wait_for_completion}
use mach_emu.Machine.Lifecycle.Guards.{Refuses}
use mach_emu.Machine.Lifecycle.Histories.{
  After, returned, thrown, IsBuilt, by_set_options, by_set_memory_controller, by_set_io_controller,
  by_run, by_wait_for_completion, History, no_call, then_call,
}
use mach_emu.Machine.Lifecycle.Histories.Sound.{IsSound}
use mach_emu.Machine.Lifecycle.Histories.Reached.{History-IsSound}
use mach_emu.Machine.Lifecycle.Histories.Lost.{lost-History}
use mach_emu.Options
use mach_emu.Options.{codes, default_opts}
use mach_emu.Options.Invariant.{calls}
use mach_emu.TestControllers.Board.{Board, memory_controller, io_controller}
use mach_emu.Tests.Coding.{coding}
use mach_emu.Tests.Settings.{json, known, no_files, made}
use mach_emu.Tests.Lifecycle.{host, env, whole, misled}
use mach_emu.Tests.Values.{Value, values-IsJson}

-- The machine as it is made.
abbrev new : Whole Value Board ℕ Snapshot.Document
new = record whole { memory_controller = none; io_controller = none }

new-IsBuilt : IsBuilt env new
unfolding make_machine Options.set_options Options.cpu_type CpuClock.make_cpu_clock calls
new-IsBuilt = record {
  opts = some (codes "{\"cpu\":\"i8080\"}");
  world = 0;
  made = refl;
  no_memory = refl;
  no_io = refl;
  no_future = refl;
}

abbrev with_memory : Whole Value Board ℕ Snapshot.Document
with_memory = record new { memory_controller = some memory_controller }

-- The options once Run has set the resolution that they say, with the flag set.
abbrev settings :
    Settings Value (Snapshot.Document → Board → Board) (Board → Option Snapshot.Document × Board)
settings = record (misled.settings) {
  options = calls true no_files (default_opts true) (
      some (codes "{\"cpu\":\"i8080\"}")
      ∷ some (codes "{\"runAsync\":1}")
      ∷ some (codes "{\"clockResolution\":-1}")
      ∷ []);
  clock = record (made.clock) { total_ticks = negsuc 0; epoch = 8; last_time = 8 };
  ticks_per_isr = negsuc 0;
  running = true;
}

-- The machine that Run has thrown on.
abbrev lost : Whole Value Board ℕ Snapshot.Document
lost = record (reset_machine 0x100 misled) { settings = settings }

After-returns :
    {A : Type 0} (c : Call Value Board ℕ Snapshot.Document A) (a : A)
    (m : Whole Value Board ℕ Snapshot.Document)
    → c ≡ returns a m
    → After c m
After-returns c a m e = subst⁻¹ (λ x. After x m) e (returned a m)

After-throws :
    {A : Type 0} (c : Call Value Board ℕ Snapshot.Document A) (e : Thrown)
    (m : Whole Value Board ℕ Snapshot.Document)
    → c ≡ throws e m
    → After c m
After-throws c x m e = subst⁻¹ (λ y. After y m) e (thrown x m)

run_misled :
    run env 100 70000 0x100 misled
    ≡ throws (of_settings (MachineSettings.of_options Options.type_error)) lost
unfolding run calls reset_machine Options.set_options CpuClock.set_tick_resolution Options.isr_freq
run_misled = refl

-- The calls that lead there, and two that come after.
led_astray : History env new lost
unfolding set_memory_controller set_io_controller on_controllers set_options on_update
    Options.set_options calls
led_astray =
    then_call
      (then_call
        (then_call
          (then_call no_call (
            by_set_memory_controller (some memory_controller) (replicate 16 1)
              (returned tt with_memory)))
          (by_set_io_controller (some io_controller) (returned tt whole)))
        (by_set_options (some (codes "{\"runAsync\":1}")) (
          After-returns
            (on_update whole
              (set_options true no_files (some (codes "{\"runAsync\":1}")) whole.settings))
            tt misled refl)))
      (by_run 100 70000 0x100 (
        After-throws (run env 100 70000 0x100 misled)
          (of_settings (MachineSettings.of_options Options.type_error)) lost run_misled))

waiting : History env lost lost
unfolding wait_for_completion set_options on_update reset_machine
waiting =
    then_call
      (then_call no_call (
        by_wait_for_completion 100 70000
          (After-returns (wait_for_completion env 100 70000 lost) 0 lost refl)))
      (by_set_options none (
        After-throws (on_update lost (set_options true no_files none lost.settings))
          (of_settings MachineSettings.machine_is_running) lost refl))

History-IsSound_example : IsSound (values-IsJson known) env lost
History-IsSound_example = History-IsSound (values-IsJson known) env new lost new-IsBuilt led_astray

lost-History_example : (lost ≡ lost) × Refuses env lost
unfolding reset_machine
lost-History_example =
    lost-History env (values-IsJson known) new lost lost new-IsBuilt led_astray refl refl waiting
