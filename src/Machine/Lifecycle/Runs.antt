-- ===== src/Machine/Lifecycle/Runs.antt =====
-- `Machine::Run` and `Machine::WaitForCompletion` (Machine/source/Machine.cpp).
use mach_emu.Base.{ℕ, Bool, true, false, if◌then◌else◌, Option, none, some, ◌⊎◌, inl, inr}
use mach_emu.Base.Int.{ℤ, pos}
use mach_emu.Controller.{Controller}
use mach_emu.CpuClock.{ErrorCode}
use mach_emu.CpuClock.Platform.{Host}
use mach_emu.Options
use mach_emu.Options.{
  clock_resolution, compressor, encoder, load_async, run_async, save_async, ram, rom,
}
use mach_emu.Options.Library.{Json}
use mach_emu.Utils.Libraries.{Coding}
use mach_emu.Machine.Controllers.Requests.{machine_process}
use mach_emu.Machine.Handlers.{not_valid, deferred, launched, valid, Session}
use mach_emu.Machine.Handlers.Exclusion.{nothing_pending}
use mach_emu.Machine.Run.{RunSt, RunEnd, powered_off, going_on, stuck, to_uint64, run_loop}
use mach_emu.Machine.Settings as MachineSettings
use mach_emu.Machine.Settings.{Settings, set_clock_resolution}
use mach_emu.Machine.Lifecycle.{
  Whole, no_memory_controller, no_io_controller, of_settings, Call, returns, throws, runs_on,
  never_ends, undefined, running_error, is_running, callback_policies, if_read, names_read,
  reset_machine, Environment,
}

-- The fuel is as in Machine/Run.antt.
module _ {J W T Text : Type 0} ⦃json : Json J⦄ ⦃host : Host T⦄ ⦃coding : Coding⦄
    (env : Environment J W Text) where
  abbrev pub session : Whole J W T Text → Controller W → Bool × Bool → Session W Text
  session m memory async = record {
    load_callback = m.settings.on_load;
    save_callback = m.settings.on_save;
    load_async = async.0;
    save_async = async.1;
    ready = env.ready;
    memory = memory;
    uuid = m.uuid;
    rom = if_read (rom m.settings.options);
    ram = if_read (ram m.settings.options);
    names = names_read m.settings.options;
  }

  -- The variables of the loop at its start.
  abbrev pub loop_start : Whole J W T Text → RunSt W T Text
  loop_start m = record {
    state = m.state;
    clock = m.settings.clock;
    host_state = m.host_state;
    curr_time = pos 0;
    total_ticks = 0;
    last_ticks = 0;
    pending = nothing_pending;
  }

  -- What `fut_.get()` does once the loop is where it is.
  unfoldable pub completed : Whole J W T Text → RunEnd W T Text → Call J W T Text ℕ
  completed m (powered_off s) = returns (to_uint64 s.curr_time) (record m {
    settings = record (m.settings) { clock = s.clock };
    state = s.state;
    host_state = s.host_state;
    fut = not_valid;
  })
  completed m (going_on s) = runs_on s
  completed m stuck = never_ends

  -- `fut_.get()`, with the two controllers and what the policies read.
  unfoldable pub future_result :
      ℕ
      → ℕ
      → Whole J W T Text
      → Option (Controller W)
      → Option (Controller W)
      → Options.Failure ⊎ (Bool × Bool)
      → Call J W T Text ℕ
  unfolding completed run_loop
  future_result fuel spins m (some memory) (some io) (inr async) = completed m (
      run_loop ⦃p = machine_process memory io⦄ env.asserts env.zlib env.format env.print env.parse
        io (session m memory async) m.settings.ticks_per_isr spins fuel (loop_start m))
  future_result fuel spins m (some memory) (some io) (inl e) =
      throws (of_settings (MachineSettings.of_options e)) (record m { fut = not_valid })
  future_result fuel spins m (some memory) none async = undefined
  future_result fuel spins m none io async = undefined

  unfoldable pub get_future : ℕ → ℕ → Whole J W T Text → Call J W T Text ℕ
  unfolding future_result callback_policies
  get_future fuel spins m =
      future_result fuel spins m m.memory_controller m.io_controller
        (callback_policies m.settings.options)

  -- `running_ = false`, which an exception of the call before it skips.
  unfoldable pub clear_running : Call J W T Text ℕ → Call J W T Text ℕ
  clear_running (returns total_time m) =
      returns total_time (record m { settings = record (m.settings) { running = false } })
  clear_running result = result

  unfoldable pub wait_for_completion : ℕ → ℕ → Whole J W T Text → Call J W T Text ℕ
  unfolding get_future clear_running
  wait_for_completion fuel spins m =
      let rest = clear_running (get_future fuel spins m) in
      if valid m.fut then rest else returns 0 m

  -- `Run` after `running_ = true`, with what `RunAsync` reads.
  unfoldable pub launch_loop : ℕ → ℕ → Whole J W T Text → Options.Failure ⊎ Bool → Call J W T Text ℕ
  unfolding get_future clear_running
  launch_loop fuel spins m (inl e) = throws (of_settings (MachineSettings.of_options e)) m
  launch_loop fuel spins m (inr true) = returns 0 (record m { fut = launched })
  launch_loop fuel spins m (inr false) =
      clear_running (get_future fuel spins (record m { fut = deferred }))

  -- After `SetClockResolution`, whose error code is dropped, and what comes before it. Where it throws
  -- it has changed nothing: only `ISRFreq` comes after a change, and `SetOptions` has seen to that.
  unfoldable pub run_clocked :
      ℕ
      → ℕ
      → Whole J W T Text
      → MachineSettings.Failure ⊎ (ErrorCode × Settings J (Text → W → W) (W → Option Text × W))
      → Call J W T Text ℕ
  unfolding launch_loop run_async
  run_clocked fuel spins m (inl e) = throws (of_settings e) m
  run_clocked fuel spins m (inr r) =
      launch_loop fuel spins (record m { settings = record (r.1) { running = true } })
        (run_async r.1.options)

  unfoldable pub run_resolution : ℕ → ℕ → Whole J W T Text → Options.Failure ⊎ ℤ → Call J W T Text ℕ
  unfolding run_clocked set_clock_resolution
  run_resolution fuel spins m (inl e) = throws (of_settings (MachineSettings.of_options e)) m
  run_resolution fuel spins m (inr resolution) =
      run_clocked fuel spins m (
        set_clock_resolution env.zlib env.files env.print_number env.isr_ticks resolution
          m.settings)

  unfoldable pub run_checked :
      ℕ
      → ℕ
      → ℕ
      → Whole J W T Text
      → Option (Controller W)
      → Option (Controller W)
      → Call J W T Text ℕ
  unfolding run_resolution reset_machine clock_resolution
  run_checked fuel spins pc m none io = throws no_memory_controller m
  run_checked fuel spins pc m (some _) none = throws no_io_controller m
  run_checked fuel spins pc m (some _) (some _) =
      let m' = reset_machine pc m in
      let rest = run_resolution fuel spins m' (clock_resolution m'.settings.options) in
      if is_running m then throws running_error m else rest

  unfoldable pub run : ℕ → ℕ → ℕ → Whole J W T Text → Call J W T Text ℕ
  unfolding run_checked
  run fuel spins pc m = run_checked fuel spins pc m m.memory_controller m.io_controller
