-- ===== src/Machine/Lifecycle/Guards.antt =====
-- What a machine refuses while it runs.
use mach_emu.Base.{ℕ, ◌≡◌, refl, ap, ap₂, ◌∙◌, true, Option, none, some, List}
use mach_emu.Base.Results.{if_taken_eq}
use mach_emu.Base.Int.{ℤ}
use mach_emu.Controller.{Controller}
use mach_emu.CpuClock.Platform.{Host}
use mach_emu.Options.Library.{Json}
use mach_emu.Utils.Libraries.{Coding}
use mach_emu.Machine.Settings.{set_options, set_clock_resolution, on_save, on_load}
use mach_emu.Machine.Setup
use mach_emu.Machine.Setup.{set_memory_controller, set_io_controller}
use mach_emu.Machine.Lifecycle.{
  Environment, Whole, throws, of_setup, running_error, is_running, on_settings, on_update,
  controllers, on_controllers, get_machine_state,
}
use mach_emu.Machine.Lifecycle.Runs.{run_checked, run}
use mach_emu.Machine.Lifecycle.Saves.{save_machine}

module _ {J W T Text : Type 0} ⦃json : Json J⦄ ⦃host : Host T⦄ ⦃coding : Coding⦄
    (env : Environment J W Text) where
  -- Each operation but WaitForCompletion leaves the machine as it is and throws that it is running,
  -- whatever its arguments, but for a null controller, which is an invalid argument.
  pub record Refuses (m : Whole J W T Text) : Type 0 where
    pub set_options_refused :
        (opts : Option (List ℕ))
        → on_update m (set_options env.zlib env.files opts m.settings) ≡ throws running_error m
    pub set_clock_resolution_refused :
        (resolution : ℤ)
        → on_settings m (
            set_clock_resolution env.zlib env.files env.print_number env.isr_ticks resolution
              m.settings)
          ≡ throws running_error m
    pub on_save_refused :
        (f : Option (Text → W → W)) → on_update m (on_save f m.settings) ≡ throws running_error m
    pub on_load_refused :
        (f : Option (W → Option Text × W))
        → on_update m (on_load f m.settings) ≡ throws running_error m
    pub set_memory_controller_refused :
        (c : Controller W) (uuid : List ℕ)
        → on_controllers m uuid (set_memory_controller (some c) (controllers m))
          ≡ throws (of_setup Setup.machine_is_running) m
    pub no_memory_controller_refused :
        (uuid : List ℕ)
        → on_controllers m uuid (set_memory_controller none (controllers m))
          ≡ throws (of_setup Setup.invalid_argument) m
    pub set_io_controller_refused :
        (c : Controller W)
        → on_controllers m m.uuid (set_io_controller (some c) (controllers m))
          ≡ throws (of_setup Setup.machine_is_running) m
    pub no_io_controller_refused :
        on_controllers m m.uuid (set_io_controller none (controllers m))
        ≡ throws (of_setup Setup.invalid_argument) m
    pub get_state_refused : get_machine_state m ≡ throws running_error m
    pub save_refused : (spins : ℕ) → save_machine env spins m ≡ throws running_error m
    pub run_refused : (fuel spins pc : ℕ) → run env fuel spins pc m ≡ throws running_error m

  pub running-Refuses :
      (m : Whole J W T Text) (memory io : Controller W)
      → is_running m ≡ true
      → m.memory_controller ≡ some memory
      → m.io_controller ≡ some io
      → Refuses m
  unfolding on_update on_settings on_controllers set_options set_clock_resolution on_save on_load
      set_memory_controller set_io_controller get_machine_state save_machine run run_checked
  running-Refuses m memory io running e e' = record {
    set_options_refused = λ opts. ap (on_update m) (if_taken_eq _ _ _ running);
    set_clock_resolution_refused = λ resolution. ap (on_settings m) (if_taken_eq _ _ _ running);
    on_save_refused = λ f. ap (on_update m) (if_taken_eq _ _ _ running);
    on_load_refused = λ f. ap (on_update m) (if_taken_eq _ _ _ running);
    set_memory_controller_refused =
        λ c uuid. ap (on_controllers m uuid) (if_taken_eq _ _ _ running);
    no_memory_controller_refused = λ uuid. refl;
    no_io_controller_refused = refl;
    set_io_controller_refused = λ c. ap (on_controllers m m.uuid) (if_taken_eq _ _ _ running);
    get_state_refused = if_taken_eq _ _ _ running;
    save_refused = λ spins. if_taken_eq _ _ _ running;
    run_refused =
        λ fuel spins pc. ap₂ (run_checked env fuel spins pc m) e e' ∙ if_taken_eq _ _ _ running;
  }
