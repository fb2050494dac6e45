-- ===== src/Machine/Lifecycle/Histories/Reached.antt =====
-- Every machine that a program can have is sound.
use mach_emu.Base.{refl, ap}
use mach_emu.CpuClock.Platform.{Host}
use mach_emu.Options.Library.{Json, IsJson}
use mach_emu.Utils.Libraries.{Coding}
use mach_emu.Machine.Handlers.{valid}
use mach_emu.Machine.Settings.Changes.{
  set_options-Changed, on_save-Changed, on_load-Changed, set_clock_resolution-Changed,
  make_machine-Fits,
}
use mach_emu.Machine.Setup.{set_memory_controller-stopped, set_io_controller-stopped}
use mach_emu.Machine.Lifecycle.{Environment, Whole, controllers, get_machine_state}
use mach_emu.Machine.Lifecycle.Runs.{run}
use mach_emu.Machine.Lifecycle.Saves.{save_machine}
use mach_emu.Machine.Lifecycle.Histories.{
  IsBuilt, PublicCall, by_set_options, by_set_clock_resolution, by_on_save, by_on_load,
  by_set_memory_controller, by_set_io_controller, by_get_state, by_save, by_run,
  by_wait_for_completion, History, no_call, then_call,
}
use mach_emu.Machine.Lifecycle.Histories.Sound.{
  Ends-After, IsSound, idle-IsSound, on_update-IsSound, on_settings-IsSound, on_controllers-IsSound,
}
use mach_emu.Machine.Lifecycle.Histories.Kept.{
  wait_for_completion-Keeps, run_checked-Keeps, save_checked-Keeps, guarded-Keeps,
}

module _ {J W T Text : Type 0} ⦃json : Json J⦄ ⦃host : Host T⦄ ⦃coding : Coding⦄
    (lawful : IsJson json) (env : Environment J W Text) where
  pub PublicCall-IsSound :
      (m m' : Whole J W T Text) → PublicCall env m m' → IsSound lawful env m → IsSound lawful env m'
  unfolding get_machine_state save_machine run
  PublicCall-IsSound m m' (by_set_options opts after) sound =
      Ends-After (IsSound lawful env)
        (on_update-IsSound lawful env m _ sound
          (set_options-Changed lawful env.zlib env.files opts m.settings))
        after
  PublicCall-IsSound m m' (by_set_clock_resolution resolution after) sound =
      Ends-After (IsSound lawful env)
        (on_settings-IsSound lawful env m _ sound (
          set_clock_resolution-Changed lawful env.zlib env.files env.print_number env.isr_ticks
            resolution m.settings))
        after
  PublicCall-IsSound m m' (by_on_save f after) sound =
      Ends-After (IsSound lawful env)
        (on_update-IsSound lawful env m _ sound
          (on_save-Changed lawful env.zlib env.files f m.settings))
        after
  PublicCall-IsSound m m' (by_on_load f after) sound =
      Ends-After (IsSound lawful env)
        (on_update-IsSound lawful env m _ sound
          (on_load-Changed lawful env.zlib env.files f m.settings))
        after
  PublicCall-IsSound m m' (by_set_memory_controller c uuid after) sound =
      Ends-After (IsSound lawful env)
        (on_controllers-IsSound lawful env m uuid _ sound
          (set_memory_controller-stopped c (controllers m)))
        after
  PublicCall-IsSound m m' (by_set_io_controller c after) sound =
      Ends-After (IsSound lawful env)
        (on_controllers-IsSound lawful env m m.uuid _ sound
          (set_io_controller-stopped c (controllers m)))
        after
  PublicCall-IsSound m m' (by_get_state after) sound =
      Ends-After (IsSound lawful env) (guarded-Keeps lawful env m _ _ sound sound) after
  PublicCall-IsSound m m' (by_save spins after) sound =
      Ends-After (IsSound lawful env)
        (guarded-Keeps lawful env m _ _ sound (save_checked-Keeps lawful env spins m _ _ _ _ sound))
        after
  PublicCall-IsSound m m' (by_run fuel spins pc after) sound =
      Ends-After (IsSound lawful env)
        (run_checked-Keeps lawful env fuel spins pc m _ _ refl refl sound) after
  PublicCall-IsSound m m' (by_wait_for_completion fuel spins after) sound =
      Ends-After (IsSound lawful env) (wait_for_completion-Keeps lawful env fuel spins m sound)
        after

  IsBuilt-IsSound : (m : Whole J W T Text) → IsBuilt env m → IsSound lawful env m
  IsBuilt-IsSound m built =
      let (idle, fits) =
        make_machine-Fits lawful env.zlib env.files built.opts built.world m.settings built.made in
      idle-IsSound lawful env m fits idle (ap valid built.no_future)

  -- Whatever public operations are called on a machine after its constructor, with whatever
  -- arguments, and whether they return or throw: between two calls its options are usable, as after
  -- calls of SetOptions alone, and name the cpu type "i8080"; while it runs, both controllers are set;
  -- and it has a valid future only while it runs, which is one in another thread.
  pub History-IsSound :
      (m m' : Whole J W T Text) → IsBuilt env m → History env m m' → IsSound lawful env m'
  History-IsSound m m' built no_call = IsBuilt-IsSound m built
  History-IsSound m m' built (then_call {m' = between} before call) =
      PublicCall-IsSound between m' call (History-IsSound m between built before)
