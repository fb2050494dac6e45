-- ===== src/Machine/Lifecycle/Histories.antt =====
-- The calls of a machine's public operations one after the other, from its constructor on.
pub mod Sound
pub mod Kept
pub mod Reached
pub mod Lost
use mach_emu.Base.{ℕ, ◌≡◌, Option, none, inr, List}
use mach_emu.Base.Int.{ℤ}
use mach_emu.Controller.{Controller}
use mach_emu.CpuClock.Platform.{Host}
use mach_emu.Options.Library.{Json}
use mach_emu.Utils.Libraries.{Coding}
use mach_emu.Machine.Handlers.{not_valid}
use mach_emu.Machine.Settings.{set_options, set_clock_resolution, on_save, on_load, make_machine}
use mach_emu.Machine.Setup.{set_memory_controller, set_io_controller}
use mach_emu.Machine.Lifecycle.{
  Environment, Whole, Thrown, Call, returns, throws, on_settings, on_update, controllers,
  on_controllers, get_machine_state,
}
use mach_emu.Machine.Lifecycle.Runs.{run, wait_for_completion}
use mach_emu.Machine.Lifecycle.Saves.{save_machine}

module _ {J W T Text : Type 0} where
  -- What a call leaves, whether it returns or throws. One that does not end leaves nothing.
  pub data After {A : Type 0} : Call J W T Text A → Whole J W T Text → Type 0 where
    returned : (a : A) (m : Whole J W T Text) → After (returns a m) m
    thrown : (e : Thrown) (m : Whole J W T Text) → After (throws e m) m

module _ {J W T Text : Type 0} ⦃json : Json J⦄ ⦃host : Host T⦄ ⦃coding : Coding⦄
    (env : Environment J W Text) where
  -- The machine that the constructor makes, with any cpu.
  pub record IsBuilt (m : Whole J W T Text) : Type 0 where
    pub opts : Option (List ℕ)
    pub world : T
    pub made : make_machine env.zlib env.files opts world ≡ inr m.settings
    pub no_memory : m.memory_controller ≡ none
    pub no_io : m.io_controller ≡ none
    pub no_future : m.fut ≡ not_valid

  pub data PublicCall (m m' : Whole J W T Text) : Type 0 where
    by_set_options :
        (opts : Option (List ℕ))
        → After (on_update m (set_options env.zlib env.files opts m.settings)) m'
        → PublicCall m m'
    by_set_clock_resolution :
        (resolution : ℤ)
        → After
            (on_settings m (
              set_clock_resolution env.zlib env.files env.print_number env.isr_ticks resolution
                m.settings))
            m'
        → PublicCall m m'
    by_on_save :
        (f : Option (Text → W → W))
        → After (on_update m (on_save f m.settings)) m'
        → PublicCall m m'
    by_on_load :
        (f : Option (W → Option Text × W))
        → After (on_update m (on_load f m.settings)) m'
        → PublicCall m m'
    by_set_memory_controller :
        (c : Option (Controller W)) (uuid : List ℕ)
        → After (on_controllers m uuid (set_memory_controller c (controllers m))) m'
        → PublicCall m m'
    by_set_io_controller :
        (c : Option (Controller W))
        → After (on_controllers m m.uuid (set_io_controller c (controllers m))) m'
        → PublicCall m m'
    by_get_state : After (get_machine_state m) m' → PublicCall m m'
    by_save : (spins : ℕ) → After (save_machine env spins m) m' → PublicCall m m'
    by_run : (fuel spins pc : ℕ) → After (run env fuel spins pc m) m' → PublicCall m m'
    by_wait_for_completion :
        (fuel spins : ℕ) → After (wait_for_completion env fuel spins m) m' → PublicCall m m'

  -- Any number of calls.
  pub data History (m : Whole J W T Text) : Whole J W T Text → Type 0 where
    no_call : History m m
    then_call : {m' m'' : Whole J W T Text} → History m m' → PublicCall m' m'' → History m m''
