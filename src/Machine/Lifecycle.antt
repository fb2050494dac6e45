-- ===== src/Machine/Lifecycle.antt =====
-- The public operations of the class `Machine` (Machine/source/Machine.cpp) on one object: `Run`,
-- `WaitForCompletion`, `Save`, `GetState`, and the operations of Machine/Settings.antt and
-- Machine/Setup.antt. What another thread does for `Run` is taken to happen when it is waited for:
-- nothing else changes the machine before that.
pub mod Runs
pub mod Saves
pub mod Guards
pub mod Completing
pub mod Start
pub mod Progress
pub mod Waiting
pub mod Deadline
pub mod Restoring
pub mod Histories
use mach_emu.Base.{
  ℕ, Bool, true, false, if◌then◌else◌, Option, none, some, ◌⊎◌, inl, inr, List, String,
}
use mach_emu.Base.Int.{ℤ, pos}
use mach_emu.Base.Results.{and_then}
use mach_emu.Controller.{Controller}
use mach_emu.Cpu.State
use mach_emu.Cpu.State.{St}
use mach_emu.Cpu.Snapshot.{Format, get_state}
use mach_emu.CpuClock
use mach_emu.CpuClock.{ErrorCode}
use mach_emu.CpuClock.Platform.{Host}
use mach_emu.Options
use mach_emu.Options.{
  clock_resolution, compressor, encoder, load_async, run_async, save_async, ram, rom,
}
use mach_emu.Options.Library.{Json}
use mach_emu.Utils.Libraries.{Coding}
use mach_emu.Machine.Controllers.Requests.{machine_process}
use mach_emu.Machine.Handlers.{Future, not_valid, deferred, launched, valid, launch, Session}
use mach_emu.Machine.Handlers.Exclusion.{nothing_pending}
use mach_emu.Machine.Images
use mach_emu.Machine.Images.{Layout, Document, save_machine_state}
use mach_emu.Machine.Run.{RunSt, RunEnd, powered_off, going_on, stuck, to_uint64, run_loop}
use mach_emu.Machine.Settings as MachineSettings
use mach_emu.Machine.Settings.{Settings, set_clock_resolution}
use mach_emu.Machine.Setup
use mach_emu.Machine.Setup.{Machine, set_memory_controller, set_io_controller}

-- The fields of the class; `settings` are the options, the clock, `ticksPerIsr_`, `running_` and the
-- callbacks. `uuid` is what the memory controller's `Uuid` returns.
pub record Whole (J W T Text : Type 0) : Type 0 where
  pub settings : Settings J (Text → W → W) (W → Option Text × W)
  pub memory_controller : Option (Controller W)
  pub uuid : List ℕ
  pub io_controller : Option (Controller W)
  pub state : St W
  pub host_state : T
  pub fut : Future

-- The exceptions.
pub data Thrown : Type 0 where
  no_memory_controller no_io_controller : Thrown
  of_settings : MachineSettings.Failure → Thrown
  of_setup : Setup.Failure → Thrown
  of_images : Images.Failure → Thrown

-- A call returns a value or throws, and leaves the machine in a state. The loop may not be at its
-- end when the fuel is spent, or may not get there. The last is a call of a controller that is
-- not there, whose behaviour is undefined.
pub data Call (J W T Text A : Type 0) : Type 0 where
  returns : A → Whole J W T Text → Call J W T Text A
  throws : Thrown → Whole J W T Text → Call J W T Text A
  runs_on : RunSt W T Text → Call J W T Text A
  never_ends : Call J W T Text A
  undefined : Call J W T Text A

abbrev pub running_error : Thrown
running_error = of_settings MachineSettings.machine_is_running

module _ {J W T Text : Type 0} where
  abbrev pub is_running : Whole J W T Text → Bool
  is_running m = m.settings.running

  -- An operation on the settings, or on the controllers, is one on the machine.
  unfoldable pub on_settings :
      {A : Type 0}
      → Whole J W T Text
      → MachineSettings.Failure ⊎ (A × Settings J (Text → W → W) (W → Option Text × W))
      → Call J W T Text A
  on_settings m (inl e) = throws (of_settings e) m
  on_settings m (inr r) = returns r.0 (record m { settings = r.1 })

  unfoldable pub on_update :
      Whole J W T Text
      → MachineSettings.Failure ⊎ Settings J (Text → W → W) (W → Option Text × W)
      → Call J W T Text Unit
  on_update m (inl e) = throws (of_settings e) m
  on_update m (inr settings) = returns tt (record m { settings = settings })

  abbrev pub controllers : Whole J W T Text → Machine W
  controllers m = record {
    memory_controller = m.memory_controller;
    io_controller = m.io_controller;
    running = is_running m;
  }

  unfoldable pub on_controllers :
      Whole J W T Text → List ℕ → Setup.Failure ⊎ Machine W → Call J W T Text Unit
  on_controllers m uuid (inl e) = throws (of_setup e) m
  on_controllers m uuid (inr c) = returns tt (record m {
    memory_controller = c.memory_controller;
    io_controller = c.io_controller;
    uuid = uuid;
  })

  -- `GetState`.
  unfoldable pub get_machine_state : Whole J W T Text → Call J W T Text (List ℕ)
  unfolding get_state
  get_machine_state m =
      if is_running m then throws running_error m else returns (get_state m.state.cpu) m

-- What an accessor gives, if it does not throw.
abbrev pub if_read : {A : Type 0} → Options.Failure ⊎ A → Option A
if_read (inl e) = none
if_read (inr a) = some a

module _ {J : Type 0} ⦃json : Json J⦄ where
  -- `LoadAsync` and `SaveAsync`.
  unfoldable pub callback_policies : J → Options.Failure ⊎ (Bool × Bool)
  unfolding load_async save_async and_then
  callback_policies options =
      and_then (load_async options)
        (λ load. and_then (save_async options) (λ save. inr (load, save)))

  -- `Encoder` and `Compressor`.
  unfoldable pub name_options : J → Options.Failure ⊎ (String × String)
  unfolding encoder compressor and_then
  name_options options =
      and_then (encoder options)
        (λ encoder. and_then (compressor options) (λ compressor. inr (encoder, compressor)))

  abbrev pub names_read : J → Option (String × String)
  names_read options = if_read (name_options options)

module _ {J W T Text : Type 0} ⦃host : Host T⦄ where
  -- `cpu_->Reset(pc); clock_->Reset()`.
  unfoldable pub reset_machine : ℕ → Whole J W T Text → Whole J W T Text
  unfolding State.reset CpuClock.reset
  reset_machine pc m =
      let c = CpuClock.reset m.settings.clock m.host_state in
      record m {
        state = record (m.state) { cpu = State.reset pc m.state.cpu };
        settings = record (m.settings) { clock = c.0 };
        host_state = c.1;
      }

-- What the machine is built with: whether there are assertions, whether there is zlib, the files, the
-- texts of numbers, the product of `isrFreq` and a tick count, the json texts, and whether a
-- callback's thread is done.
pub record Environment (J W Text : Type 0) ⦃json : Json J⦄ : Type 0 where
  pub asserts : Bool
  pub zlib : Bool
  pub files : List ℕ → List ℕ
  pub print_number : ℤ → List ℕ
  pub isr_ticks : json.Double → ℤ → ℤ
  pub format : Format Text
  pub print : Document Text → Text
  pub parse : Text → Option (Document Text)
  pub ready : W → Bool × W
