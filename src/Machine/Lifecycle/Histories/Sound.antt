-- ===== src/Machine/Lifecycle/Histories/Sound.antt =====
-- What holds of a machine between two calls.
use mathlib.Core.Bool.{true≢false}
use mach_emu.Base.{
  ℕ, ◌≡◌, refl, sym, ◌∙◌, Bool, true, false, Bool-cases, Option, some, ◌⊎◌, inl, inr, List,
}
use mach_emu.Controller.{Controller}
use mach_emu.CpuClock.Platform.{Host}
use mach_emu.Options.Library.{Json, IsJson}
use mach_emu.Utils.Libraries.{Coding}
use mach_emu.Machine.Handlers.{Future, launched, valid}
use mach_emu.Machine.Settings as MachineSettings
use mach_emu.Machine.Settings.{
  Settings, set_options, set_clock_resolution, on_save, on_load, make_machine,
}
use mach_emu.Machine.Settings.Changes.{Fits, Changed}
use mach_emu.Machine.Setup
use mach_emu.Machine.Setup.{Machine, set_memory_controller, set_io_controller}
use mach_emu.Machine.Lifecycle.{
  Environment, Whole, Call, returns, throws, is_running, on_settings, on_update, on_controllers,
}
use mach_emu.Machine.Lifecycle.Histories.{After, returned, thrown}

-- Both controllers are set.
abbrev pub HasControllers : {W : Type 0} → Option (Controller W) → Option (Controller W) → Type 0
HasControllers {W} memory io =
    ((c : Controller W) × (memory ≡ some c)) × ((c : Controller W) × (io ≡ some c))

module _ {J W T Text : Type 0} where
  -- A statement on what a call leaves.
  abbrev pub Ends : {A : Type 0} → (Whole J W T Text → Type 0) → Call J W T Text A → Type 0
  Ends P (returns a m) = P m
  Ends P (throws e m) = P m
  Ends P _ = Unit

  pub Ends-After :
      {A : Type 0} (P : Whole J W T Text → Type 0) {c : Call J W T Text A} {m : Whole J W T Text}
      → Ends P c
      → After c m
      → P m
  Ends-After P good (returned a m) = good
  Ends-After P good (thrown e m) = good

module _ {J W : Type 0} ⦃json : Json J⦄ (lawful : IsJson json) (zlib : Bool) where
  pub record SoundParts (options : J) (running : Bool) (memory io : Option (Controller W))
      (fut : Future) : Type 0 where
    pub fits : Fits lawful zlib options
    pub controllers_set : running ≡ true → HasControllers memory io
    pub future_runs : valid fut ≡ true → (fut ≡ launched) × (running ≡ true)

module _ {J W T Text : Type 0} ⦃json : Json J⦄ ⦃host : Host T⦄ ⦃coding : Coding⦄
    (lawful : IsJson json) (env : Environment J W Text) where
  -- The options are usable and name the cpu type "i8080"; while the machine runs, both controllers
  -- are set; and only a machine that runs has a future, which is in another thread.
  abbrev pub IsSound : Whole J W T Text → Type 0
  IsSound m =
      SoundParts lawful env.zlib m.settings.options (is_running m) m.memory_controller
        m.io_controller m.fut

  pub idle_future : (m : Whole J W T Text) → IsSound m → is_running m ≡ false → valid m.fut ≡ false
  idle_future m sound idle = elim (Bool-cases (valid m.fut)) [
    | inl there ↦ absurd (true≢false (sym (sound.future_runs there).1 ∙ idle))
    | inr gone ↦ gone
  ]

  pub idle-IsSound :
      (m : Whole J W T Text)
      → Fits lawful env.zlib m.settings.options
      → is_running m ≡ false
      → valid m.fut ≡ false
      → IsSound m
  idle-IsSound m fits idle gone = record {
    fits = fits;
    controllers_set = λ on. absurd (true≢false (sym on ∙ idle));
    future_runs = λ there. absurd (true≢false (sym there ∙ gone));
  }

  Changed-IsSound :
      (m : Whole J W T Text) (s : Settings J (Text → W → W) (W → Option Text × W))
      → IsSound m
      → Changed lawful env.zlib env.files m.settings s
      → IsSound (record m { settings = s })
  Changed-IsSound m s sound (idle, idle', fits) =
      idle-IsSound (record m { settings = s }) (fits sound.fits) idle' (idle_future m sound idle)

  pub on_update-IsSound :
      (m : Whole J W T Text)
      (x : MachineSettings.Failure ⊎ Settings J (Text → W → W) (W → Option Text × W))
      → IsSound m
      → ((s : Settings J (Text → W → W) (W → Option Text × W))
          → x ≡ inr s
          → Changed lawful env.zlib env.files m.settings s)
      → Ends IsSound (on_update m x)
  unfolding on_update
  on_update-IsSound m (inl e) sound changed = sound
  on_update-IsSound m (inr s) sound changed = Changed-IsSound m s sound (changed s refl)

  pub on_settings-IsSound :
      {A : Type 0} (m : Whole J W T Text)
      (x : MachineSettings.Failure ⊎ (A × Settings J (Text → W → W) (W → Option Text × W)))
      → IsSound m
      → ((r : A × Settings J (Text → W → W) (W → Option Text × W))
          → x ≡ inr r
          → Changed lawful env.zlib env.files m.settings r.1)
      → Ends IsSound (on_settings m x)
  unfolding on_settings
  on_settings-IsSound m (inl e) sound changed = sound
  on_settings-IsSound m (inr r) sound changed = Changed-IsSound m r.1 sound (changed r refl)

  pub on_controllers-IsSound :
      (m : Whole J W T Text) (uuid : List ℕ) (x : Setup.Failure ⊎ Machine W)
      → IsSound m
      → ((c : Machine W) → x ≡ inr c → is_running m ≡ false)
      → Ends IsSound (on_controllers m uuid x)
  unfolding on_controllers
  on_controllers-IsSound m uuid (inl e) sound stopped = sound
  on_controllers-IsSound m uuid (inr c) sound stopped =
      idle-IsSound
        (record m {
          memory_controller = c.memory_controller;
          io_controller = c.io_controller;
          uuid = uuid;
        })
        sound.fits (stopped c refl) (idle_future m sound (stopped c refl))
