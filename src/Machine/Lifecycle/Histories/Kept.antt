-- ===== src/Machine/Lifecycle/Histories/Kept.antt =====
-- `Run`, `WaitForCompletion` and `Save` keep a machine sound.
use mathlib.Core.Path.{subst⁻¹}
use mathlib.Core.Bool.{true≢false}
use mach_emu.Base.{
  ℕ, ◌≡◌, refl, sym, ◌∙◌, Bool, true, false, Bool-cases, if◌then◌else◌, Option, none, some, ◌⊎◌,
  inl, inr, String, List,
}
use mach_emu.Base.Int.{ℤ}
use mach_emu.Base.Results.{if_taken_eq, if_not_taken_eq}
use mach_emu.Controller.{Controller}
use mach_emu.CpuClock.{ErrorCode}
use mach_emu.CpuClock.Platform.{Host}
use mach_emu.Options
use mach_emu.Options.Library.{Json, IsJson}
use mach_emu.Utils.Libraries.{Coding}
use mach_emu.Machine.Handlers.{not_valid, deferred, valid}
use mach_emu.Machine.Images
use mach_emu.Machine.Images.{Layout, Document}
use mach_emu.Machine.Run.{RunEnd, powered_off, going_on, stuck}
use mach_emu.Machine.Settings as MachineSettings
use mach_emu.Machine.Settings.{
  Settings, set_options, set_clock_resolution, on_save, on_load, make_machine,
}
use mach_emu.Machine.Settings.Changes.{Fits, Changed, set_clock_resolution-Changed}
use mach_emu.Machine.Lifecycle.{Environment, Whole, Call, is_running, reset_machine}
use mach_emu.Machine.Lifecycle.Runs.{
  run_checked, run_resolution, run_clocked, launch_loop, get_future, future_result, completed,
  clear_running, wait_for_completion,
}
use mach_emu.Machine.Lifecycle.Saves.{save_checked, saved, refused_after}
use mach_emu.Machine.Lifecycle.Histories.Sound.{
  Ends, HasControllers, IsSound, idle_future, idle-IsSound,
}

module _ {J W T Text : Type 0} ⦃json : Json J⦄ ⦃host : Host T⦄ ⦃coding : Coding⦄
    (lawful : IsJson json) (env : Environment J W Text) where
  -- What the call leaves is sound.
  abbrev pub Keeps : {A : Type 0} → Call J W T Text A → Type 0
  Keeps c = Ends (IsSound lawful env) c

  -- Of a machine that runs, the loop's end, and an exception.
  completed-Keeps :
      (m : Whole J W T Text) (s : RunEnd W T Text)
      → Fits lawful env.zlib m.settings.options
      → Keeps (clear_running env (completed env m s))
  unfolding completed clear_running
  completed-Keeps m (powered_off s) fits =
      idle-IsSound lawful env
        (record m {
          settings = record (m.settings) { clock = s.clock; running = false };
          state = s.state;
          host_state = s.host_state;
          fut = not_valid;
        })
        fits refl refl
  completed-Keeps m (going_on s) fits = tt
  completed-Keeps m stuck fits = tt

  future_result-Keeps :
      (fuel spins : ℕ) (m : Whole J W T Text) (memory io : Option (Controller W))
      (async : Options.Failure ⊎ (Bool × Bool))
      → Fits lawful env.zlib m.settings.options
      → (is_running m ≡ true → HasControllers m.memory_controller m.io_controller)
      → Keeps (clear_running env (future_result env fuel spins m memory io async))
  unfolding future_result clear_running
  future_result-Keeps fuel spins m none io async fits both = tt
  future_result-Keeps fuel spins m (some memory) none async fits both = tt
  future_result-Keeps fuel spins m (some memory) (some io) (inl e) fits both = record {
    fits = fits;
    controllers_set = both;
    future_runs = λ there. absurd (true≢false (sym there));
  }
  future_result-Keeps fuel spins m (some memory) (some io) (inr async) fits both =
      completed-Keeps m _ fits

  pub wait_for_completion-Keeps :
      (fuel spins : ℕ) (m : Whole J W T Text)
      → IsSound lawful env m
      → Keeps (wait_for_completion env fuel spins m)
  unfolding wait_for_completion get_future
  wait_for_completion-Keeps fuel spins m sound = elim (Bool-cases (valid m.fut)) [
    | inl there ↦
        subst⁻¹ Keeps (if_taken_eq _ _ _ there)
          (future_result-Keeps fuel spins m _ _ _ sound.fits sound.controllers_set)
    | inr gone ↦ subst⁻¹ Keeps (if_not_taken_eq _ _ _ gone) sound
  ]

  launch_loop-Keeps :
      (fuel spins : ℕ) (m : Whole J W T Text) (async : Options.Failure ⊎ Bool)
      → Fits lawful env.zlib m.settings.options
      → is_running m ≡ true
      → HasControllers m.memory_controller m.io_controller
      → valid m.fut ≡ false
      → Keeps (launch_loop env fuel spins m async)
  unfolding launch_loop get_future
  launch_loop-Keeps fuel spins m (inl e) fits running both gone = record {
    fits = fits;
    controllers_set = λ on. both;
    future_runs = λ there. absurd (true≢false (sym there ∙ gone));
  }
  launch_loop-Keeps fuel spins m (inr true) fits running both gone = record {
    fits = fits;
    controllers_set = λ on. both;
    future_runs = λ there. (refl, running);
  }
  launch_loop-Keeps fuel spins m (inr false) fits running both gone =
      future_result-Keeps fuel spins (record m { fut = deferred }) _ _ _ fits (λ on. both)

  run_clocked-Keeps :
      (fuel spins : ℕ) (m : Whole J W T Text)
      (x : MachineSettings.Failure ⊎ (ErrorCode × Settings J (Text → W → W) (W → Option Text × W)))
      → IsSound lawful env m
      → HasControllers m.memory_controller m.io_controller
      → ((r : ErrorCode × Settings J (Text → W → W) (W → Option Text × W))
          → x ≡ inr r
          → Changed lawful env.zlib env.files m.settings r.1)
      → Keeps (run_clocked env fuel spins m x)
  unfolding run_clocked
  run_clocked-Keeps fuel spins m (inl e) sound both changed = sound
  run_clocked-Keeps fuel spins m (inr r) sound both changed =
      let (idle, _, fits) = changed r refl in
      launch_loop-Keeps fuel spins (record m { settings = record (r.1) { running = true } }) _
        (fits sound.fits) refl both (idle_future lawful env m sound idle)

  run_resolution-Keeps :
      (fuel spins : ℕ) (m : Whole J W T Text) (x : Options.Failure ⊎ ℤ)
      → IsSound lawful env m
      → HasControllers m.memory_controller m.io_controller
      → Keeps (run_resolution env fuel spins m x)
  unfolding run_resolution
  run_resolution-Keeps fuel spins m (inl e) sound both = sound
  run_resolution-Keeps fuel spins m (inr resolution) sound both =
      run_clocked-Keeps fuel spins m _ sound both (
        set_clock_resolution-Changed lawful env.zlib env.files env.print_number env.isr_ticks
          resolution m.settings)

  pub run_checked-Keeps :
      (fuel spins pc : ℕ) (m : Whole J W T Text) (memory io : Option (Controller W))
      → m.memory_controller ≡ memory
      → m.io_controller ≡ io
      → IsSound lawful env m
      → Keeps (run_checked env fuel spins pc m memory io)
  unfolding run_checked reset_machine
  run_checked-Keeps fuel spins pc m none io e1 e2 sound = sound
  run_checked-Keeps fuel spins pc m (some memory) none e1 e2 sound = sound
  run_checked-Keeps fuel spins pc m (some memory) (some io) e1 e2 sound =
      elim (Bool-cases (is_running m)) [
        | inl on ↦ subst⁻¹ Keeps (if_taken_eq _ _ _ on) sound
        | inr off ↦
            subst⁻¹ Keeps (if_not_taken_eq _ _ _ off) (
              run_resolution-Keeps fuel spins (reset_machine pc m) _ sound ((memory, e1), (io, e2)))
      ]

  saved-Keeps :
      (m : Whole J W T Text) (x : Option ((Images.Failure ⊎ Document Text) × W))
      → IsSound lawful env m
      → Keeps (saved env m x)
  unfolding saved
  saved-Keeps m none sound = tt
  saved-Keeps m (some (inl e, w)) sound = sound
  saved-Keeps m (some (inr d, w)) sound = sound

  refused_after-Keeps :
      (m : Whole J W T Text) (e : Options.Failure) (x : Option (List ℕ × W))
      → IsSound lawful env m
      → Keeps (refused_after env m e x)
  unfolding refused_after
  refused_after-Keeps m e none sound = tt
  refused_after-Keeps m e (some r) sound = sound

  pub save_checked-Keeps :
      (spins : ℕ) (m : Whole J W T Text) (memory : Option (Controller W))
      (rom ram : Options.Failure ⊎ Layout) (names : Options.Failure ⊎ (String × String))
      → IsSound lawful env m
      → Keeps (save_checked env spins m memory rom ram names)
  unfolding save_checked
  save_checked-Keeps spins m none rom ram names sound = sound
  save_checked-Keeps spins m (some memory) (inl e) ram names sound = sound
  save_checked-Keeps spins m (some memory) (inr rom) (inl e) names sound =
      refused_after-Keeps m e _ sound
  save_checked-Keeps spins m (some memory) (inr rom) (inr ram) (inl e) sound =
      refused_after-Keeps m e _ sound
  save_checked-Keeps spins m (some memory) (inr rom) (inr ram) (inr names) sound =
      saved-Keeps m _ sound

  -- A guard, and what it guards.
  pub guarded-Keeps :
      {A : Type 0} (m : Whole J W T Text) (x y : Call J W T Text A)
      → Keeps x
      → Keeps y
      → Keeps (if is_running m then x else y)
  guarded-Keeps m x y p q = elim (Bool-cases (is_running m)) [
    | inl on ↦ subst⁻¹ Keeps (if_taken_eq _ _ _ on) p
    | inr off ↦ subst⁻¹ Keeps (if_not_taken_eq _ _ _ off) q
  ]
