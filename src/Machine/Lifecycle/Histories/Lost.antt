-- ===== src/Machine/Lifecycle/Histories/Lost.antt =====
-- What may be changed while a machine runs.
use mathlib.Core.Path.{subst, subst⁻¹}
use mach_emu.Base.{ℕ, ◌≡◌, refl, true, false, none, some, ◌⊎◌, inl, inr}
use mach_emu.Base.Results.{if_not_taken_eq}
use mach_emu.CpuClock.Platform.{Host}
use mach_emu.Options.Library.{Json, IsJson}
use mach_emu.Utils.Libraries.{Coding}
use mach_emu.Machine.Handlers.{valid}
use mach_emu.Machine.Setup.{set_memory_controller, set_io_controller}
use mach_emu.Machine.Lifecycle.{
  Environment, Whole, Call, Thrown, returns, throws, is_running, on_controllers,
}
use mach_emu.Machine.Lifecycle.Runs.{wait_for_completion}
use mach_emu.Machine.Lifecycle.Guards.{Refuses, running-Refuses}
use mach_emu.Machine.Lifecycle.Histories.{
  After, IsBuilt, PublicCall, by_set_options, by_set_clock_resolution, by_on_save, by_on_load,
  by_set_memory_controller, by_set_io_controller, by_get_state, by_save, by_run,
  by_wait_for_completion, History, no_call, then_call,
}
use mach_emu.Machine.Lifecycle.Histories.Sound.{Ends, Ends-After}
use mach_emu.Machine.Lifecycle.Histories.Reached.{History-IsSound}

module _ {J W T Text : Type 0} where
  -- A call that is known to throw, or to return, leaves the machine that it says.
  After-throws :
      {A : Type 0} (c : Call J W T Text A) (e : Thrown) (m m' : Whole J W T Text)
      → c ≡ throws e m
      → After c m'
      → m' ≡ m
  After-throws c e m m' same after =
      Ends-After (λ x. x ≡ m) (subst⁻¹ (Ends (λ x. x ≡ m)) same refl) after

  After-returns :
      {A : Type 0} (c : Call J W T Text A) (a : A) (m m' : Whole J W T Text)
      → c ≡ returns a m
      → After c m'
      → m' ≡ m
  After-returns c a m m' same after =
      Ends-After (λ x. x ≡ m) (subst⁻¹ (Ends (λ x. x ≡ m)) same refl) after

module _ {J W T Text : Type 0} ⦃json : Json J⦄ ⦃host : Host T⦄ ⦃coding : Coding⦄
    (env : Environment J W Text) where
  -- While the machine runs, only WaitForCompletion changes anything.
  running_call :
      (m m' : Whole J W T Text)
      → Refuses env m
      → PublicCall env m m'
      → (m' ≡ m) ⊎ ((fuel : ℕ) × (spins : ℕ) × After (wait_for_completion env fuel spins m) m')
  unfolding set_memory_controller set_io_controller on_controllers
  running_call m m' guards (by_set_options opts after) =
      inl (After-throws _ _ m m' (guards.set_options_refused opts) after)
  running_call m m' guards (by_set_clock_resolution resolution after) =
      inl (After-throws _ _ m m' (guards.set_clock_resolution_refused resolution) after)
  running_call m m' guards (by_on_save f after) =
      inl (After-throws _ _ m m' (guards.on_save_refused f) after)
  running_call m m' guards (by_on_load f after) =
      inl (After-throws _ _ m m' (guards.on_load_refused f) after)
  running_call m m' guards (by_set_memory_controller none uuid after) =
      inl (After-throws _ _ m m' refl after)
  running_call m m' guards (by_set_memory_controller (some c) uuid after) =
      inl (After-throws _ _ m m' (guards.set_memory_controller_refused c uuid) after)
  running_call m m' guards (by_set_io_controller none after) =
      inl (After-throws _ _ m m' refl after)
  running_call m m' guards (by_set_io_controller (some c) after) =
      inl (After-throws _ _ m m' (guards.set_io_controller_refused c) after)
  running_call m m' guards (by_get_state after) =
      inl (After-throws _ _ m m' guards.get_state_refused after)
  running_call m m' guards (by_save spins after) =
      inl (After-throws _ _ m m' (guards.save_refused spins) after)
  running_call m m' guards (by_run fuel spins pc after) =
      inl (After-throws _ _ m m' (guards.run_refused fuel spins pc) after)
  running_call m m' guards (by_wait_for_completion fuel spins after) = inr (fuel, spins, after)

  -- A machine that runs and has no future stays as it is.
  lost_call :
      (m m' : Whole J W T Text) → Refuses env m → valid m.fut ≡ false → PublicCall env m m' → m' ≡ m
  unfolding wait_for_completion
  lost_call m m' guards gone call = elim (running_call m m' guards call) [
    | inl same ↦ same
    | inr (fuel, spins, after) ↦
        After-returns (wait_for_completion env fuel spins m) 0 m m' (if_not_taken_eq _ _ _ gone)
          after
  ]

  lost_history :
      (m m' : Whole J W T Text) → Refuses env m → valid m.fut ≡ false → History env m m' → m' ≡ m
  lost_history m m' guards gone no_call = refl
  lost_history m m' guards gone (then_call {m' = between} before call) =
      let same = lost_history m between guards gone before in
      lost_call m m' guards gone (subst (λ x. PublicCall env x m') same call)

  -- Whatever has been called on a machine since its constructor: if it runs and has no valid future,
  -- then no public operations, with whatever arguments, change anything of it, ever; and each but
  -- WaitForCompletion goes on to throw that the machine is running, or, where it sets a controller
  -- to a null one, that it is an invalid argument.
  pub lost-History :
      IsJson json
      → (m m' m'' : Whole J W T Text) → IsBuilt env m
      → History env m m'
      → is_running m' ≡ true
      → valid m'.fut ≡ false
      → History env m' m''
      → (m'' ≡ m') × Refuses env m''
  lost-History lawful m m' m'' built before running gone after =
      let sound = History-IsSound lawful env m m' built before in
      let ((memory, e), (io, e')) = sound.controllers_set running in
      let guards = running-Refuses env m' memory io running e e' in
      let same = lost_history m' m'' guards gone after in (same, subst⁻¹ (Refuses env) same guards)
