-- ===== src/Machine/Lifecycle/Completing.antt =====
-- How a `Run` ends, in this thread or in another.
use mathlib.Core.Path.{subst⁻¹}
use mathlib.Core.Bool.{true≢false}
use mach_emu.Base.{
  ℕ, if◌then◌else◌, ◌≡◌, refl, sym, ◌∙◌, Bool, true, false, Option, none, some, ◌⊎◌, inl, inr,
}
use mach_emu.Base.Int.{ℤ}
use mach_emu.Controller.{Controller}
use mach_emu.CpuClock.Platform.{Host}
use mach_emu.Options
use mach_emu.Options.Library.{Json}
use mach_emu.Utils.Libraries.{Coding}
use mach_emu.CpuClock.{ErrorCode}
use mach_emu.Machine.Settings as MachineSettings
use mach_emu.Machine.Settings.{Settings}
use mach_emu.Machine.Handlers.{not_valid, deferred, launched, valid}
use mach_emu.Machine.Lifecycle.Guards.{Refuses, running-Refuses}
use mach_emu.Base.Results.{if_not_taken_eq, if_cases}
use mach_emu.Machine.Run.{RunEnd, powered_off, going_on, stuck}
use mach_emu.Machine.Lifecycle.{
  of_settings, no_memory_controller, no_io_controller, Environment, Whole, Call, Thrown, returns,
  throws, is_running, reset_machine,
}
use mach_emu.Machine.Lifecycle.Runs.{
  run_clocked, run_resolution, run_checked, run, completed, future_result, get_future,
  clear_running, wait_for_completion, launch_loop,
}

module _ {J W T Text : Type 0} ⦃json : Json J⦄ ⦃host : Host T⦄ ⦃coding : Coding⦄
    (env : Environment J W Text) where
  -- The machine neither runs nor waits, is launched, or has been left running by an exception.
  abbrev Waits : Whole J W T Text → Type 0
  Waits m = (fuel spins : ℕ) → wait_for_completion env fuel spins m ≡ returns 0 m

  abbrev pub Settles : Call J W T Text ℕ → Type 0
  Settles (returns t m) =
      if is_running m then (t ≡ 0) × (m.fut ≡ launched) × Refuses env m else Waits m
  Settles (throws e m) = if is_running m then Refuses env m × Waits m else Waits m
  Settles _ = Unit

  Waits-fut : (m : Whole J W T Text) → valid m.fut ≡ false → Waits m
  unfolding wait_for_completion
  Waits-fut m gone fuel spins = if_not_taken_eq _ _ _ gone

  completed-Settles :
      (m : Whole J W T Text) (s : RunEnd W T Text) → Settles (clear_running env (completed env m s))
  unfolding completed clear_running
  completed-Settles m (powered_off s) = Waits-fut _ refl
  completed-Settles m (going_on s) = tt
  completed-Settles m stuck = tt

  -- An exception before the machine runs, and one after that.
  unlocked :
      (m : Whole J W T Text) (e : Thrown)
      → is_running m ≡ false
      → valid m.fut ≡ false
      → Settles (throws e m)
  unlocked m e idle gone =
      if_cases (is_running m) (λ on. absurd (true≢false (sym on ∙ idle))) (λ off. Waits-fut m gone)

  module _ (memory io : Controller W) where
    locked :
        (m : Whole J W T Text) (e : Thrown)
        → is_running m ≡ true
        → m.memory_controller ≡ some memory
        → m.io_controller ≡ some io
        → valid m.fut ≡ false
        → Settles (throws e m)
    locked m e running e1 e2 gone =
        if_cases (is_running m)
          (λ on. (running-Refuses env m memory io running e1 e2, Waits-fut m gone))
          (λ off. absurd (true≢false (sym running ∙ off)))

    future_result-Settles :
        (fuel spins : ℕ) (m : Whole J W T Text) (c c' : Option (Controller W))
        (async : Options.Failure ⊎ (Bool × Bool))
        → is_running m ≡ true
        → m.memory_controller ≡ some memory
        → m.io_controller ≡ some io
        → Settles (clear_running env (future_result env fuel spins m c c' async))
    unfolding future_result clear_running
    future_result-Settles fuel spins m none c' async running e1 e2 = tt
    future_result-Settles fuel spins m (some _) none async running e1 e2 = tt
    future_result-Settles fuel spins m (some _) (some _) (inl e) running e1 e2 =
        locked (record m { fut = not_valid }) (of_settings (MachineSettings.of_options e)) running
          e1 e2 refl
    future_result-Settles fuel spins m (some _) (some _) (inr async) running e1 e2 =
        completed-Settles m _

    launch_loop-Settles :
        (fuel spins : ℕ) (m : Whole J W T Text) (async : Options.Failure ⊎ Bool)
        → is_running m ≡ true
        → m.memory_controller ≡ some memory
        → m.io_controller ≡ some io
        → valid m.fut ≡ false
        → Settles (launch_loop env fuel spins m async)
    unfolding launch_loop get_future
    launch_loop-Settles fuel spins m (inl e) running e1 e2 gone =
        locked m (of_settings (MachineSettings.of_options e)) running e1 e2 gone
    launch_loop-Settles fuel spins m (inr true) running e1 e2 gone =
        if_cases (is_running m)
          (λ on. (refl, refl, running-Refuses env (record m { fut = launched }) memory io on e1 e2))
          (λ off. absurd (true≢false (sym running ∙ off)))
    launch_loop-Settles fuel spins m (inr false) running e1 e2 gone =
        future_result-Settles fuel spins (record m { fut = deferred }) _ _ _ running e1 e2

    run_clocked-Settles :
        (fuel spins : ℕ) (m : Whole J W T Text)
        (x : MachineSettings.Failure
          ⊎ (ErrorCode × Settings J (Text → W → W) (W → Option Text × W)))
        → is_running m ≡ false
        → m.memory_controller ≡ some memory
        → m.io_controller ≡ some io
        → valid m.fut ≡ false
        → Settles (run_clocked env fuel spins m x)
    unfolding run_clocked
    run_clocked-Settles fuel spins m (inl e) idle e1 e2 gone = unlocked m (of_settings e) idle gone
    run_clocked-Settles fuel spins m (inr r) idle e1 e2 gone =
        launch_loop-Settles fuel spins (record m { settings = record (r.1) { running = true } }) _
          refl e1 e2 gone

    run_resolution-Settles :
        (fuel spins : ℕ) (m : Whole J W T Text) (x : Options.Failure ⊎ ℤ)
        → is_running m ≡ false
        → m.memory_controller ≡ some memory
        → m.io_controller ≡ some io
        → valid m.fut ≡ false
        → Settles (run_resolution env fuel spins m x)
    unfolding run_resolution
    run_resolution-Settles fuel spins m (inl e) idle e1 e2 gone =
        unlocked m (of_settings (MachineSettings.of_options e)) idle gone
    run_resolution-Settles fuel spins m (inr r) idle e1 e2 gone =
        run_clocked-Settles fuel spins m _ idle e1 e2 gone

  -- Of a machine that neither runs nor waits for a loop, Run may not end; else it leaves the machine
  -- in one of these states. Either it does not run, and WaitForCompletion returns 0 at once; or Run
  -- has returned 0 and the loop is in another thread; or Run has thrown after it had set the flag,
  -- and WaitForCompletion, which returns 0 at once, does not clear that. In the last two, each
  -- other operation changes nothing and throws that the machine is running, or, of the two that set
  -- a controller, with a null one, that it is an invalid argument.
  pub run-Settles :
      (fuel spins pc : ℕ) (m : Whole J W T Text)
      → is_running m ≡ false
      → valid m.fut ≡ false
      → Settles (run env fuel spins pc m)
  unfolding run run_checked reset_machine
  run-Settles fuel spins pc m idle gone = checked m.memory_controller m.io_controller refl refl
    where
      checked :
          (c c' : Option (Controller W))
          → m.memory_controller ≡ c
          → m.io_controller ≡ c'
          → Settles (run_checked env fuel spins pc m c c')
      checked none c' e1 e2 = unlocked m no_memory_controller idle gone
      checked (some memory) none e1 e2 = unlocked m no_io_controller idle gone
      checked (some memory) (some io) e1 e2 =
          subst⁻¹ Settles (if_not_taken_eq _ _ _ idle)
            (run_resolution-Settles memory io fuel spins (reset_machine pc m) _ idle e1 e2 gone)
