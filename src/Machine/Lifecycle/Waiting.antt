-- ===== src/Machine/Lifecycle/Waiting.antt =====
-- A `Run` whose loop is in another thread, and `WaitForCompletion`.
use mathlib.Core.Path.{subst⁻¹}
use mach_emu.Base.{ℕ, ◌+◌, ◌*◌, ◌≤◌, ◌<◌, ◌≡◌, refl, true, false, Option, inr}
use mach_emu.Base.Int.{ℤ, pos, above, ◌≤ℤ◌}
use mach_emu.Base.Results.{if_taken_eq}
use mach_emu.Bus.{idle}
use mach_emu.Controller.{Controller}
use mach_emu.CpuClock.{ErrorCode}
use mach_emu.CpuClock.Platform.{Host, IsMoving}
use mach_emu.Options.{clock_resolution, run_async}
use mach_emu.Options.Library.{Json}
use mach_emu.Utils.Libraries.{Coding}
use mach_emu.Machine.Handlers.{launched}
use mach_emu.Machine.Settings.{Settings, set_clock_resolution}
use mach_emu.Machine.Lifecycle.{Environment, Whole, returns, is_running, reset_machine}
use mach_emu.Machine.Lifecycle.Runs.{launch_loop, run, wait_for_completion}
use mach_emu.Machine.Lifecycle.Progress.{
  IsReady, Completes, launched_here, launched_here-IsTimely, reset-IsValid, run-launch_loop,
  get_future-Completes,
}

module _ {J W T Text : Type 0} ⦃host : Host T⦄ where
  -- The machine when its loop starts in another thread.
  abbrev pub launched_there :
      ℕ → Whole J W T Text → Settings J (Text → W → W) (W → Option Text × W) → Whole J W T Text
  launched_there pc m settings = record (launched_here pc m settings) { fut = launched }

module _ {J W T Text : Type 0} ⦃json : Json J⦄ ⦃host : Host T⦄ ⦃coding : Coding⦄
    (moving : IsMoving host) (env : Environment J W Text) (memory io : Controller W)
    (spins : ℕ) where
  -- In a build without assertions, of a machine that does not run, with an idle bus, both
  -- controllers set, a memory, a host and a load callback as the loop needs them, options that are
  -- read and say that the loop runs in another thread, and a clock that owes nothing and whose
  -- resolution the fuel exceeds, given an address below 65536: Run returns 0, with the machine reset
  -- and running, and WaitForCompletion then does not throw and is never stuck. Either it returns a
  -- time, and the machine does not run, has no valid future, an idle bus and a valid cpu; or the loop
  -- goes on when the fuel is spent, with a valid cpu, and nothing but a request of the machine on
  -- the bus.
  pub wait_for_completion-run :
      (fuel fuel' pc limit : ℕ) (m : Whole J W T Text) (resolution : ℤ)
      (x : ErrorCode × Settings J (Text → W → W) (W → Option Text × W))
      → is_running m ≡ false
      → m.state.bus ≡ idle
      → pc < 65536
      → m.state.cpu.opcode < 256
      → clock_resolution m.settings.options ≡ inr resolution
      → set_clock_resolution env.zlib env.files env.print_number env.isr_ticks resolution
          (reset_machine pc m).settings
        ≡ inr x
      → run_async x.1.options ≡ inr true
      → IsReady moving env memory io spins (launched_there pc m x.1)
      → m.settings.clock.error ≤ℤ pos 0
      → m.settings.clock.tick_count ≤ limit
      → above x.1.clock.total_ticks ≤ limit
      → (limit + 18) * m.settings.clock.time_period < spins
      → (run env fuel' spins pc m ≡ returns 0 (launched_there pc m x.1))
        × Completes (wait_for_completion env fuel spins (launched_there pc m x.1))
  unfolding reset_machine launch_loop wait_for_completion
  wait_for_completion-run fuel fuel' pc limit m resolution x stopped empty fits fits' e3 e4 e5 ready
        paid counted bounded enough =
      (
        run-launch_loop moving env memory io spins fuel' pc m resolution x true stopped
            ready.memory_set ready.io_set e3 e4 e5,
        subst⁻¹ Completes (if_taken_eq _ _ (returns 0 (launched_there pc m x.1)) refl) (
            get_future-Completes moving env memory io spins fuel (launched_there pc m x.1) ready
              empty (reset-IsValid pc m.state.cpu fits fits')
              (launched_here-IsTimely moving env memory io spins pc limit m resolution x e4 paid
                counted bounded enough)),
      )
