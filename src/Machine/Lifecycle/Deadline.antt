-- ===== src/Machine/Lifecycle/Deadline.antt =====
-- A `Run` in this thread, on a clock that is not synchronised, returns in time.
use mathlib.Core.Path.{subst⁻¹}
use mach_emu.Base.{ℕ, ◌+◌, ◌*◌, ◌≤◌, ◌<◌, ◌≡◌, refl, ap, ◌∙◌, false, Option, inr, arith}
use mach_emu.Base.Int.{ℤ, pos, negsuc, above, leb_ℤ, ◌≤ℤ◌}
use mach_emu.Bus.{idle}
use mach_emu.Controller.{Controller, IsMemory}
use mach_emu.Cpu.Valid.{IsValid}
use mach_emu.CpuClock
use mach_emu.CpuClock.{ErrorCode}
use mach_emu.CpuClock.Platform.{Host, IsMoving}
use mach_emu.Options.{clock_resolution, run_async}
use mach_emu.Options.Library.{Json}
use mach_emu.Utils.Libraries.{Coding}
use mach_emu.Machine.Controllers.Requests.{machine_process, machine_devices}
use mach_emu.Machine.Handlers.{valid, Session}
use mach_emu.Machine.Settings.{Settings, set_clock_resolution}
use mach_emu.Machine.Run.{RunEnd, powered_off, going_on, stuck}
use mach_emu.Machine.Run.Clock.{IsTimely}
use mach_emu.Machine.Run.Punctual.{IsPunctual}
use mach_emu.Machine.Run.Deadline.{IsOnTime, InTime, run_loop-InTime}
use mach_emu.Machine.Lifecycle.{Environment, Whole, Call, returns, is_running, reset_machine}
use mach_emu.Machine.Lifecycle.Runs.{session, loop_start, completed, clear_running, run}
use mach_emu.Machine.Lifecycle.Start.{set_clock_resolution-Same}
use mach_emu.Machine.Lifecycle.Progress.{
  IsReady, launched_here, reset-IsValid, get_future_lem, loop_start-IsGoing, run-get_future,
  launched_here-IsTimely,
}

negative_above : (a : ℤ) → leb_ℤ (pos 0) a ≡ false → above a ≡ 0
negative_above (pos n) h = ground arith
negative_above (negsuc n) h = refl

-- Run has returned a time that is not above the bound, from a machine that then does not run.
abbrev pub ReturnsBy : {J W T Text : Type 0} → ℕ → Call J W T Text ℕ → Type 0
ReturnsBy bound (returns t m) =
    (t ≤ bound)
    × (is_running m ≡ false)
    × (valid m.fut ≡ false)
    × (m.state.bus ≡ idle)
    × IsValid m.state.cpu
ReturnsBy bound _ = ⊥

module _ {J W T Text : Type 0} ⦃json : Json J⦄ ⦃host : Host T⦄ ⦃coding : Coding⦄
    (moving : IsMoving host) (env : Environment J W Text) (memory io : Controller W) (spins : ℕ)
    (deadline gap : ℕ) where
  IsInTime : Session W Text → ℤ → IsMemory memory → RunEnd W T Text → Type 0
  IsInTime s ticks_per_isr lawful =
      InTime ⦃p = machine_process memory io⦄ ⦃dev = machine_devices memory io lawful⦄ moving
        env.zlib env.format env.print env.parse io s ticks_per_isr spins deadline gap

  completed-ReturnsBy :
      (m : Whole J W T Text) (x : RunEnd W T Text) (s : Session W Text) (ticks_per_isr : ℤ)
      (lawful : IsMemory memory)
      → IsInTime s ticks_per_isr lawful x
      → ReturnsBy (deadline + gap) (clear_running env (completed env m x))
  unfolding completed clear_running IsInTime
  completed-ReturnsBy m (powered_off t) s ticks_per_isr lawful (empty, h, _, told) =
      (told, refl, refl, empty, h)
  completed-ReturnsBy m (going_on t) s ticks_per_isr lawful late = late
  completed-ReturnsBy m stuck s ticks_per_isr lawful late = late

  launched_here-IsOnTime :
      (pc : ℕ) (m : Whole J W T Text) (resolution : ℤ)
      (x : ErrorCode × Settings J (Text → W → W) (W → Option Text × W))
      (ready : IsReady moving env memory io spins (launched_here pc m x.1))
      → m.state.bus ≡ idle
      → pc < 65536
      → m.state.cpu.opcode < 256
      → IsTimely moving spins x.1.clock (launched_here pc m x.1).host_state
      → leb_ℤ (pos 0) x.1.clock.total_ticks ≡ false
      → IsPunctual host io x.1.ticks_per_isr deadline gap
      → x.1.clock.epoch ≡ (host.now m.host_state).0
      → IsOnTime ⦃p = machine_process memory io⦄ ⦃dev = machine_devices memory io ready.lawful⦄
          moving env.zlib env.format env.print env.parse io
          (session env (launched_here pc m x.1) memory ready.async)
          x.1.ticks_per_isr
          spins
          deadline
          gap
          (loop_start env (launched_here pc m x.1))
  unfolding reset_machine CpuClock.reset
  launched_here-IsOnTime pc m resolution x ready empty fits fits' timely free punctual epoch =
      let before = moving.steady.now-le-at m.host_state in
      let after = moving.at-lt-now (host.now m.host_state).1 in
      record {
        going =
            loop_start-IsGoing moving env memory io spins (launched_here pc m x.1) ready empty
              (reset-IsValid pc m.state.cpu fits fits') timely;
        free = free;
        told_before = omega arith;
        since = omega (arith, epoch, before, after);
        soon = omega (arith, epoch, punctual.next_reading m.host_state);
      }

  -- In a build without assertions, of a machine that does not run, with an idle bus, both
  -- controllers set, a memory, a moving host and a load callback as the loop needs them, options
  -- that are read and say that the loop runs in this thread, and a clock that owes nothing and is
  -- not synchronised, with ticksPerIsr_ not positive, so that the io controller is asked after each
  -- instruction; where no reading of the host's clock is more than `gap` after the one before; with
  -- an io controller that answers with ISR::Quit whenever it is asked from the deadline on, until
  -- `gap` later, which is below 2 ^ 64 nanoseconds; given an address below 65536, fuel for two more
  -- instructions than the deadline has nanoseconds, and for the clock more than the time of the
  -- ticks that it has counted and of 18 more: whatever the program and the callbacks do, Run
  -- returns. The time that it returns is not above the deadline and `gap`, and the machine does not
  -- run, waits for nothing, has an idle bus and a valid cpu.
  pub run-ReturnsBy :
      (fuel pc : ℕ) (m : Whole J W T Text) (resolution : ℤ)
      (x : ErrorCode × Settings J (Text → W → W) (W → Option Text × W))
      → is_running m ≡ false
      → m.state.bus ≡ idle
      → pc < 65536
      → m.state.cpu.opcode < 256
      → clock_resolution m.settings.options ≡ inr resolution
      → set_clock_resolution env.zlib env.files env.print_number env.isr_ticks resolution
          (reset_machine pc m).settings
        ≡ inr x
      → run_async x.1.options ≡ inr false
      → IsReady moving env memory io spins (launched_here pc m x.1)
      → m.settings.clock.error ≤ℤ pos 0
      → (m.settings.clock.tick_count + 18) * m.settings.clock.time_period < spins
      → leb_ℤ (pos 0) x.1.clock.total_ticks ≡ false
      → IsPunctual host io x.1.ticks_per_isr deadline gap
      → deadline + 1 < fuel
      → ReturnsBy (deadline + gap) (run env fuel spins pc m)
  unfolding reset_machine CpuClock.reset IsInTime
  run-ReturnsBy fuel pc m resolution x stopped empty fits fits' e3 e4 e5 ready paid enough free
        punctual lasts =
      let m' = launched_here pc m x.1 in
      let s = session env m' memory ready.async in
      let timely =
        launched_here-IsTimely moving env memory io spins pc m.settings.clock.tick_count m
          resolution x e4 paid (omega arith)
          (omega (arith, negative_above x.1.clock.total_ticks free)) enough in
      let (same, _, _) =
        set_clock_resolution-Same env.isr_ticks env.zlib env.files env.print_number resolution
          (reset_machine pc m).settings x e4 in
      let epoch : x.1.clock.epoch ≡ (host.now m.host_state).0 = ap (λ c. c.epoch) same in
      let before = moving.steady.now-le-at m.host_state in
      let after = moving.at-lt-now (host.now m.host_state).1 in
      subst⁻¹ (ReturnsBy (deadline + gap))
        (run-get_future moving env memory io spins fuel pc m resolution x stopped ready.memory_set
            ready.io_set e3 e4 e5
          ∙ ap (clear_running env) (get_future_lem moving env memory io spins fuel m' ready))
        (completed-ReturnsBy m' _ s x.1.ticks_per_isr ready.lawful (
          run_loop-InTime ⦃p = machine_process memory io⦄
            ⦃dev = machine_devices memory io ready.lawful⦄ moving env.zlib env.format env.print
            env.parse io s x.1.ticks_per_isr spins deadline gap punctual ready.sound ready.lawful
            ready.enough_rounds ready.rom_fits ready.ram_fits fuel (loop_start env m')
            (launched_here-IsOnTime pc m resolution x ready empty fits fits' timely free punctual
              epoch)
            (omega (arith, epoch, before, after, lasts)) (omega (arith, lasts))))
