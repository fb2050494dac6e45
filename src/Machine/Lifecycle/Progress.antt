-- ===== src/Machine/Lifecycle/Progress.antt =====
-- A `Run` in this thread of a machine that is set up.
use mathlib.Core.Path.{subst⁻¹}
use mach_emu.Base.{
  ℕ, ◌+◌, ◌*◌, ◌≤◌, ◌<◌, ◌≡◌, refl, ap, ◌∙◌, Bool, true, false, Option, some, inr, arith,
}
use mach_emu.Base.Int.{ℤ, pos, above, ◌≤ℤ◌}
use mach_emu.Base.Results.{if_not_taken_eq}
use mach_emu.Bus.{idle}
use mach_emu.Controller.{Controller, IsMemory}
use mach_emu.Cpu.State
use mach_emu.Cpu.State.{Intel8080}
use mach_emu.Cpu.Valid.{IsValid}
use mach_emu.Cpu.Valid.Step.{nothing}
use mach_emu.CpuClock
use mach_emu.CpuClock.{ErrorCode, CpuClock}
use mach_emu.CpuClock.Platform.{Host, IsMoving}
use mach_emu.Options.{clock_resolution, run_async, rom, ram}
use mach_emu.Options.Library.{Json}
use mach_emu.Utils.Libraries.{Coding}
use mach_emu.Machine.Controllers.Requests.{machine_process, machine_devices}
use mach_emu.Machine.Handlers.{valid, Session, deferred}
use mach_emu.Machine.Images.Blocks.{all_fit}
use mach_emu.Machine.Loop.Safety.{Between, awaits}
use mach_emu.Machine.Settings.{Settings, set_clock_resolution}
use mach_emu.Machine.Run.{RunEnd, powered_off, going_on, stuck, run_loop}
use mach_emu.Machine.Run.Clock.{IsTimely}
use mach_emu.Machine.Run.Answers.{IsSoundSession}
use mach_emu.Machine.Run.Progress.{IsGoing, Progresses, run_loop-Progresses}
use mach_emu.Machine.Lifecycle.{
  Environment, Whole, Call, returns, runs_on, is_running, callback_policies, if_read, reset_machine,
}
use mach_emu.Machine.Lifecycle.Runs.{
  session, loop_start, completed, clear_running, future_result, get_future, launch_loop,
  run_clocked, run_resolution, run_checked, run,
}
use mach_emu.Machine.Lifecycle.Start.{set_clock_resolution-Same}

pub reset-IsValid :
    (pc : ℕ) (cpu : Intel8080) → pc < 65536 → cpu.opcode < 256 → IsValid (State.reset pc cpu)
unfolding State.reset
reset-IsValid pc cpu fits fits' = record {
  pc_fits = fits;
  sp_fits = omega arith;
  opcode_fits = fits';
  one = refl;
  three = refl;
  five = refl;
}

-- Run has returned, from a machine that then does not run, or its loop goes on; it does not throw.
abbrev pub Completes : {J W T Text : Type 0} → Call J W T Text ℕ → Type 0
Completes (returns t m) =
    (is_running m ≡ false) × (valid m.fut ≡ false) × (m.state.bus ≡ idle) × IsValid m.state.cpu
Completes (runs_on s) = Between s.state.bus × IsValid s.state.cpu
Completes _ = ⊥

module _ {J W T Text : Type 0} ⦃host : Host T⦄ where
  -- The machine when its loop starts.
  abbrev pub launched_here :
      ℕ → Whole J W T Text → Settings J (Text → W → W) (W → Option Text × W) → Whole J W T Text
  launched_here pc m settings = record (reset_machine pc m) {
    settings = record settings { running = true };
    fut = deferred;
  }

module _ {J W T Text : Type 0} ⦃json : Json J⦄ ⦃host : Host T⦄ ⦃coding : Coding⦄
    (moving : IsMoving host) (env : Environment J W Text) (memory io : Controller W)
    (spins : ℕ) where
  -- The machine can start its loop: its options are read, the blocks and the callback are as the loop
  -- needs them.
  pub record IsReady (m : Whole J W T Text) : Type 0 where
    pub release : env.asserts ≡ false
    pub lawful : IsMemory memory
    pub memory_set : m.memory_controller ≡ some memory
    pub io_set : m.io_controller ≡ some io
    pub async : Bool × Bool
    pub policies_read : callback_policies m.settings.options ≡ inr async
    pub rom_fits : all_fit (if_read (rom m.settings.options)) ≡ true
    pub ram_fits : all_fit (if_read (ram m.settings.options)) ≡ true
    pub sound : IsSoundSession (session env m memory async) env.format env.parse
    pub enough_rounds : 65535 < spins

  -- An end of the loop in which the machine's is safe.
  IsEnd : IsMemory memory → Session W Text → ℤ → RunEnd W T Text → Type 0
  IsEnd lawful s ticks_per_isr =
      Progresses ⦃p = machine_process memory io⦄ ⦃dev = machine_devices memory io lawful⦄ moving
        env.zlib env.format env.print env.parse io s ticks_per_isr spins

  completed-Completes :
      (m : Whole J W T Text) (x : RunEnd W T Text) (lawful : IsMemory memory) (s : Session W Text)
      (ticks_per_isr : ℤ)
      → IsEnd lawful s ticks_per_isr x
      → Completes (clear_running env (completed env m x))
  unfolding completed clear_running IsEnd
  completed-Completes m (powered_off t) lawful s ticks_per_isr (empty, h, _) =
      (refl, refl, empty, h)
  completed-Completes m (going_on t) lawful s ticks_per_isr h = (h.between, h.valid_cpu)
  completed-Completes m stuck lawful s ticks_per_isr refused = refused

  -- What the future of a machine that is ready gives.
  pub get_future_lem :
      (fuel : ℕ) (m : Whole J W T Text) (ready : IsReady m)
      → get_future env fuel spins m
        ≡ completed env m (
            run_loop ⦃p = machine_process memory io⦄ false env.zlib env.format env.print env.parse
              io
              (session env m memory ready.async)
              m.settings.ticks_per_isr
              spins
              fuel
              (loop_start env m))
  unfolding get_future future_result
  get_future_lem fuel m ready =
      (λ i.
        future_result env fuel spins m (ready.memory_set i) (ready.io_set i)
          (ready.policies_read i))
      ∙ ap
          (λ b. completed env m (
            run_loop ⦃p = machine_process memory io⦄ b env.zlib env.format env.print env.parse io
              (session env m memory ready.async) m.settings.ticks_per_isr spins fuel
              (loop_start env m)))
          ready.release

  -- The state at the start of its loop.
  pub loop_start-IsGoing :
      (m : Whole J W T Text) (ready : IsReady m)
      → m.state.bus ≡ idle
      → IsValid m.state.cpu
      → IsTimely moving spins m.settings.clock m.host_state
      → IsGoing ⦃p = machine_process memory io⦄ ⦃dev = machine_devices memory io ready.lawful⦄
          moving env.zlib env.format env.print env.parse io
          (session env m memory ready.async)
          m.settings.ticks_per_isr
          spins
          (loop_start env m)
  loop_start-IsGoing m ready empty h timely = record {
    valid_cpu = h;
    between = subst⁻¹ Between empty (awaits nothing);
    timely = timely;
    exclusive = (refl, refl, refl);
    settled = λ stops. (refl, refl);
  }

  pub get_future-Completes :
      (fuel : ℕ) (m : Whole J W T Text)
      → IsReady m
      → m.state.bus ≡ idle
      → IsValid m.state.cpu
      → IsTimely moving spins m.settings.clock m.host_state
      → Completes (clear_running env (get_future env fuel spins m))
  unfolding IsEnd
  get_future-Completes fuel m ready empty h timely =
      let s = session env m memory ready.async in
      subst⁻¹ (λ c. Completes (clear_running env c)) (get_future_lem fuel m ready)
        (completed-Completes m _ ready.lawful s m.settings.ticks_per_isr (
          run_loop-Progresses ⦃p = machine_process memory io⦄
            ⦃dev = machine_devices memory io ready.lawful⦄ moving env.zlib env.format env.print
            env.parse io s m.settings.ticks_per_isr spins ready.sound ready.lawful
            ready.enough_rounds ready.rom_fits ready.ram_fits fuel (loop_start env m)
            (loop_start-IsGoing m ready empty h timely)))

  -- Run of a machine that is set up, up to where its loop is launched.
  pub run-launch_loop :
      (fuel pc : ℕ) (m : Whole J W T Text) (resolution : ℤ)
      (x : ErrorCode × Settings J (Text → W → W) (W → Option Text × W)) (async : Bool)
      → is_running m ≡ false
      → m.memory_controller ≡ some memory
      → m.io_controller ≡ some io
      → clock_resolution m.settings.options ≡ inr resolution
      → set_clock_resolution env.zlib env.files env.print_number env.isr_ticks resolution
          (reset_machine pc m).settings
        ≡ inr x
      → run_async x.1.options ≡ inr async
      → run env fuel spins pc m
        ≡ launch_loop env fuel spins
            (record (reset_machine pc m) { settings = record (x.1) { running = true } })
            (inr async)
  unfolding run run_checked run_resolution run_clocked reset_machine
  run-launch_loop fuel pc m resolution x async stopped e1 e2 e3 e4 e5 =
      (λ i. run_checked env fuel spins pc m (e1 i) (e2 i))
      ∙ if_not_taken_eq _ _ _ stopped
      ∙ (λ i. run_resolution env fuel spins (reset_machine pc m) (e3 i))
      ∙ (λ i. run_clocked env fuel spins (reset_machine pc m) (e4 i))
      ∙ (λ i.
          launch_loop env fuel spins
            (record (reset_machine pc m) { settings = record (x.1) { running = true } }) (e5 i))

  pub run-get_future :
      (fuel pc : ℕ) (m : Whole J W T Text) (resolution : ℤ)
      (x : ErrorCode × Settings J (Text → W → W) (W → Option Text × W))
      → is_running m ≡ false
      → m.memory_controller ≡ some memory
      → m.io_controller ≡ some io
      → clock_resolution m.settings.options ≡ inr resolution
      → set_clock_resolution env.zlib env.files env.print_number env.isr_ticks resolution
          (reset_machine pc m).settings
        ≡ inr x
      → run_async x.1.options ≡ inr false
      → run env fuel spins pc m
        ≡ clear_running env (get_future env fuel spins (launched_here pc m x.1))
  unfolding launch_loop reset_machine
  run-get_future fuel pc m resolution x stopped e1 e2 e3 e4 e5 =
      run-launch_loop fuel pc m resolution x false stopped e1 e2 e3 e4 e5

  -- The clock when the loop starts.
  pub launched_here-IsTimely :
      (pc limit : ℕ) (m : Whole J W T Text) (resolution : ℤ)
      (x : ErrorCode × Settings J (Text → W → W) (W → Option Text × W))
      → set_clock_resolution env.zlib env.files env.print_number env.isr_ticks resolution
          (reset_machine pc m).settings
        ≡ inr x
      → m.settings.clock.error ≤ℤ pos 0
      → m.settings.clock.tick_count ≤ limit
      → above x.1.clock.total_ticks ≤ limit
      → (limit + 18) * m.settings.clock.time_period < spins
      → IsTimely moving spins x.1.clock (launched_here pc m x.1).host_state
  unfolding reset_machine CpuClock.reset
  launched_here-IsTimely pc limit m resolution x e paid counted bounded enough =
      let (same, _, _) =
        set_clock_resolution-Same env.isr_ticks env.zlib env.files env.print_number resolution
          (reset_machine pc m).settings x e in
      subst⁻¹ (λ c. IsTimely moving spins c (host.now m.host_state).1) same
        record {
          sampled = moving.steady.now-le-at m.host_state;
          paid = paid;
          limit = limit;
          counted = counted;
          resolution = bounded;
          enough = enough;
        }

  -- In a build without assertions, of a machine that does not run, with an idle bus, both
  -- controllers set, a memory, a host and a load callback as the loop needs them, options that
  -- are read and say that the loop runs in this thread, and a clock that owes nothing and whose
  -- resolution the fuel exceeds, given an address below 65536: Run does not throw and is never
  -- stuck. Either it returns a time, and the machine does not run, waits for nothing, has an
  -- idle bus and a valid cpu; or its loop goes on when the fuel is spent, with a valid cpu, and
  -- nothing but a request of the machine on the bus.
  pub run-Completes :
      (fuel pc limit : ℕ) (m : Whole J W T Text) (resolution : ℤ)
      (x : ErrorCode × Settings J (Text → W → W) (W → Option Text × W))
      → is_running m ≡ false
      → m.state.bus ≡ idle
      → pc < 65536
      → m.state.cpu.opcode < 256
      → clock_resolution m.settings.options ≡ inr resolution
      → set_clock_resolution env.zlib env.files env.print_number env.isr_ticks resolution
          (reset_machine pc m).settings
        ≡ inr x
      → run_async x.1.options ≡ inr false
      → IsReady (launched_here pc m x.1)
      → m.settings.clock.error ≤ℤ pos 0
      → m.settings.clock.tick_count ≤ limit
      → above x.1.clock.total_ticks ≤ limit
      → (limit + 18) * m.settings.clock.time_period < spins
      → Completes (run env fuel spins pc m)
  unfolding reset_machine
  run-Completes fuel pc limit m resolution x stopped empty fits fits' e3 e4 e5 ready paid counted
        bounded enough =
      subst⁻¹ Completes
        (run-get_future fuel pc m resolution x stopped ready.memory_set ready.io_set e3 e4 e5)
        (get_future-Completes fuel (launched_here pc m x.1) ready empty
          (reset-IsValid pc m.state.cpu fits fits')
          (launched_here-IsTimely pc limit m resolution x e4 paid counted bounded enough))
