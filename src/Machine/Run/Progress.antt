-- ===== src/Machine/Run/Progress.antt =====
-- The loop of Machine/Run.antt goes on until it is asked to quit, whatever the callbacks do.
use mathlib.Core.Path.{subst}
use mathlib.Core.Bool.{true≢false}
use mach_emu.Base.{
  ℕ, zero, suc, ◌+◌, ◌<◌, ◌≡◌, ◌≢◌, refl, sym, ap, ◌∙◌, Bool, true, false, ◌||◌, ◌==◌, ltb,
  Bool-cases, Option, none, some, inl, inr,
}
use mach_emu.Base.Int.{ℤ}
use mach_emu.Bus.{idle, power_off, send_control, send_data, receive_control}
use mach_emu.Controller.{Controller, IsMemory, isr_quit}
use mach_emu.Cpu.State.{Process, St}
use mach_emu.Cpu.Execute.{execute}
use mach_emu.Cpu.Protocol.{Devices}
use mach_emu.Cpu.Snapshot.{Format}
use mach_emu.Cpu.Valid.{IsValid}
use mach_emu.Cpu.Valid.Step.{Awaits, nothing, Runs, execute-Runs}
use mach_emu.CpuClock.Platform.{Host, IsMoving}
use mach_emu.Utils.Libraries.{Coding}
use mach_emu.Machine.Images.{Document}
use mach_emu.Machine.Images.Blocks.{all_fit}
use mach_emu.Machine.Loop.{signal}
use mach_emu.Machine.Loop.Safety.{stopping, Between, awaits, signal-Between, receive-Between}
use mach_emu.Machine.Handlers.{Session, valid}
use mach_emu.Machine.Handlers.Exclusion.{IsExclusive}
use mach_emu.Machine.Handlers.Reachable.{answer-IsExclusive}
use mach_emu.Machine.Run.{
  RunSt, RunEnd, powered_off, going_on, stuck, to_uint64, continue_run, is_due, resume,
  serve_interrupts, after_tick, after_cpu, run_iteration, run_loop,
}
use mach_emu.Machine.Run.Clock.{IsTimely, tick-Ticked}
use mach_emu.Machine.Run.Answers.{IsSoundSession, answer-Answered}

-- Only `ISR::Quit` stops the machine.
signal-stopping : (isr : ℕ) → signal isr idle ≡ stopping → (isr == isr_quit) ≡ true
unfolding signal stopping send_control send_data receive_control
signal-stopping isr = elim (Bool-cases (isr == isr_quit)) [
  | inl quit ↦ λ _. quit
  | inr other ↦ elim (Bool-cases (ltb isr 8)) [
    | inl vector ↦ rw (vector, other) (λ h. ap (λ b. (receive_control power_off b).0) h)
    | inr no_vector ↦ rw (no_vector, other) (λ h. ap (λ b. (receive_control power_off b).0) h)
  ]
]

idle-ne-stopping : idle ≢ stopping
unfolding stopping send_control receive_control
idle-ne-stopping h = true≢false (sym (ap (λ b. (receive_control power_off b).0) h))

-- The build has no assertions.
module _ {W T Text : Type 0} ⦃p : Process W⦄ ⦃dev : Devices W⦄ ⦃host : Host T⦄ ⦃coding : Coding⦄
    (moving : IsMoving host) (zlib : Bool) (format : Format Text) (print : Document Text → Text)
    (parse : Text → Option (Document Text)) (io : Controller W) (m : Session W Text)
    (ticks_per_isr : ℤ) (spins : ℕ) where
  -- Between two iterations: the cpu is valid, nothing but a request of the machine is on the bus,
  -- the clock is not behind, a load and a save are not both pending, and nothing is pending when the
  -- machine is about to stop.
  pub record IsGoing (s : RunSt W T Text) : Type 0 where
    pub valid_cpu : IsValid s.state.cpu
    pub between : Between s.state.bus
    pub timely : IsTimely moving spins s.clock s.host_state
    pub exclusive : IsExclusive m s.pending
    pub settled :
        s.state.bus ≡ stopping
        → (valid s.pending.on_load ≡ false) × (valid s.pending.on_save ≡ false)

  -- Ended by PowerOff, or going on; never stuck.
  abbrev pub Progresses : RunEnd W T Text → Type 0
  Progresses (powered_off s) =
      (s.state.bus ≡ idle)
      × IsValid s.state.cpu
      × ((valid s.pending.on_load || valid s.pending.on_save) ≡ false)
  Progresses (going_on s) = IsGoing s
  Progresses stuck = ⊥

  abbrev pub Continues : Option (RunSt W T Text) → Type 0
  Continues none = ⊥
  Continues (some s) = IsGoing s

  module _ (sound : IsSoundSession m format parse) (lawful : IsMemory m.memory)
      (enough : 65535 < spins) (rom_fits : all_fit m.rom ≡ true)
      (ram_fits : all_fit m.ram ≡ true) where
    serve_interrupts-Continues :
        (s : RunSt W T Text)
        → s.state.bus ≡ idle
        → IsValid s.state.cpu
        → IsTimely moving spins s.clock s.host_state
        → IsExclusive m s.pending
        → Continues (serve_interrupts false zlib format print parse io m ticks_per_isr spins s)
    unfolding serve_interrupts resume
    serve_interrupts-Continues s empty h timely alone =
        let r = io.service_interrupts (to_uint64 s.curr_time) s.total_ticks s.state.world in
        let s' = record (s.state) { world = r.1 } in
        let (q, t, e, kept, quit) =
          answer-Answered m format zlib print parse sound lawful spins enough rom_fits ram_fits r.0
            s.pending s' in
        let bus_eq = kept.bus_eq ∙ ap (signal r.0) empty in
        rw e record {
          valid_cpu = kept.stays_valid h;
          between = subst Between (sym bus_eq) (signal-Between r.0);
          timely = timely;
          exclusive =
              answer-IsExclusive m format zlib print parse spins r.0 s.pending q s' t alone e;
          settled = λ stops. quit (signal-stopping r.0 (sym bus_eq ∙ stops));
        }

    after_cpu-Continues :
        (s : RunSt W T Text) (x : Option (ℕ × St W))
        → Runs x
        → IsTimely moving spins s.clock s.host_state
        → IsExclusive m s.pending
        → Continues (after_cpu false zlib format print parse io m ticks_per_isr spins s x)
    unfolding after_cpu after_tick
    after_cpu-Continues s none refused timely alone = absurd refused
    after_cpu-Continues s (some (ticks, st)) (empty, h, few) timely alone =
        let (t, c, host', e, timely') =
          tick-Ticked moving spins ticks s.clock s.host_state few timely in
        let s' = record s {
          state = st;
          clock = c;
          host_state = host';
          curr_time = t;
          total_ticks = s.total_ticks + ticks;
        } in
        elim (Bool-cases (is_due false zlib format print parse io m ticks_per_isr spins s')) [
          | inl due ↦ rw (e, due) (serve_interrupts-Continues s' empty h timely' alone)
          | inr not_yet ↦
              rw (e, not_yet)
                record {
                  valid_cpu = h;
                  between = subst Between (sym empty) (awaits nothing);
                  timely = timely';
                  exclusive = alone;
                  settled = λ stops. absurd (idle-ne-stopping (sym empty ∙ stops));
                }
        ]

    pub run_iteration-Continues :
        (s : RunSt W T Text)
        → IsGoing s
        → Awaits s.state.bus
        → Continues (run_iteration false zlib format print parse io m ticks_per_isr spins s)
    unfolding run_iteration
    run_iteration-Continues s going waiting =
        after_cpu-Continues s (execute false s.state)
          (execute-Runs s.state.cpu s.state.world going.valid_cpu waiting) going.timely
          going.exclusive

    continue_run-Progresses :
        (loop : RunSt W T Text → RunEnd W T Text) (x : Option (RunSt W T Text))
        → ((s : RunSt W T Text) → IsGoing s → Progresses (loop s))
        → Continues x
        → Progresses (continue_run loop x)
    unfolding continue_run
    continue_run-Progresses loop none good refused = absurd refused
    continue_run-Progresses loop (some s) good going = good s going

    -- In a build without assertions, on a host whose clock moves, with a memory that keeps its
    -- bytes, blocks of rom and ram, if the options give them, that end below 65536, and a load callback whose texts are
    -- refused or keep the bits of the status that are no flags: from a valid cpu, a bus that
    -- is idle or holds a request of the machine, a clock that owes nothing and whose
    -- resolution the fuel exceeds, and futures of which at most one is pending and none when
    -- the machine is to stop, the loop, with its clock and its handlers, has no iteration that
    -- does not end. After any number of them all this holds again, or PowerOff has ended the
    -- loop, with the bus idle, the cpu valid, and neither a load nor a save pending.
    pub run_loop-Progresses :
        (fuel : ℕ) (s : RunSt W T Text)
        → IsGoing s
        → Progresses (run_loop false zlib format print parse io m ticks_per_isr spins fuel s)
    unfolding run_loop
    run_loop-Progresses zero s going = going
    run_loop-Progresses (suc fuel) s going = elim (receive-Between going.between) [
      | inl (off, stops) ↦
          let (loaded, saved) = going.settled stops in
          rw (off, loaded, saved) (refl, going.valid_cpu, refl)
      | inr (on, waiting) ↦ rw on (
          continue_run-Progresses _ _ (run_loop-Progresses fuel)
            (run_iteration-Continues s going waiting))
    ]
