-- ===== src/Machine/Run/Deadline.antt =====
-- A loop on a clock that is not synchronised ends in time, with an io controller that quits at a
-- deadline.
use mathlib.Core.Path.{subst⁻¹}
use mach_emu.Base.{
  ℕ, zero, suc, ◌+◌, ◌-◌, ◌≤◌, ◌<◌, ◌≡◌, refl, ap, ◌∙◌, Bool, true, false, ◌||◌, leb, if◌then◌else◌,
  Bool-cases, Option, none, some, inl, inr, arith,
}
use mach_emu.Base.Results.{if_taken_eq}
use mach_emu.Base.Int.{ℤ, pos, minus, leb_ℤ}
use mach_emu.Bus.{idle, power_off, receive_control}
use mach_emu.Controller.{Controller, IsMemory}
use mach_emu.Cpu.State.{Process, St}
use mach_emu.Cpu.Execute.{execute}
use mach_emu.Cpu.Protocol.{Devices}
use mach_emu.Cpu.Snapshot.{Format}
use mach_emu.Cpu.Valid.{IsValid}
use mach_emu.Cpu.Valid.Step.{Runs, execute-Runs}
use mach_emu.CpuClock.Platform.{Host, IsMoving}
use mach_emu.Utils.Libraries.{Coding}
use mach_emu.Machine.Images.{Document}
use mach_emu.Machine.Images.Blocks.{all_fit}
use mach_emu.Machine.Loop.{signal}
use mach_emu.Machine.Loop.Safety.{stopping, receive-Between}
use mach_emu.Machine.Handlers.{Session, valid}
use mach_emu.Machine.Run.{
  RunSt, RunEnd, powered_off, to_uint64, continue_run, resume, serve_interrupts, after_tick,
  after_cpu, run_iteration, run_loop,
}
use mach_emu.Machine.Run.Answers.{IsSoundSession, answer-Answered}
use mach_emu.Machine.Run.Progress.{IsGoing, Continues, run_iteration-Continues}
use mach_emu.Machine.Run.Punctual.{
  to_uint64-minus, tick_free, always, quit_signal, receive_stopping, IsPunctual,
}

-- The build has no assertions.
module _ {W T Text : Type 0} ⦃p : Process W⦄ ⦃dev : Devices W⦄ ⦃host : Host T⦄ ⦃coding : Coding⦄
    (moving : IsMoving host) (zlib : Bool) (format : Format Text) (print : Document Text → Text)
    (parse : Text → Option (Document Text)) (io : Controller W) (m : Session W Text)
    (ticks_per_isr : ℤ) (spins : ℕ) (deadline gap : ℕ) where
  -- What an iteration makes of the clock, the time and the bus.
  record Stepped (s t : RunSt W T Text) : Type 0 where
    same_resolution : t.clock.total_ticks ≡ s.clock.total_ticks
    same_epoch : t.clock.epoch ≡ s.clock.epoch
    next_host : t.host_state ≡ (host.now s.host_state).1
    told : t.curr_time ≡ minus (host.now s.host_state).0 s.clock.epoch
    stops : s.clock.epoch + deadline ≤ (host.now s.host_state).0 → t.state.bus ≡ stopping

  abbrev Steps : RunSt W T Text → Option (RunSt W T Text) → Type 0
  Steps s none = ⊥
  Steps s (some t) = Stepped s t

  -- Between two iterations, with the next reading of the clock.
  pub record IsOnTime (s : RunSt W T Text) : Type 0 where
    pub going : IsGoing moving zlib format print parse io m ticks_per_isr spins s
    pub free : leb_ℤ (pos 0) s.clock.total_ticks ≡ false
    pub told_before : to_uint64 s.curr_time ≤ deadline + gap
    pub since : s.clock.epoch ≤ (host.now s.host_state).0
    pub soon : (host.now s.host_state).0 ≤ s.clock.epoch + (deadline + gap)

  -- Ended by PowerOff, and not later than the last reading before the deadline and one more.
  abbrev pub InTime : RunEnd W T Text → Type 0
  InTime (powered_off s) =
      (s.state.bus ≡ idle)
      × IsValid s.state.cpu
      × ((valid s.pending.on_load || valid s.pending.on_save) ≡ false)
      × (to_uint64 s.curr_time ≤ deadline + gap)
  InTime _ = ⊥

  module _ (punctual : IsPunctual host io ticks_per_isr deadline gap)
      (sound : IsSoundSession m format parse) (lawful : IsMemory m.memory) (enough : 65535 < spins)
      (rom_fits : all_fit m.rom ≡ true) (ram_fits : all_fit m.ram ≡ true) where
    serve_interrupts-Steps :
        (s s' : RunSt W T Text)
        → IsOnTime s
        → s'.state.bus ≡ idle
        → s'.clock.total_ticks ≡ s.clock.total_ticks
        → s'.clock.epoch ≡ s.clock.epoch
        → s'.host_state ≡ (host.now s.host_state).1
        → s'.curr_time ≡ minus (host.now s.host_state).0 s.clock.epoch
        → Steps s (serve_interrupts false zlib format print parse io m ticks_per_isr spins s')
    unfolding serve_interrupts resume
    serve_interrupts-Steps s s' on_time empty e1 e2 e3 e4 =
        let time = to_uint64 s'.curr_time in
        let r = io.service_interrupts time s'.total_ticks s'.state.world in
        let n = (host.now s.host_state).0 in
        let told : time ≡ n - s.clock.epoch =
          ap to_uint64 e4
          ∙ to_uint64-minus n s.clock.epoch (deadline + gap) on_time.since on_time.soon
              punctual.fits in
        let (q, t, e, kept, _) =
          answer-Answered m format zlib print parse sound lawful spins enough rom_fits ram_fits r.0
            s'.pending (record (s'.state) { world = r.1 }) in
        rw e record {
          same_resolution = e1;
          same_epoch = e2;
          next_host = e3;
          told = e4;
          stops = λ late.
              kept.bus_eq
              ∙ ap (signal r.0) empty
              ∙ ap (λ isr. signal isr idle)
                  (punctual.quits time s'.total_ticks s'.state.world (omega (arith, told, late))
                    (omega (arith, told, on_time.soon, on_time.since)))
              ∙ quit_signal;
        }

    after_cpu-Steps :
        (s : RunSt W T Text) (x : Option (ℕ × St W))
        → IsOnTime s
        → Runs x
        → Steps s (after_cpu false zlib format print parse io m ticks_per_isr spins s x)
    unfolding after_cpu after_tick
    after_cpu-Steps s none on_time refused = refused
    after_cpu-Steps s (some (ticks, st)) on_time (empty, h, few) =
        let n = host.now s.host_state in
        let t = minus n.0 s.clock.epoch in
        let s' = record s {
          state = st;
          clock = record (s.clock) { last_time = n.0; time = t };
          host_state = n.1;
          curr_time = t;
          total_ticks = s.total_ticks + ticks;
        } in
        subst⁻¹ (Steps s)
          (ap
              (after_tick false zlib format print parse io m ticks_per_isr spins ticks
                (record s { state = st }))
              (tick_free spins ticks s.clock s.host_state on_time.free)
            ∙ if_taken_eq _ _ _
                (always ticks_per_isr (s.total_ticks + ticks - s.last_ticks) punctual.always_due))
          (serve_interrupts-Steps s s' on_time empty refl refl refl refl)

    stop_now :
        (fuel : ℕ) (s : RunSt W T Text)
        → IsGoing moving zlib format print parse io m ticks_per_isr spins s
        → s.state.bus ≡ stopping
        → to_uint64 s.curr_time ≤ deadline + gap
        → InTime (run_loop false zlib format print parse io m ticks_per_isr spins (suc fuel) s)
    unfolding run_loop
    stop_now fuel s going stops told =
        let (loaded, saved) = going.settled stops in
        subst⁻¹
          (λ r. InTime (
            let s' = record s { state = record (s.state) { bus = r.1 } } in
            if r.0
            then powered_off s'
            else continue_run (run_loop false zlib format print parse io m ticks_per_isr spins fuel)
                (run_iteration false zlib format print parse io m ticks_per_isr spins s')))
          (ap (receive_control power_off) stops ∙ receive_stopping)
          (refl, going.valid_cpu, rw (loaded, saved) refl, told)

    -- After an iteration that did not stop the loop.
    still-IsOnTime :
        (s t : RunSt W T Text)
        → IsOnTime s
        → Stepped s t
        → IsGoing moving zlib format print parse io m ticks_per_isr spins t
        → (host.now s.host_state).0 < s.clock.epoch + deadline
        → IsOnTime t × ((host.now s.host_state).0 < (host.now t.host_state).0)
    still-IsOnTime s t on_time step going early =
        let n = (host.now s.host_state).0 in
        let h' = (host.now s.host_state).1 in
        let same = ap (λ h. (host.now h).0) step.next_host in
        let later = moving.steady.now-le-at s.host_state in
        let later' = moving.at-lt-now h' in
        let within = punctual.next_reading s.host_state in
        let told =
          ap to_uint64 step.told
          ∙ to_uint64-minus n s.clock.epoch (deadline + gap) on_time.since on_time.soon
              punctual.fits in
        (
          record {
            going = going;
            free = ap (leb_ℤ (pos 0)) step.same_resolution ∙ on_time.free;
            told_before = omega (arith, told, on_time.soon, on_time.since);
            since = omega (arith, same, step.same_epoch, later, later', on_time.since);
            soon = omega (arith, same, step.same_epoch, within, early);
          },
          omega (arith, same, later, later'),
        )

    continue_run-InTime :
        (fuel : ℕ) (s : RunSt W T Text) (x : Option (RunSt W T Text))
        → IsOnTime s
        → s.clock.epoch + deadline + 1 < (host.now s.host_state).0 + suc fuel
        → 0 < fuel
        → Continues moving zlib format print parse io m ticks_per_isr spins x
        → Steps s x
        → ((t : RunSt W T Text)
            → IsOnTime t
            → t.clock.epoch + deadline + 1 < (host.now t.host_state).0 + fuel
            → 1 < fuel
            → InTime (run_loop false zlib format print parse io m ticks_per_isr spins fuel t))
        → InTime
            (continue_run (run_loop false zlib format print parse io m ticks_per_isr spins fuel) x)
    unfolding continue_run
    continue_run-InTime fuel s none on_time reaches one going step loop = going
    continue_run-InTime zero s (some t) on_time reaches one going step loop = absurd (omega arith)
    continue_run-InTime (suc fuel) s (some t) on_time reaches one going step loop =
        let n = (host.now s.host_state).0 in
        let told : to_uint64 t.curr_time ≡ n - s.clock.epoch =
          ap to_uint64 step.told
          ∙ to_uint64-minus n s.clock.epoch (deadline + gap) on_time.since on_time.soon
              punctual.fits in
        elim (Bool-cases (leb (s.clock.epoch + deadline) n)) [
          | inl late ↦
              stop_now fuel t going (step.stops (ground (arith, late)))
                (omega (arith, told, on_time.soon, on_time.since))
          | inr early ↦
              let (on_time', more) =
                still-IsOnTime s t on_time step going (ground (arith, early)) in
              loop t on_time' (omega (arith, more, step.same_epoch, reaches))
                (ground (arith, reaches, early))
        ]

    -- The loop, from a state where the fuel allows for each nanosecond up to the deadline.
    pub run_loop-InTime :
        (fuel : ℕ) (s : RunSt W T Text)
        → IsOnTime s
        → s.clock.epoch + deadline + 1 < (host.now s.host_state).0 + fuel
        → 1 < fuel
        → InTime (run_loop false zlib format print parse io m ticks_per_isr spins fuel s)
    unfolding run_loop run_iteration
    run_loop-InTime zero s on_time reaches two = absurd (omega arith)
    run_loop-InTime (suc fuel) s on_time reaches two =
        elim (receive-Between on_time.going.between) [
          | inl (off, stops) ↦ stop_now fuel s on_time.going stops on_time.told_before
          | inr (on, waiting) ↦ rw on (
              continue_run-InTime fuel s _ on_time reaches (omega arith)
                (run_iteration-Continues moving zlib format print parse io m ticks_per_isr spins
                  sound lawful enough rom_fits ram_fits s on_time.going waiting)
                (after_cpu-Steps s (execute false s.state) on_time
                  (execute-Runs s.state.cpu s.state.world on_time.going.valid_cpu waiting))
                (run_loop-InTime fuel))
        ]
