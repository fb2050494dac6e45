-- ===== src/Machine/Loop/Quit.antt =====
-- How `ISR::Quit` ends the loop of `Machine::Run`.
use mach_emu.Base.{
  ℕ, suc, ◌+◌, ◌-◌, ◌≡◌, refl, false, leb, if◌then◌else◌, Option, none, some, Bool-cases, inl, inr,
}
use mach_emu.Bus.{idle, send_control, receive_control}
use mach_emu.Cpu.State.{Process, St}
use mach_emu.Cpu.Execute.{execute}
use mach_emu.Cpu.Protocol.{Devices}
use mach_emu.Cpu.Valid.{IsValid}
use mach_emu.Cpu.Valid.Step.{Awaits, Runs, execute-Runs}
use mach_emu.Controller.{Controller, isr_quit}
use mach_emu.Machine.Loop.{
  LoopSt, finished, signal, service_interrupts, after_execute, iterate, machine_loop,
}

-- The state with nothing on the bus.
abbrev pub emptied : {W : Type 0} → LoopSt W → LoopSt W
emptied s = record s { state = record (s.state) { bus = idle } }

module _ {W : Type 0} ⦃p : Process W⦄ ⦃dev : Devices W⦄ (ticks_per_isr : ℕ) (tick : ℕ → W → ℕ × W)
    (io : Controller W) where
  abbrev pub Quits : LoopSt W → Option (LoopSt W) → Type 0
  Quits s none = ⊥
  Quits s (some t) =
      if leb ticks_per_isr (t.total_ticks - s.last_ticks)
      then ((fuel : ℕ)
          → machine_loop false ticks_per_isr tick io (suc fuel) t ≡ finished (emptied t))
      else (t.state.bus ≡ idle)

  after_execute-Quits :
      (ticks : ℕ) (st : St W) (s : LoopSt W)
      → st.bus ≡ idle
      → ((now cycles : ℕ) (w : W) → (io.service_interrupts now cycles w).0 ≡ isr_quit)
      → Quits s (some (after_execute false ticks_per_isr tick io ticks st s))
  unfolding after_execute service_interrupts machine_loop receive_control signal send_control
  after_execute-Quits ticks st s empty quits =
      elim (Bool-cases (leb ticks_per_isr (s.total_ticks + ticks - s.last_ticks))) [
        | inl is_due ↦ rw (is_due, is_due, empty) (λ fuel. rw quits refl)
        | inr not_yet ↦ rw (not_yet, not_yet) empty
      ]

  executed-Quits :
      (r : Option (ℕ × St W)) (s : LoopSt W)
      → Runs r
      → ((now cycles : ℕ) (w : W) → (io.service_interrupts now cycles w).0 ≡ isr_quit)
      → Quits s (elim r [
        | none ↦ none
        | some x ↦ some (after_execute false ticks_per_isr tick io x.0 x.1 s)
      ])
  executed-Quits none s refused quits = absurd refused
  executed-Quits (some (ticks, st)) s (empty, _, _) quits =
      after_execute-Quits ticks st s empty quits

  -- In a build without assertions, from a valid cpu with an idle bus or a pending interrupt, an io
  -- controller that answers with ISR::Quit whenever it is asked ends the loop: the iteration that
  -- asks it returns and is the last, and leaves the bus idle; an iteration that does not ask leaves
  -- it idle too.
  pub iterate-Quits :
      (s : LoopSt W)
      → IsValid s.state.cpu
      → Awaits s.state.bus
      → ((now cycles : ℕ) (w : W) → (io.service_interrupts now cycles w).0 ≡ isr_quit)
      → Quits s (iterate false ticks_per_isr tick io s)
  unfolding iterate
  iterate-Quits s valid waiting quits =
      executed-Quits (execute false s.state) s
        (execute-Runs s.state.cpu s.state.world valid waiting) quits
