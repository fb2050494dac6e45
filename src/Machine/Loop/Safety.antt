-- ===== src/Machine/Loop/Safety.antt =====
-- The loop of `Machine::Run` never comes to a state from which it cannot go on.
use mathlib.Core.Path.{subst}
use mach_emu.Base.{
  ℕ, zero, suc, ◌+◌, ◌≡◌, refl, sym, true, false, ◌==◌, ◌⊎◌, ltb, leb, ◌-◌, Option, none, some,
  Bool-cases, inl, inr, arith,
}
use mach_emu.Bus.{SystemBus, power_off, idle, send_control, receive_control}
use mach_emu.Cpu.State.{Process, St}
use mach_emu.Cpu.Execute.{execute}
use mach_emu.Cpu.Protocol.{Devices}
use mach_emu.Cpu.Valid.{IsValid}
use mach_emu.Cpu.Valid.Step.{Awaits, nothing, request, pending, Runs, execute-Runs}
use mach_emu.Controller.{Controller, isr_quit}
use mach_emu.Machine.Loop.{
  LoopSt, Outcome, finished, still_running, aborted, signal, service_interrupts, after_execute,
  iterate, continue_loop, machine_loop,
}

-- The bus on which the machine has asked itself to stop.
unfoldable pub stopping : SystemBus
unfolding send_control
stopping = send_control power_off idle

-- What the bus may hold between two instructions.
pub data Between : SystemBus → Type 0 where
  awaits : {bus : SystemBus} → Awaits bus → Between bus
  stops : Between stopping

pub signal-Between : (isr : ℕ) → Between (signal isr idle)
unfolding signal pending stopping
signal-Between isr = elim (Bool-cases (ltb isr 8)) [
  | inl vector ↦ rw vector (awaits (Awaits.request _ (omega arith)))
  | inr other ↦ rw other (elim (Bool-cases (isr == isr_quit)) [
    | inl quit ↦ rw quit stops
    | inr none_of_these ↦ rw none_of_these (awaits nothing)
  ])
]

-- The test of the `while`: PowerOff is taken off the bus, and nothing else ever is.
pub receive-Between :
    {bus : SystemBus}
    → Between bus
    → ((receive_control power_off bus ≡ (true, idle)) × (bus ≡ stopping))
      ⊎ ((receive_control power_off bus ≡ (false, bus)) × Awaits bus)
unfolding receive_control stopping pending send_control
receive-Between stops = inl (refl, refl)
receive-Between (awaits nothing) = inr (refl, nothing)
receive-Between (awaits (request isr h)) = inr (refl, Awaits.request isr h)

-- A state of the loop, and a result of its body.
pub record IsRunning {W : Type 0} (s : LoopSt W) : Type 0 where
  pub valid : IsValid s.state.cpu
  pub between : Between s.state.bus

module _ {W : Type 0} ⦃p : Process W⦄ ⦃dev : Devices W⦄ (ticks_per_isr : ℕ) (tick : ℕ → W → ℕ × W)
    (io : Controller W) where
  after_execute-IsRunning :
      (ticks : ℕ) (st : St W) (s : LoopSt W)
      → st.bus ≡ idle
      → IsValid st.cpu
      → IsRunning (after_execute false ticks_per_isr tick io ticks st s)
  unfolding after_execute service_interrupts
  after_execute-IsRunning ticks st s empty h =
      let t = tick ticks st.world in
      let isr = (io.service_interrupts t.0 (s.total_ticks + ticks) t.1).0 in
      let due' = leb ticks_per_isr (s.total_ticks + ticks - s.last_ticks) in
      elim (Bool-cases due') [
        | inl is_due ↦ rw (is_due, empty) record { valid = h; between = signal-Between isr }
        | inr not_yet ↦
            rw not_yet record { valid = h; between = subst Between (sym empty) (awaits nothing) }
      ]

  IsIteration : Option (LoopSt W) → Type 0
  IsIteration none = ⊥
  IsIteration (some s) = IsRunning s

  continued-IsIteration :
      (r : Option (ℕ × St W)) (s : LoopSt W)
      → Runs r
      → IsIteration (elim r [
        | none ↦ none
        | some x ↦ some (after_execute false ticks_per_isr tick io x.0 x.1 s)
      ])
  unfolding IsIteration
  continued-IsIteration none s refused = absurd refused
  continued-IsIteration (some (ticks, st)) s (empty, h, _) =
      after_execute-IsRunning ticks st s empty h

  iterate-IsIteration :
      (s : LoopSt W)
      → IsValid s.state.cpu
      → Awaits s.state.bus
      → IsIteration (iterate false ticks_per_isr tick io s)
  unfolding iterate
  iterate-IsIteration s h waiting =
      continued-IsIteration (execute false s.state) s
        (execute-Runs s.state.cpu s.state.world h waiting)

  -- The cpu is valid, and nothing is left on the bus where PowerOff ended the loop.
  abbrev pub IsSafe : Outcome W → Type 0
  IsSafe (finished s) = (s.state.bus ≡ idle) × IsValid s.state.cpu
  IsSafe (still_running s) = IsRunning s
  IsSafe aborted = ⊥

  continue-IsSafe :
      (loop : LoopSt W → Outcome W) (r : Option (LoopSt W))
      → ((s : LoopSt W) → IsRunning s → IsSafe (loop s))
      → IsIteration r
      → IsSafe (continue_loop loop r)
  unfolding continue_loop IsIteration
  continue-IsSafe loop none safe refused = absurd refused
  continue-IsSafe loop (some s) safe running = safe s running

  -- In a build without assertions the loop of a machine without save and load callbacks, started
  -- with a valid cpu on an idle bus, or one with an interrupt or PowerOff, is never aborted, whatever the program and the io controller do: after any number of iterations
  -- the cpu is valid and the bus is idle, holds one interrupt, or holds PowerOff, from where it may
  -- as well have started; and where PowerOff ended the loop, the bus is idle.
  pub machine_loop-IsSafe :
      (fuel : ℕ) (s : LoopSt W)
      → IsRunning s
      → IsSafe (machine_loop false ticks_per_isr tick io fuel s)
  unfolding machine_loop
  machine_loop-IsSafe zero s running = running
  machine_loop-IsSafe (suc fuel) s running = elim (receive-Between running.between) [
    | inl (off, _) ↦ rw off (refl, running.valid)
    | inr (on, waiting) ↦ rw on (
        continue-IsSafe _ _ (machine_loop-IsSafe fuel)
          (iterate-IsIteration s running.valid waiting))
  ]
