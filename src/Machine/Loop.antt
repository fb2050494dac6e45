-- ===== src/Machine/Loop.antt =====
-- The loop of `Machine::Run` (Machine/source/Machine.cpp) for a machine on which neither `OnSave`
-- nor `OnLoad` was called: `ISR::Save` and `ISR::Load` then do nothing, and there is no handler to
-- wait for. A negative `ticksPerIsr_` makes interrupts due after each instruction, as 0 does, and
-- is taken as 0.
pub mod Safety
pub mod Service
pub mod Quit
pub mod Starved
use mach_emu.Base.{
  ℕ, zero, suc, ◌+◌, ◌-◌, Bool, true, false, ◌==◌, ltb, leb, if◌then◌else◌, Option, none, some, u8,
}
use mach_emu.Bus.{SystemBus, interrupt, power_off, send_control, send_data, receive_control}
use mach_emu.Cpu.State.{Process, St}
use mach_emu.Cpu.Execute.{execute}
use mach_emu.Controller.{Controller, isr_quit}

-- The variables of the loop, with the cpu and all it works on.
pub record LoopSt (W : Type 0) : Type 0 where
  pub state : St W
  pub curr_time : ℕ
  pub total_ticks : ℕ
  pub last_ticks : ℕ

-- The `switch (isr)`.
unfoldable pub signal : ℕ → SystemBus → SystemBus
unfolding send_control send_data
signal isr bus =
    if ltb isr 8
    then send_data (u8 isr) (send_control interrupt bus)
    else if isr == isr_quit
    then send_control power_off bus
    else bus

-- How the `while` ended: by PowerOff, by an `assert` in the cpu, or not within the fuel.
pub data Outcome (W : Type 0) : Type 0 where
  finished : LoopSt W → Outcome W
  still_running : LoopSt W → Outcome W
  aborted : Outcome W

unfoldable pub continue_loop : {W : Type 0} → (LoopSt W → Outcome W) → Option (LoopSt W) → Outcome W
continue_loop loop none = aborted
continue_loop loop (some s) = loop s

-- `tick` is the clock's `Tick`, which returns the time in nanoseconds.
module _ {W : Type 0} ⦃p : Process W⦄ (asserts : Bool) (ticks_per_isr : ℕ) (tick : ℕ → W → ℕ × W)
    (io : Controller W) where
  -- `totalTicks - lastTicks >= ticksPerIsr_`.
  abbrev pub due : LoopSt W → Bool
  due s = leb ticks_per_isr (s.total_ticks - s.last_ticks)

  unfoldable pub service_interrupts : LoopSt W → LoopSt W
  unfolding signal
  service_interrupts s =
      let r = io.service_interrupts s.curr_time s.total_ticks s.state.world in
      record s {
        state = record (s.state) { bus = signal r.0 s.state.bus; world = r.1 };
        last_ticks = s.total_ticks;
      }

  -- After `Execute`: the clock, the count of the ticks, and the interrupts if they are due.
  unfoldable pub after_execute : ℕ → St W → LoopSt W → LoopSt W
  unfolding service_interrupts
  after_execute ticks st s =
      let t = tick ticks st.world in
      let s' = record s {
        state = record st { world = t.1 };
        curr_time = t.0;
        total_ticks = s.total_ticks + ticks;
      } in
      if due s' then service_interrupts s' else s'

  -- The body of the loop.
  unfoldable pub iterate : LoopSt W → Option (LoopSt W)
  unfolding after_execute
  iterate s = elim (execute asserts s.state) [
    | none ↦ none
    | some r ↦ some (after_execute r.0 r.1 s)
  ]

  unfoldable pub machine_loop : ℕ → LoopSt W → Outcome W
  unfolding iterate continue_loop
  machine_loop zero s = still_running s
  machine_loop (suc fuel) s =
      let r = receive_control power_off s.state.bus in
      let s' = record s { state = record (s.state) { bus = r.1 } } in
      if r.0 then finished s' else continue_loop (machine_loop fuel) (iterate s')
