-- ===== src/Machine/Run.antt =====
-- `machineLoop`, the lambda of `Machine::Run` (Machine/source/Machine.cpp), on any machine: with
-- the cpu's clock, and the callbacks for saving and loading. The host's clock has a state of its
-- own, which the cpu and the controllers do not see. `int64_t` is taken as unbounded.
pub mod Clock
pub mod Loading
pub mod Answers
pub mod Progress
pub mod Punctual
pub mod Deadline
use mach_emu.Base.{ℕ, zero, suc, ◌+◌, ◌-◌, ◌%◌, ◌^◌, Bool, if◌then◌else◌, Option, none, some}
use mach_emu.Base.Int.{ℤ, pos, negsuc, leb_ℤ}
use mach_emu.Bus.{power_off, receive_control}
use mach_emu.Controller.{Controller}
use mach_emu.Cpu.State.{Process, St}
use mach_emu.Cpu.Execute.{execute}
use mach_emu.Cpu.Snapshot.{Format}
use mach_emu.CpuClock.{CpuClock, tick}
use mach_emu.CpuClock.Platform.{Host}
use mach_emu.Utils.Libraries.{Coding}
use mach_emu.Machine.Images.{Document}
use mach_emu.Machine.Handlers.{Pending, Session, Answer, answer}

-- The variables of the loop, with the cpu and all it works on, the clock and the host.
pub record RunSt (W T Text : Type 0) : Type 0 where
  pub state : St W
  pub clock : CpuClock
  pub host_state : T
  pub curr_time : ℤ
  pub total_ticks : ℕ
  pub last_ticks : ℕ
  pub pending : Pending Text

-- The conversion of a time to `uint64_t`.
abbrev pub to_uint64 : ℤ → ℕ
to_uint64 (pos n) = n % 2 ^ 64
to_uint64 (negsuc n) = 2 ^ 64 - 1 - n % 2 ^ 64

-- How the `while` ended: by PowerOff, not within the fuel, or in an iteration that does not end.
pub data RunEnd (W T Text : Type 0) : Type 0 where
  powered_off : RunSt W T Text → RunEnd W T Text
  going_on : RunSt W T Text → RunEnd W T Text
  stuck : RunEnd W T Text

unfoldable pub continue_run :
    {W T Text : Type 0}
    → (RunSt W T Text → RunEnd W T Text)
    → Option (RunSt W T Text)
    → RunEnd W T Text
continue_run loop none = stuck
continue_run loop (some s) = loop s

-- `spins` is the fuel for the clock's waiting, and for the loops that collect the memory.
module _ {W T Text : Type 0} ⦃p : Process W⦄ ⦃host : Host T⦄ ⦃coding : Coding⦄ (asserts zlib : Bool)
    (format : Format Text) (print : Document Text → Text) (parse : Text → Option (Document Text))
    (io : Controller W) (m : Session W Text) (ticks_per_isr : ℤ) (spins : ℕ) where
  -- `totalTicks - lastTicks >= ticksPerIsr_`.
  abbrev pub is_due : RunSt W T Text → Bool
  is_due s = leb_ℤ ticks_per_isr (pos (s.total_ticks - s.last_ticks))

  -- After the `switch`: `lastTicks = totalTicks`.
  unfoldable pub resume : RunSt W T Text → Answer W Text → Option (RunSt W T Text)
  resume s none = none
  resume s (some r) = some (record s { state = r.1; pending = r.0; last_ticks = s.total_ticks })

  unfoldable pub serve_interrupts : RunSt W T Text → Option (RunSt W T Text)
  unfolding resume answer
  serve_interrupts s =
      let r = io.service_interrupts (to_uint64 s.curr_time) s.total_ticks s.state.world in
      resume s
        (answer m format zlib print parse spins r.0 s.pending (record (s.state) { world = r.1 }))

  -- After the clock's `Tick`.
  unfoldable pub after_tick :
      ℕ → RunSt W T Text → Option ((ℤ × CpuClock) × T) → Option (RunSt W T Text)
  unfolding serve_interrupts
  after_tick ticks s none = none
  after_tick ticks s (some r) =
      let s' = record s {
        clock = r.0.1;
        host_state = r.1;
        curr_time = r.0.0;
        total_ticks = s.total_ticks + ticks;
      } in
      if is_due s' then serve_interrupts s' else some s'

  unfoldable pub after_cpu : RunSt W T Text → Option (ℕ × St W) → Option (RunSt W T Text)
  unfolding after_tick tick
  after_cpu s none = none
  after_cpu s (some r) =
      after_tick r.0 (record s { state = r.1 }) (tick spins r.0 s.clock s.host_state)

  -- The body of the loop.
  unfoldable pub run_iteration : RunSt W T Text → Option (RunSt W T Text)
  unfolding after_cpu
  run_iteration s = after_cpu s (execute asserts s.state)

  -- The test of the `while`, and the body after it.
  unfoldable pub run_loop : ℕ → RunSt W T Text → RunEnd W T Text
  unfolding run_iteration continue_run
  run_loop zero s = going_on s
  run_loop (suc fuel) s =
      let r = receive_control power_off s.state.bus in
      let s' = record s { state = record (s.state) { bus = r.1 } } in
      if r.0 then powered_off s' else continue_run (run_loop fuel) (run_iteration s')
