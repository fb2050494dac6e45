-- ===== src/Machine/Loop/Service.antt =====
-- When the loop of `Machine::Run` asks the io controller for interrupts.
use mach_emu.Base.{
  ℕ, ◌+◌, ◌-◌, ◌≤◌, ◌<◌, ◌≡◌, refl, false, leb, if◌then◌else◌, Option, none, some, Bool-cases, inl,
  inr, arith,
}
use mach_emu.Bus.{idle}
use mach_emu.Cpu.State.{Process, St}
use mach_emu.Cpu.Execute.{execute}
use mach_emu.Cpu.Protocol.{Devices}
use mach_emu.Cpu.Valid.{IsValid}
use mach_emu.Cpu.Valid.Step.{Awaits, Runs, execute-Runs}
use mach_emu.Controller.{Controller}
use mach_emu.Machine.Loop.{LoopSt, signal, service_interrupts, after_execute, iterate}

-- Fewer ticks than `ticks_per_isr` have passed since the last service.
pub record IsPaced {W : Type 0} (ticks_per_isr : ℕ) (s : LoopSt W) : Type 0 where
  pub ordered : s.last_ticks ≤ s.total_ticks
  pub recent : s.total_ticks < s.last_ticks + ticks_per_isr

module _ {W : Type 0} ⦃p : Process W⦄ ⦃dev : Devices W⦄ (ticks_per_isr : ℕ) (tick : ℕ → W → ℕ × W)
    (io : Controller W) where
  -- What the body makes of a state, given what Execute makes of it: if a service is due after the
  -- clock's Tick, then the world is what the io controller leaves when it is asked, and the bus holds
  -- its answer; else the controller is not asked.
  abbrev pub Serves : Option (ℕ × St W) → LoopSt W → Option (LoopSt W) → Type 0
  Serves (some (ticks, st)) s (some t) =
      let clock = tick ticks st.world in
      let total = s.total_ticks + ticks in
      let isr = io.service_interrupts clock.0 total clock.1 in
      IsPaced ticks_per_isr t
      × (t.total_ticks ≡ total)
      × (if leb ticks_per_isr (total - s.last_ticks)
          then ((t.state ≡ record st { bus = signal isr.0 idle; world = isr.1 })
              × (t.last_ticks ≡ total)
              × (total < s.last_ticks + ticks_per_isr + 18))
          else ((t.state ≡ record st { bus = idle; world = clock.1 })
              × (t.last_ticks ≡ s.last_ticks)))
  Serves _ s _ = ⊥

  after_execute-Serves :
      (ticks : ℕ) (st : St W) (s : LoopSt W)
      → st.bus ≡ idle
      → ticks ≤ 18
      → 0 < ticks_per_isr
      → IsPaced ticks_per_isr s
      → Serves (some (ticks, st)) s (some (after_execute false ticks_per_isr tick io ticks st s))
  unfolding after_execute service_interrupts
  after_execute-Serves ticks st s empty few some_ticks h =
      let t = tick ticks st.world in
      let isr = io.service_interrupts t.0 (s.total_ticks + ticks) t.1 in
      elim (Bool-cases (leb ticks_per_isr (s.total_ticks + ticks - s.last_ticks))) [
        | inl is_due ↦ rw is_due (
          record { ordered = omega arith; recent = omega arith },
          refl,
          (
            λ i. record st { bus = signal isr.0 (empty i); world = isr.1 },
            refl,
            omega (arith, h.ordered, h.recent),
          ),
        )
        | inr not_yet ↦ rw not_yet (
          record {
            ordered = omega (arith, h.ordered);
            recent = ground (arith, h.ordered, h.recent);
          },
          refl,
          (λ i. record st { bus = empty i; world = t.1 }, refl),
        )
      ]

  executed-Serves :
      (r : Option (ℕ × St W)) (s : LoopSt W)
      → Runs r
      → 0 < ticks_per_isr
      → IsPaced ticks_per_isr s
      → Serves r s (elim r [
        | none ↦ none
        | some x ↦ some (after_execute false ticks_per_isr tick io x.0 x.1 s)
      ])
  executed-Serves none s refused some_ticks h = absurd refused
  executed-Serves (some (ticks, st)) s (empty, _, few) some_ticks h =
      after_execute-Serves ticks st s empty few some_ticks h

  -- Of a machine without save and load callbacks, in a build without assertions, from a valid cpu
  -- with an idle bus or a pending interrupt, with ticks_per_isr positive and fewer ticks than that
  -- passed since the last service: each iteration returns. It adds the ticks of Execute to the
  -- count, and if that makes it at least ticks_per_isr ticks since the last service, which is then
  -- no more than ticks_per_isr + 17 ticks ago, the io controller is asked after the clock's Tick,
  -- with the clock's time and the count of ticks: the cpu is as Execute left it, the world as the
  -- controller did, the bus holds the signal of its answer, and this is the last service. Else the
  -- controller is not asked and the bus is idle. In both cases fewer than ticks_per_isr ticks have
  -- then passed since the last service.
  pub iterate-Serves :
      (s : LoopSt W)
      → IsValid s.state.cpu
      → Awaits s.state.bus
      → 0 < ticks_per_isr
      → IsPaced ticks_per_isr s
      → Serves (execute false s.state) s (iterate false ticks_per_isr tick io s)
  unfolding iterate
  iterate-Serves s valid waiting some_ticks h =
      executed-Serves (execute false s.state) s
        (execute-Runs s.state.cpu s.state.world valid waiting) some_ticks h
