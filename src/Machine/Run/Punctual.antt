-- ===== src/Machine/Run/Punctual.antt =====
-- A clock that is not synchronised, and an io controller that quits at a deadline.
use mach_emu.Base.{ℕ, ◌+◌, ◌-◌, ◌^◌, ◌≤◌, ◌<◌, ◌≡◌, refl, true, false, some, arith}
use mach_emu.Base.Results.{if_not_taken_eq}
use mach_emu.Base.Int.{ℤ, pos, minus, leb_ℤ}
use mach_emu.Bus.{idle, power_off, send_control, receive_control}
use mach_emu.Controller.{Controller, isr_quit}
use mach_emu.CpuClock.{CpuClock, tick, sample}
use mach_emu.CpuClock.Platform.{Host}
use mach_emu.Machine.Loop.{signal}
use mach_emu.Machine.Loop.Safety.{stopping}
use mach_emu.Machine.Run.{to_uint64}

pub to_uint64-minus :
    (n epoch bound : ℕ)
    → epoch ≤ n
    → n ≤ epoch + bound
    → bound < 2 ^ 64
    → to_uint64 (minus n epoch) ≡ n - epoch
unfolding minus
to_uint64-minus n epoch bound after before fits = ground arith

pub tick_free :
    {T : Type 0} ⦃host : Host T⦄ (spins ticks : ℕ) (c : CpuClock) (h : T)
    → leb_ℤ (pos 0) c.total_ticks ≡ false
    → let n = host.now h in
      let t = minus n.0 c.epoch in
      tick spins ticks c h ≡ some ((t, record c { last_time = n.0; time = t }), n.1)
unfolding tick sample
tick_free spins ticks c h free = if_not_taken_eq _ _ _ free

-- A service that is due after no ticks is due after any.
pub always : (a : ℤ) (ticks : ℕ) → leb_ℤ a (pos 0) ≡ true → leb_ℤ a (pos ticks) ≡ true
always a ticks h = ground arith

pub quit_signal : signal isr_quit idle ≡ stopping
unfolding signal stopping send_control
quit_signal = refl

pub receive_stopping : receive_control power_off stopping ≡ (true, idle)
unfolding stopping receive_control send_control
receive_stopping = refl

module _ {W T : Type 0} (host : Host T) (io : Controller W) (ticks_per_isr : ℤ)
    (deadline gap : ℕ) where
  -- The io controller is asked after each instruction, on a clock that is read at least once in
  -- `gap`, and quits when it is asked within that after the deadline.
  pub record IsPunctual : Type 0 where
    pub always_due : leb_ℤ ticks_per_isr (pos 0) ≡ true
    pub next_reading : (h : T) → (host.now (host.now h).1).0 ≤ (host.now h).0 + gap
    pub quits :
        (time cycles : ℕ) (w : W)
        → deadline ≤ time
        → time ≤ deadline + gap
        → (io.service_interrupts time cycles w).0 ≡ isr_quit
    pub fits : deadline + gap < 2 ^ 64
