-- ===== src/CpuClock/Pace.antt =====
-- `CpuClock::Tick` keeps the emulated cpu from running ahead of its speed.
use mach_emu.Base.{
  ℕ, ◌+◌, ◌*◌, ◌≤◌, ◌<◌, ◌≡◌, refl, ap, if◌then◌else◌, some, Bool-cases, inl, inr, arith,
}
use mach_emu.Base.Int.{pos, above, below, minus, ◌-ℤ◌, ◌≤ℤ◌, leb_ℤ, above_sum, above_less, signed}
use mach_emu.CpuClock.{CpuClock, sleep_for, sample, owed, correlated, correlate, tick}
use mach_emu.CpuClock.Platform.{Host, IsMoving}
use mach_emu.CpuClock.Spin.{spin_for_lem, sleep_for_lem}

owed_lem :
    (c : CpuClock) (now : ℕ)
    → c.last_time ≤ now
    → (above (owed c now) ≤ c.tick_count * c.time_period + above c.error)
      × (above (owed c now) + now + below c.error
          ≡ c.tick_count * c.time_period + c.last_time + above c.error + below (owed c now))
unfolding owed
owed_lem c now before =
    let left = pos (c.tick_count * c.time_period) -ℤ minus now c.last_time in
    (
      omega (
        arith,
        above_sum left c.error,
        above_less (pos (c.tick_count * c.time_period)) now c.last_time before,
      ),
      omega signed,
    )

module _ {W : Type 0} ⦃host : Host W⦄ (moving : IsMoving host) where
  -- A correlation that has paid for the ticks: at the new sample, all their time has passed since
  -- the old one, but for what had been waited too long before; and the new one is not in the future.
  abbrev pub Paid : CpuClock → CpuClock → W → Type 0
  Paid c c' w' =
      (c.last_time + c.tick_count * c.time_period + above c.error ≤ c'.last_time + below c.error)
      × (c'.last_time ≤ moving.steady.at w')
      × (c'.tick_count ≡ 0)
      × (c'.error ≤ℤ pos 0)
      × (c'.time ≡ minus c'.last_time c.epoch)
      × (c'
          ≡ record c { tick_count = 0; error = c'.error; last_time = c'.last_time; time = c'.time })

  correlate_lem :
      (fuel : ℕ) (c : CpuClock) (w : W)
      → c.last_time ≤ moving.steady.at w
      → c.tick_count * c.time_period + above c.error < fuel
      → (c' : CpuClock) × (w' : W) × (correlate fuel c w ≡ some ((c'.time, c'), w')) × Paid c c' w'
  unfolding correlate correlated sample
  correlate_lem fuel c w before enough =
      let n = host.now w in
      let o = owed c n.0 in
      let slept = sleep_for o n.1 in
      let h1 = moving.steady.at-le-now w in
      let h2 = moving.steady.now-le-at w in
      let (bound, balance) = owed_lem c n.0 (omega arith) in
      let (kept, less) = sleep_for_lem moving o n.1 in
      let (x, e, late, passed) = spin_for_lem moving fuel slept.0 slept.1 (omega arith) in
      let h3 = moving.steady.at-le-now x.1 in
      let m = host.now x.1 in
      (
        record c { error = x.0; tick_count = 0; last_time = m.0; time = minus m.0 c.epoch },
        m.1,
        ap (correlated c) e,
        (omega arith, moving.steady.now-le-at x.1, refl, late, refl, refl),
      )

  -- On a host whose clock moves and never goes back, and after a last sample that is not in the
  -- future, `Tick` always returns, if its fuel exceeds the time it owes. A clock that is not
  -- synchronised tells the host's time. One that is counts the ticks, and returns the old time,
  -- until the resolution is reached; then it does not return before all the ticks' time has passed
  -- since the last sample, less what was waited too long before, and starts to count from 0, with
  -- an error that is never positive and the time of the new sample. No sample is in the future
  -- when it returns.
  pub tick_lem :
      (fuel ticks : ℕ) (c : CpuClock) (w : W)
      → c.last_time ≤ moving.steady.at w
      → (c.tick_count + ticks) * c.time_period + above c.error < fuel
      → let counted = record c { tick_count = c.tick_count + ticks } in
        if leb_ℤ (pos 0) c.total_ticks
        then (if leb_ℤ c.total_ticks (pos counted.tick_count)
            then ((c' : CpuClock) × (w' : W) × (tick fuel ticks c w ≡ some ((c'.time, c'), w'))
                × Paid counted c' w')
            else (tick fuel ticks c w ≡ some ((c.time, counted), w)))
        else ((c' : CpuClock) × (w' : W) × (tick fuel ticks c w ≡ some ((c'.time, c'), w'))
            × (c'.time ≡ minus (host.now w).0 c.epoch)
            × (c'.last_time ≤ moving.steady.at w')
            × (c' ≡ record c { last_time = (host.now w).0; time = c'.time }))
  unfolding tick sample
  tick_lem fuel ticks c w before enough =
      let counted = record c { tick_count = c.tick_count + ticks } in
      elim (Bool-cases (leb_ℤ (pos 0) c.total_ticks)) [
        | inl synchronised ↦ elim (Bool-cases (leb_ℤ c.total_ticks (pos (c.tick_count + ticks)))) [
          | inl reached ↦ rw (synchronised, reached) (correlate_lem fuel counted w before enough)
          | inr counting ↦ rw (synchronised, counting) refl
        ]
        | inr free ↦
            let n = host.now w in
            let t = minus n.0 c.epoch in
            rw free (
              record c { last_time = n.0; time = t },
              n.1,
              refl,
              refl,
              moving.steady.now-le-at w,
              refl,
            )
      ]
