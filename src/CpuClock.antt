-- ===== src/CpuClock.antt =====
-- CpuClock/source/CpuClock.cpp, as it is compiled with `__GNUC__`: the clock that slows the thread
-- down to the speed of the cpu. The host's clock and its sleep are a parameter, the `Host`. Times
-- and durations are in nanoseconds; the tick count, an `int`, stays below the resolution's ticks
-- and those of one instruction, and has no wrap-around here.
pub mod Platform
pub mod Pace
pub mod Spin
use mach_emu.Base.{
  ℕ, zero, suc, ◌+◌, ◌-◌, ◌*◌, ◌/◌, ◌%◌, ◌^◌, Bool, ltb, if◌then◌else◌, Option, none, some,
}
use mach_emu.Base.Int.{ℤ, pos, negsuc, above, minus, ◌+ℤ◌, ◌-ℤ◌, leb_ℤ, ltb_ℤ}
use mach_emu.CpuClock.Platform.{Host}

-- `ErrorCode` (Base/include/Base/Base.h).
pub data ErrorCode : Type 0 where
  no_error clock_resolution not_implemented unknown_option : ErrorCode

-- A `time_point` is the host's time since it started.
pub record CpuClock : Type 0 where
  pub total_ticks : ℤ
  pub tick_count : ℕ
  pub time_period : ℕ
  pub error : ℤ
  pub epoch : ℕ
  pub last_time : ℕ
  pub time : ℤ
  pub max_resolution : ℕ

-- The conversion of a number to `int`.
abbrev pub to_int : ℕ → ℤ
to_int n = if ltb (n % 2 ^ 32) (2 ^ 31) then pos (n % 2 ^ 32) else negsuc (2 ^ 32 - n % 2 ^ 32 - 1)

-- `SetTickResolution`: the result and `*resolutionInTicks`.
unfoldable pub set_tick_resolution : ℤ → CpuClock → ErrorCode × ℤ × CpuClock
set_tick_resolution (pos resolution) c =
    let total = to_int (resolution / c.time_period) in
    (
      if ltb resolution c.max_resolution then clock_resolution else no_error,
      total,
      record c { total_ticks = total },
    )
set_tick_resolution (negsuc _) c = (no_error, negsuc 0, record c { total_ticks = negsuc 0 })

-- The time to wait out: that of the ticks, less what has passed, plus the error of before.
unfoldable pub owed : CpuClock → ℕ → ℤ
unfolding minus ◌-ℤ◌ ◌+ℤ◌
owed c now = pos (c.tick_count * c.time_period) -ℤ minus now c.last_time +ℤ c.error

module _ {W : Type 0} ⦃host : Host W⦄ where
  -- The constructor, for a speed that is not 0; `none` is the exception where the host does not
  -- tell its clock's resolution.
  unfoldable pub make_cpu_clock : ℕ → W → Option CpuClock
  make_cpu_clock speed w = elim (host.resolution w) [
    | none ↦ none
    | some nanoseconds ↦ some (record {
      total_ticks = negsuc 0;
      tick_count = 0;
      time_period = 1000000000 / speed;
      error = pos 0;
      epoch = 0;
      last_time = 0;
      time = pos 0;
      max_resolution = nanoseconds;
    })
  ]

  unfoldable pub reset : CpuClock → W → CpuClock × W
  reset c w = let n = host.now w in (record c { epoch = n.0; last_time = n.0 }, n.1)

  -- `sleepFor`: what is left of the time after a sleep, if it is at least a millisecond.
  unfoldable pub sleep_for : ℤ → W → ℤ × W
  unfolding minus ◌-ℤ◌
  sleep_for spin w =
      if leb_ℤ (pos 1000000) spin
      then (let n = host.now w in
          let n' = host.now (host.sleep (host.portion (above spin)) n.1) in
          (spin -ℤ minus n'.0 n.0, n'.1))
      else (spin, w)

  -- `while (now < end)`; `none` where the fuel is spent.
  unfoldable pub spin_until : ℕ → ℕ → ℕ → W → Option (ℕ × W)
  spin_until zero finish now w = none
  spin_until (suc fuel) finish now w =
      let rest = spin_until fuel finish (host.now w).0 (host.now w).1 in
      if ltb now finish then rest else some (now, w)

  -- `spinFor`: the time that it spun too long, as a number that is not positive.
  unfoldable pub spin_for : ℕ → ℤ → W → Option (ℤ × W)
  unfolding spin_until minus
  spin_for fuel spin w =
      let n = host.now w in
      if ltb_ℤ (pos 0) spin
      then elim (spin_until fuel (n.0 + above spin) n.0 n.1) [
        | none ↦ none
        | some x ↦ some (minus (n.0 + above spin) x.0, x.1)
      ]
      else some (spin, n.1)

  -- `lastTime_ = steady_clock::now(); time_ = lastTime_ - epoch_`.
  unfoldable pub sample : CpuClock → W → (ℤ × CpuClock) × W
  unfolding minus
  sample c w =
      let n = host.now w in
      let t = minus n.0 c.epoch in ((t, record c { last_time = n.0; time = t }), n.1)

  unfoldable pub correlated : CpuClock → Option (ℤ × W) → Option ((ℤ × CpuClock) × W)
  unfolding sample
  correlated c none = none
  correlated c (some x) = some (sample (record c { error = x.0; tick_count = 0 }) x.1)

  unfoldable pub correlate : ℕ → CpuClock → W → Option ((ℤ × CpuClock) × W)
  unfolding owed sleep_for spin_for correlated
  correlate fuel c w =
      let n = host.now w in
      let slept = sleep_for (owed c n.0) n.1 in correlated c (spin_for fuel slept.0 slept.1)

  unfoldable pub tick : ℕ → ℕ → CpuClock → W → Option ((ℤ × CpuClock) × W)
  unfolding correlate sample
  tick fuel ticks c w =
      if leb_ℤ (pos 0) c.total_ticks
      then (let c' = record c { tick_count = c.tick_count + ticks } in
          if leb_ℤ c'.total_ticks (pos c'.tick_count)
          then correlate fuel c' w
          else some ((c'.time, c'), w))
      else some (sample c w)
