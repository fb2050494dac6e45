-- ===== src/CpuClock/Platform.antt =====
-- What CpuClock/source/CpuClock.cpp asks of the host: `steady_clock::now`, `nanosleep` and
-- `clock_getres`, and the product of a time with the `double` 0.7.
use mach_emu.Base.{ℕ, ◌≤◌, ◌<◌, Option}

-- `now` reads the clock and lets time pass. `portion` is `spinTime * spinPercantageToSleep_`.
pub record Host (W : Type 0) : Type 0 where
  pub now : W → ℕ × W
  pub sleep : ℕ → W → W
  pub portion : ℕ → ℕ
  pub resolution : W → Option ℕ

-- `steady_clock` never goes back: `at` is the host's time. A sleep may be cut short.
pub record IsSteady {W : Type 0} (host : Host W) : Type 0 where
  pub at : W → ℕ
  pub at-le-now : (w : W) → at w ≤ (host.now w).0
  pub now-le-at : (w : W) → (host.now w).0 ≤ at (host.now w).1
  pub at-sleep : (d : ℕ) (w : W) → at w ≤ at (host.sleep d w)

-- Each reading of the clock takes some time.
pub record IsMoving {W : Type 0} (host : Host W) : Type 0 where
  pub steady : IsSteady host
  pub at-lt-now : (w : W) → steady.at w < (host.now w).0
