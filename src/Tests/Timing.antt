-- ===== src/Tests/Timing.antt =====
-- The theorem on the clock with a host whose time is a number.
use mach_emu.Base.{ℕ, ◌+◌, ◌*◌, ◌/◌, ◌≡◌, some, arith}
use mach_emu.Base.Int.{pos}
use mach_emu.CpuClock.{CpuClock, tick}
use mach_emu.CpuClock.Platform.{Host, IsMoving}
use mach_emu.CpuClock.Pace.{Paid, tick_lem}

-- A host that gains a nanosecond at each reading of its clock.
abbrev pub counting : Host ℕ
counting = record {
  now = λ w. (w + 1, w + 1);
  sleep = λ d w. w + d;
  portion = λ d. d * 7 / 10;
  resolution = λ w. some 1;
}

abbrev pub counting-IsMoving : IsMoving counting
counting-IsMoving = record {
  steady = record {
    at = λ w. w;
    at-le-now = λ w. omega arith;
    now-le-at = λ w. omega arith;
    at-sleep = λ d w. omega arith;
  };
  at-lt-now = λ w. omega arith;
}

-- At 2 MHz, with a resolution of 20 milliseconds that the next 4 ticks reach.
abbrev clock : CpuClock
clock = record {
  total_ticks = pos 40000;
  tick_count = 39996;
  time_period = 500;
  error = pos 0;
  epoch = 100;
  last_time = 100;
  time = pos 0;
  max_resolution = 1;
}

tick_lem_example :
    (c' : CpuClock) × (w' : ℕ) × (tick ⦃host = counting⦄ 30000000 4 clock 500
      ≡ some ((c'.time, c'), w'))
    × Paid ⦃host = counting⦄ counting-IsMoving (record clock { tick_count = 40000 }) c' w'
tick_lem_example =
    tick_lem ⦃host = counting⦄ counting-IsMoving 30000000 4 clock 500 (omega arith) (omega arith)
