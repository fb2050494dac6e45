-- ===== src/CpuClock/Spin.antt =====
-- The waiting of `CpuClock::Tick` ends, and not too early.
use mach_emu.Base.{ℕ, zero, suc, ◌+◌, ◌≤◌, ◌<◌, ◌≡◌, refl, ltb, some, Bool-cases, inl, inr, arith}
use mach_emu.Base.Int.{
  ℤ, pos, above, below, minus, ◌≤ℤ◌, leb_ℤ, ltb_ℤ, minus_sides, -ℤ_sides, above_less, signed,
}
use mach_emu.CpuClock.{sleep_for, spin_until, spin_for}
use mach_emu.CpuClock.Platform.{Host, IsMoving}

module _ {W : Type 0} ⦃host : Host W⦄ (moving : IsMoving host) where
  abbrev at : W → ℕ
  at = moving.steady.at

  -- The loop ends once the time has come, if the fuel exceeds the wait.
  spin_until_lem :
      (fuel finish now : ℕ) (w : W)
      → now ≤ at w
      → 0 < fuel
      → finish < now + fuel
      → (x : ℕ × W) × (spin_until fuel finish now w ≡ some x) × (finish ≤ x.0) × (x.0 ≤ at x.1)
  unfolding spin_until
  spin_until_lem zero finish now w h some_fuel enough = absurd (omega arith)
  spin_until_lem (suc fuel) finish now w h some_fuel enough = elim (Bool-cases (ltb now finish)) [
    | inl early ↦ rw early (
        spin_until_lem fuel finish (host.now w).0 (host.now w).1 (moving.steady.now-le-at w)
          (ground arith) (ground (arith, moving.at-lt-now w)))
    | inr late ↦ rw late ((now, w), refl, ground arith, h)
  ]

  -- The spinning returns with an error that is not positive, once the time has passed.
  pub spin_for_lem :
      (fuel : ℕ) (spin : ℤ) (w : W)
      → above spin < fuel
      → (x : ℤ × W) × (spin_for fuel spin w ≡ some x)
        × (x.0 ≤ℤ pos 0)
        × (at w + above spin ≤ at x.1 + below spin)
  unfolding spin_for
  spin_for_lem fuel spin w enough =
      let n = host.now w in
      elim (Bool-cases (ltb_ℤ (pos 0) spin)) [
        | inl wait ↦
            let (x, e, ready, passed) =
              spin_until_lem fuel (n.0 + above spin) n.0 n.1 (moving.steady.now-le-at w)
                (omega arith) (omega arith) in
            rw (wait, e)
              (
                (minus (n.0 + above spin) x.0, x.1),
                refl,
                omega (signed, minus_sides (n.0 + above spin) x.0),
                ground (arith, moving.at-lt-now w),
              )
        | inr over ↦ rw over (
          (spin, n.1),
          refl,
          ground arith,
          ground (arith, moving.at-lt-now w, moving.steady.now-le-at w),
        )
      ]

  -- A sleep takes off the time left at most the time that has passed.
  pub sleep_for_lem :
      (spin : ℤ) (w : W)
      → let s = sleep_for spin w in
        (at w + above spin + below s.0 ≤ at s.1 + above s.0 + below spin) × (above s.0 ≤ above spin)
  unfolding sleep_for
  sleep_for_lem spin w =
      let n = host.now w in
      let asleep = host.sleep (host.portion (above spin)) n.1 in
      let n' = host.now asleep in
      elim (Bool-cases (leb_ℤ (pos 1000000) spin)) [
        | inl long ↦
            let h1 = moving.steady.at-le-now w in
            let h2 = moving.steady.now-le-at w in
            let h3 = moving.steady.at-sleep (host.portion (above spin)) n.1 in
            let h4 = moving.steady.at-le-now asleep in
            let h5 = moving.steady.now-le-at asleep in
            rw long (
              omega (arith, minus_sides n'.0 n.0, -ℤ_sides spin (minus n'.0 n.0)),
              above_less spin n'.0 n.0 (omega arith),
            )
        | inr short ↦ rw short (omega arith, omega arith)
      ]
