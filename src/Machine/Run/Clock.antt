-- ===== src/Machine/Run/Clock.antt =====
-- What holds of the clock of Machine/Run.antt between two iterations.
use mathlib.Core.Path.{subst, subst⁻¹}
use native.Mathlib.Nat.{mul-le-mul_right}
use mach_emu.Base.{ℕ, ◌+◌, ◌*◌, ◌≤◌, ◌<◌, ◌≡◌, refl, ap, some, Bool-cases, inl, inr, arith}
use mach_emu.Base.Int.{ℤ, pos, negsuc, above, leb_ℤ, ◌≤ℤ◌}
use mach_emu.CpuClock.{CpuClock, tick}
use mach_emu.CpuClock.Platform.{Host, IsMoving}
use mach_emu.Base.Results.{then_case, else_case}
use mach_emu.CpuClock.Pace.{tick_lem}

no_error_above : (e : ℤ) → e ≤ℤ pos 0 → above e ≡ 0
no_error_above (pos n) h = omega arith
no_error_above (negsuc n) h = refl

module _ {T : Type 0} ⦃host : Host T⦄ (moving : IsMoving host) (spins : ℕ) where
  -- The last sample is not in the future, and no time is owed for it. Neither the ticks counted since
  -- then nor the resolution exceed a limit, and the fuel is above the time of that and of one more
  -- instruction.
  pub record IsTimely (c : CpuClock) (h : T) : Type 0 where
    pub sampled : c.last_time ≤ moving.steady.at h
    pub paid : c.error ≤ℤ pos 0
    pub limit : ℕ
    pub counted : c.tick_count ≤ limit
    pub resolution : above c.total_ticks ≤ limit
    pub enough : (limit + 18) * c.time_period < spins

  abbrev pub Ticked : ℕ → CpuClock → T → Type 0
  Ticked ticks c h =
      (t : ℤ) × (c' : CpuClock) × (h' : T) × (tick spins ticks c h ≡ some ((t, c'), h'))
      × IsTimely c' h'

  kept :
      (c c' : CpuClock) (count last : ℕ) (error time : ℤ) (h h' : T) (timely : IsTimely c h)
      → c' ≡ record c { tick_count = count; error = error; last_time = last; time = time }
      → last ≤ moving.steady.at h'
      → error ≤ℤ pos 0
      → count ≤ timely.limit
      → IsTimely c' h'
  kept c c' count last error time h h' timely e sampled paid counted =
      subst⁻¹ (λ x. IsTimely x h') e
        record {
          sampled = sampled;
          paid = paid;
          limit = timely.limit;
          counted = counted;
          resolution = timely.resolution;
          enough = timely.enough;
        }

  -- The clock is there after the ticks of one instruction.
  pub tick-Ticked :
      (ticks : ℕ) (c : CpuClock) (h : T) → ticks ≤ 18 → IsTimely c h → Ticked ticks c h
  tick-Ticked ticks c h few timely =
      let counted = record c { tick_count = c.tick_count + ticks } in
      let more : c.tick_count + ticks ≤ timely.limit + 18 = omega (arith, timely.counted) in
      let owed = mul-le-mul_right c.time_period more in
      let outcome =
        tick_lem moving spins ticks c h timely.sampled
          (omega (arith, owed, timely.enough, no_error_above c.error timely.paid)) in
      elim (Bool-cases (leb_ℤ (pos 0) c.total_ticks)) [
        | inl synchronised ↦
            let outcome' = then_case _ _ _ synchronised outcome in
            elim (Bool-cases (leb_ℤ c.total_ticks (pos (c.tick_count + ticks)))) [
              | inl reached ↦
                  let (c', h', e, (_, sampled, zero, paid, _, same)) =
                    then_case _ _ _ reached outcome' in
                  (
                    c'.time,
                    c',
                    h',
                    e,
                    kept c c' 0 c'.last_time c'.error c'.time h h' timely same sampled paid
                        (omega arith),
                  )
              | inr counting ↦ (
                c.time,
                counted,
                h,
                else_case _ _ _ counting outcome',
                kept c counted (c.tick_count + ticks) c.last_time c.error c.time h h timely refl
                    timely.sampled timely.paid (ground (arith, timely.resolution)),
              )
            ]
        | inr free ↦
            let (c', h', e, _, sampled, same) = else_case _ _ _ free outcome in
            (
              c'.time,
              c',
              h',
              e,
              kept c c' c.tick_count (host.now h).0 c.error c'.time h h' timely same
                  (subst (λ x. x ≤ moving.steady.at h') (ap (λ x. x.last_time) same) sampled)
                  timely.paid timely.counted,
            )
      ]
