-- ===== src/Machine/Lifecycle/Start.antt =====
-- What `SetClockResolution` leaves as it is.
use mach_emu.Base.{ℕ, ◌≡◌, refl, Bool, Bool-cases, some, inl, inr, List}
use mathlib.Core.Path.{subst}
use mathlib.Core.Sum.{inr-injective}
use mach_emu.Base.Int.{ℤ, pos, negsuc}
use mach_emu.Base.Results.{and_then-inr, if_taken, if_not_taken, not_refused}
use mach_emu.CpuClock.{ErrorCode, set_tick_resolution}
use mach_emu.Options
use mach_emu.Options.{isr_freq}
use mach_emu.Options.Library.{Json}
use mach_emu.Machine.Settings.{
  machine_is_running, out_of_range, Settings, is_no_error, from_options, set_resolution,
  set_clock_resolution,
}

module _ {J I O : Type 0} where
  -- Only the options, the clock's resolution and `ticksPerIsr_` may be others.
  abbrev pub SameButResolution : Settings J I O → Settings J I O → Type 0
  SameButResolution s t =
      (t.clock ≡ record (s.clock) { total_ticks = t.clock.total_ticks })
      × (t.on_load ≡ s.on_load)
      × (t.on_save ≡ s.on_save)

module _ {J : Type 0} ⦃json : Json J⦄ (isr_ticks : json.Double → ℤ → ℤ) {I O : Type 0} where
  set_resolution-Same :
      (resolution : ℤ) (s : Settings J I O) (x : ErrorCode × Settings J I O)
      → set_resolution isr_ticks resolution s ≡ inr x
      → SameButResolution s x.1
  unfolding set_resolution set_tick_resolution
  set_resolution-Same (pos n) s x e =
      elim (Bool-cases (is_no_error (set_tick_resolution (pos n) s.clock).0)) [
        | inl good ↦
            let (freq, read, e') =
              and_then-inr (from_options (isr_freq s.options)) _ x (if_taken _ _ _ _ good e) in
            subst (λ y. SameButResolution s y.1) (inr-injective _ _ e') (refl, refl, refl)
        | inr bad ↦
            subst (λ y. SameButResolution s y.1) (inr-injective _ _ (if_not_taken _ _ _ _ bad e))
              (refl, refl, refl)
      ]
  set_resolution-Same (negsuc n) s x e =
      let (freq, read, e') = and_then-inr (from_options (isr_freq s.options)) _ x e in
      subst (λ y. SameButResolution s y.1) (inr-injective _ _ e') (refl, refl, refl)

  module _ (zlib : Bool) (files : List ℕ → List ℕ) (print : ℤ → List ℕ) where
    pub set_clock_resolution-Same :
        (resolution : ℤ) (s : Settings J I O) (x : ErrorCode × Settings J I O)
        → set_clock_resolution zlib files print isr_ticks resolution s ≡ inr x
        → SameButResolution s x.1
    unfolding set_clock_resolution
    set_clock_resolution-Same resolution s x e =
        let (_, e1) = not_refused machine_is_running s.running _ x e in
        let (_, e2) = not_refused out_of_range _ _ x e1 in
        let (options, _, e3) =
          and_then-inr
            (from_options (Options.set_options zlib files (some (print resolution)) s.options)) _ x
            e2 in
        set_resolution-Same resolution (record s { options = options }) x e3
