-- ===== src/Machine/Settings/Resolution.antt =====
-- What `Machine::SetClockResolution` sets.
use mach_emu.Base.{
  ℕ, ◌/◌, ◌≤◌, ◌<◌, ◌≡◌, refl, ◌∙◌, Bool, true, false, ltb, ◌||◌, if◌then◌else◌, Bool-cases, some,
  inl, inr, List, [], ◌∷◌, String, same_text, arith,
}
use mach_emu.Base.Int.{ℤ, pos, negsuc, ltb_ℤ}
use mach_emu.Base.Results.{if_cases, if_taken_eq, if_not_taken_eq, and_then, or_throw}
use mach_emu.CpuClock.{CpuClock, no_error, clock_resolution, set_tick_resolution, to_int}
use mach_emu.Options
use mach_emu.Options.Library.{Json, IsJson, entry}
use mach_emu.Options.{default_opts, isr_freq, get, remove_prefix, codes, parse_opts, accept}
use mach_emu.Options.Update.{accept-plain}
use mach_emu.Options.Invariant.{IsUsable, get-update, get-object}
use mach_emu.Machine.Settings.{
  set_resolution, Settings, machine_is_running, out_of_range, from_options, set_resolution,
  set_clock_resolution,
}

-- The ticks of a resolution: 2^31 of them are not reached by any that `SetClockResolution` takes,
-- at 2 MHz.
abbrev ticks_of : ℤ → CpuClock → ℤ
ticks_of (pos r) c = pos (r / c.time_period)
ticks_of (negsuc _) c = negsuc 0

abbrev too_fine : ℤ → CpuClock → Bool
too_fine (pos r) c = ltb r c.max_resolution
too_fine (negsuc _) c = false

to_int_small : (n : ℕ) → n < 2147483648 → to_int n ≡ pos n
to_int_small n h = ground arith

set_tick_resolution_lem :
    (resolution : ℤ) (c : CpuClock)
    → c.time_period ≡ 500
    → ltb_ℤ (pos 10000000000) resolution ≡ false
    → set_tick_resolution resolution c ≡ (
      if too_fine resolution c then clock_resolution else no_error,
      ticks_of resolution c,
      record c { total_ticks = ticks_of resolution c },
    )
unfolding set_tick_resolution
set_tick_resolution_lem (pos r) c h small =
    let below_bound : r ≤ 10000000000 = ground arith in
    rw (to_int_small (r / c.time_period) (rw h (omega arith))) refl
set_tick_resolution_lem (negsuc r) c h small = refl

module _ {J : Type 0} ⦃json : Json J⦄ (lawful : IsJson json) where
  resolution_json-absent :
      (k : String) (v : J)
      → same_text "clockResolution" k ≡ false
      → json.contains k (json.object (("clockResolution", v) ∷ [])) ≡ false
  unfolding entry
  resolution_json-absent k v other =
      rw (lawful.contains-object k (("clockResolution", v) ∷ []), other) refl

  resolved :
      (zlib : Bool) (files : List ℕ → List ℕ) (opts : List ℕ) (resolution : ℤ) (options : J)
      → parse_opts files opts
        ≡ inr (json.object (("clockResolution", json.integer resolution) ∷ []))
      → IsUsable lawful zlib options
      → (options' : J) × (freq : json.Double) × (Options.set_options zlib files (some opts) options
          ≡ inr options')
        × (Options.clock_resolution options'
            ≡ or_throw Options.type_error (json.get_int64 (json.integer resolution)))
        × (isr_freq options ≡ inr freq)
        × (isr_freq options' ≡ inr freq)
  unfolding Options.set_options Options.clock_resolution isr_freq and_then or_throw entry
      default_opts
  resolved zlib files opts resolution options parsed (complete, timed, compressed) =
      let v = json.integer resolution in
      let j = json.object (("clockResolution", v) ∷ []) in
      let (options', updated) =
        lawful.update-is_object options j
          (lawful.contains-is_object "isrFreq" options
            (complete "isrFreq" (lawful.contains-object "isrFreq" _)))
          (lawful.is_object-object _) in
      let accepted =
        accept-plain zlib options j (resolution_json-absent "cpu" v refl)
          (resolution_json-absent "isrFreq" v refl) (resolution_json-absent "compressor" v refl)
          (resolution_json-absent "ramOffset" v refl) (resolution_json-absent "ramSize" v refl)
          (resolution_json-absent "romOffset" v refl) in
      let there = complete "isrFreq" (lawful.contains-object "isrFreq" _) in
      let (freq, read, positive) = timed there in
      let e1 = lawful.contains-update "isrFreq" options j options' updated in
      let e2 = lawful.contains-update "clockResolution" options j options' updated in
      let given : json.contains "clockResolution" j ≡ true =
        lawful.contains-object "clockResolution" _ in
      let freq_kept =
        get-update lawful json.get_double "isrFreq" options j options' updated (ground arith) in
      (
        options',
        freq,
        rw (parsed, accepted, updated) refl,
        get-update lawful json.get_int64 "clockResolution" options j options' updated (ground arith)
            ∙ rw (lawful.contains-object "clockResolution" (("clockResolution", v) ∷ [])) (
                get-object lawful json.get_int64 "clockResolution" (("clockResolution", v) ∷ []) v
                  refl),
        read,
        freq_kept ∙ rw (resolution_json-absent "isrFreq" v refl) read,
      )

module _ {J I O : Type 0} ⦃json : Json J⦄ (isr_ticks : json.Double → ℤ → ℤ) where
  set_resolution_lem :
      (resolution : ℤ) (m : Settings J I O) (freq : json.Double)
      → m.clock.time_period ≡ 500
      → ltb_ℤ (pos 10000000000) resolution ≡ false
      → isr_freq m.options ≡ inr freq
      → set_resolution isr_ticks resolution m
        ≡ inr (
          if too_fine resolution m.clock then clock_resolution else no_error,
          record m {
            clock = record (m.clock) { total_ticks = ticks_of resolution m.clock };
            ticks_per_isr =
                if too_fine resolution m.clock
                then m.ticks_per_isr
                else isr_ticks freq (ticks_of resolution m.clock);
          },
        )
  unfolding set_resolution from_options and_then
  set_resolution_lem resolution m freq h small read =
      elim (Bool-cases (too_fine resolution m.clock)) [
        | inl fine ↦ rw (set_tick_resolution_lem resolution m.clock h small, fine) refl
        | inr coarse ↦ rw (set_tick_resolution_lem resolution m.clock h small, coarse, read) refl
      ]

module _ {J I O : Type 0} ⦃json : Json J⦄ (lawful : IsJson json) (zlib : Bool)
    (files : List ℕ → List ℕ) (print : ℤ → List ℕ) (isr_ticks : json.Double → ℤ → ℤ) where
  -- On a machine whose options are usable, whose clock has the ticks of 500 nanoseconds that the
  -- constructor gives it, and whose json library reads what `snprintf` prints: while it runs,
  -- `SetClockResolution` throws, and so it does for a resolution below -1 or above 10 seconds.
  -- Otherwise it does not throw; the option "clockResolution" is then the resolution; the clock has
  -- the resolution in ticks of 500 nanoseconds, or -1 if it is negative; and `ticksPerIsr_` is
  -- `isrFreq` times that, except where the resolution is finer than the host's: then the result is
  -- the warning, and `ticksPerIsr_` is what it was before.
  pub set_clock_resolution_lem :
      (resolution : ℤ) (m : Settings J I O)
      → parse_opts files (print resolution)
        ≡ inr (json.object (("clockResolution", json.integer resolution) ∷ []))
      → m.clock.time_period ≡ 500
      → IsUsable lawful zlib m.options
      → if m.running
        then (set_clock_resolution zlib files print isr_ticks resolution m ≡ inl machine_is_running)
        else if ltb_ℤ resolution (negsuc 0) || ltb_ℤ (pos 10000000000) resolution
        then (set_clock_resolution zlib files print isr_ticks resolution m ≡ inl out_of_range)
        else ((options : J) × (freq : json.Double) × (Options.clock_resolution options
              ≡ or_throw Options.type_error (json.get_int64 (json.integer resolution)))
            × (isr_freq m.options ≡ inr freq)
            × (set_clock_resolution zlib files print isr_ticks resolution m
                ≡ inr (
                  if too_fine resolution m.clock then clock_resolution else no_error,
                  record m {
                    options = options;
                    clock = record (m.clock) { total_ticks = ticks_of resolution m.clock };
                    ticks_per_isr =
                        if too_fine resolution m.clock
                        then m.ticks_per_isr
                        else isr_ticks freq (ticks_of resolution m.clock);
                  },
                )))
  unfolding set_clock_resolution from_options and_then
  set_clock_resolution_lem resolution m parsed h usable =
      if_cases m.running (λ running. if_taken_eq m.running _ _ running)
        (λ stopped.
          let e0 = if_not_taken_eq m.running _ _ stopped in
          if_cases (ltb_ℤ resolution (negsuc 0) || ltb_ℤ (pos 10000000000) resolution)
            (λ out. e0 ∙ if_taken_eq _ _ _ out)
            (λ within.
              let (options, freq, e1, e2, e3, e4) =
                resolved lawful zlib files (print resolution) resolution m.options parsed usable in
              let small : ltb_ℤ (pos 10000000000) resolution ≡ false = ground arith in
              (
                options,
                freq,
                e2,
                e3,
                e0
                    ∙ if_not_taken_eq _ _ _ within
                    ∙ rw e1 (
                        set_resolution_lem isr_ticks resolution (record m { options = options })
                          freq h small e4),
              )))
