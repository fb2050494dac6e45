-- ===== src/Machine/Settings/Changes.antt =====
-- What the operations on the settings make of them.
use mathlib.Core.Path.{subst}
use mathlib.Core.Sum.{inr-injective}
use mach_emu.Base.{
  ℕ, ◌≡◌, sym, ap, ◌∙◌, Bool, false, Bool-cases, Option, some, inl, inr, List, [], ◌∷◌, same_text,
}
use mach_emu.Base.Int.{ℤ}
use mach_emu.Base.Results.{and_then-inr, not_refused, if_taken, if_not_taken}
use mach_emu.CpuClock.{ErrorCode, set_tick_resolution}
use mach_emu.CpuClock.Platform.{Host}
use mach_emu.Options
use mach_emu.Options.{cpu_type, isr_freq, default_opts, codes}
use mach_emu.Options.Library.{Json, IsJson}
use mach_emu.Options.Invariant
use mach_emu.Options.Invariant.{IsUsable, call-IsUsable, default-IsUsable, calls}
use mach_emu.Options.CpuType.{cpu_type-calls}
use mach_emu.Machine.Settings.CpuType.{from_options-inr, cpu_type-contains, make_machine-inr}
use mach_emu.Machine.Settings.{
  Settings, machine_is_running, out_of_range, is_no_error, from_options, set_resolution,
  set_options, set_clock_resolution, on_save, on_load, initial_options, make_machine,
}

module _ {J : Type 0} ⦃json : Json J⦄ (lawful : IsJson json) where
  -- The options of a machine.
  abbrev pub Fits : Bool → J → Type 0
  Fits zlib options = IsUsable lawful zlib options × (cpu_type options ≡ inr "i8080")

  pub set_options-Fits :
      (zlib : Bool) (files : List ℕ → List ℕ) (opts : Option (List ℕ)) (options options' : J)
      → Options.set_options zlib files opts options ≡ inr options'
      → Fits zlib options
      → Fits zlib options'
  unfolding calls
  set_options-Fits zlib files opts options options' e (usable, typed) =
      let e' = ap (Invariant.keep options) e in
      (
        subst (IsUsable lawful zlib) e' (call-IsUsable lawful zlib files options opts usable),
        ap cpu_type (sym e')
            ∙ cpu_type-calls lawful zlib files (opts ∷ []) options (cpu_type-contains options typed)
            ∙ typed,
      )

  module _ (zlib : Bool) (files : List ℕ → List ℕ) {I O : Type 0} where
    -- The settings once they are changed: of a machine that does not run.
    abbrev pub Changed : Settings J I O → Settings J I O → Type 0
    Changed s s' =
        (s.running ≡ false) × (s'.running ≡ false) × (Fits zlib s.options → Fits zlib s'.options)

    pub set_options-Changed :
        (opts : Option (List ℕ)) (s s' : Settings J I O)
        → set_options zlib files opts s ≡ inr s'
        → Changed s s'
    unfolding set_options
    set_options-Changed opts s s' e =
        let (idle, e1) = not_refused machine_is_running s.running _ s' e in
        let (options, e2, e3) =
          and_then-inr (from_options (Options.set_options zlib files opts s.options)) _ s' e1 in
        subst (Changed s) (inr-injective _ _ e3) (
          idle,
          idle,
          set_options-Fits zlib files opts s.options options (from_options-inr _ options e2),
        )

    pub on_save-Changed :
        (f : Option I) (s s' : Settings J I O) → on_save f s ≡ inr s' → Changed s s'
    unfolding on_save
    on_save-Changed f s s' e =
        let (idle, e1) = not_refused machine_is_running s.running _ s' e in
        subst (Changed s) (inr-injective _ _ e1) (idle, idle, λ fits. fits)

    pub on_load-Changed :
        (f : Option O) (s s' : Settings J I O) → on_load f s ≡ inr s' → Changed s s'
    unfolding on_load
    on_load-Changed f s s' e =
        let (idle, e1) = not_refused machine_is_running s.running _ s' e in
        subst (Changed s) (inr-injective _ _ e1) (idle, idle, λ fits. fits)

    module _ (print : ℤ → List ℕ) (isr_ticks : json.Double → ℤ → ℤ) where
      set_resolution-Changed :
          (resolution : ℤ) (s : Settings J I O) (x : ErrorCode × Settings J I O)
          → s.running ≡ false
          → set_resolution isr_ticks resolution s ≡ inr x
          → Changed s x.1
      unfolding set_resolution
      set_resolution-Changed resolution s x idle e =
          let (err, ticks, clock) = set_tick_resolution resolution s.clock in
          elim (Bool-cases (is_no_error err)) [
            | inl good ↦
                let (freq, read, e') =
                  and_then-inr (from_options (isr_freq s.options)) _ x
                    (if_taken (is_no_error err) _ _ _ good e) in
                subst (λ y. Changed s y.1) (inr-injective _ _ e') (idle, idle, λ fits. fits)
            | inr bad ↦
                subst (λ y. Changed s y.1)
                  (inr-injective _ _ (if_not_taken (is_no_error err) _ _ _ bad e))
                  (idle, idle, λ fits. fits)
          ]

      pub set_clock_resolution-Changed :
          (resolution : ℤ) (s : Settings J I O) (x : ErrorCode × Settings J I O)
          → set_clock_resolution zlib files print isr_ticks resolution s ≡ inr x
          → Changed s x.1
      unfolding set_clock_resolution
      set_clock_resolution-Changed resolution s x e =
          let (idle, e1) = not_refused machine_is_running s.running _ x e in
          let (_, e2) = not_refused out_of_range _ _ x e1 in
          let (options, e3, e4) =
            and_then-inr
              (from_options (Options.set_options zlib files (some (print resolution)) s.options)) _
              x e2 in
          let (_, idle', fits) =
            set_resolution-Changed resolution (record s { options = options }) x idle e4 in
          (
            idle,
            idle',
            λ good. fits (
                set_options-Fits zlib files (some (print resolution)) s.options options
                  (from_options-inr _ options e3) good),
          )

  set_options-IsUsable :
      (zlib : Bool) (files : List ℕ → List ℕ) (opts : Option (List ℕ)) (options options' : J)
      → from_options (Options.set_options zlib files opts options) ≡ inr options'
      → IsUsable lawful zlib options
      → IsUsable lawful zlib options'
  set_options-IsUsable zlib files opts options options' e usable =
      subst (IsUsable lawful zlib)
        (ap (Invariant.keep options)
          (from_options-inr (Options.set_options zlib files opts options) options' e))
        (call-IsUsable lawful zlib files options opts usable)

  initial_options-IsUsable :
      (zlib : Bool) (files : List ℕ → List ℕ) (opts : Option (List ℕ)) (options : J)
      → initial_options zlib files opts ≡ inr options
      → IsUsable lawful zlib options
  unfolding initial_options
  initial_options-IsUsable zlib files opts options e =
      let (given, e1, e2) =
        and_then-inr (from_options (Options.set_options zlib files opts (default_opts zlib))) _
          options e in
      let (name, e3, e4) = and_then-inr (from_options (cpu_type given)) _ options e2 in
      let usable =
        set_options-IsUsable zlib files opts (default_opts zlib) given e1
          (default-IsUsable lawful zlib) in
      elim (Bool-cases (same_text name "")) [
        | inl none_given ↦
            set_options-IsUsable zlib files (some (codes "{\"cpu\":\"i8080\"}")) given options
              (if_taken (same_text name "") _ _ _ none_given e4) usable
        | inr named ↦
            subst (IsUsable lawful zlib)
              (inr-injective _ _ (if_not_taken (same_text name "") _ _ _ named e4)) usable
      ]

  -- The settings of a machine that the constructor makes.
  pub make_machine-Fits :
      {T I O : Type 0} ⦃host : Host T⦄ (zlib : Bool) (files : List ℕ → List ℕ)
      (opts : Option (List ℕ)) (w : T) (s : Settings J I O)
      → make_machine zlib files opts w ≡ inr s
      → (s.running ≡ false) × Fits zlib s.options
  make_machine-Fits zlib files opts w s e =
      let (typed, idle, made) = make_machine-inr zlib files opts w s e in
      (idle, (initial_options-IsUsable zlib files opts s.options made, typed))
