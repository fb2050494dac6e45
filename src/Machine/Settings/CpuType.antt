-- ===== src/Machine/Settings/CpuType.antt =====
-- The cpu type of a machine is read from its options, and the constructor takes "i8080" only.
use mathlib.Core.Bool.{true≢false}
use mathlib.Core.Sum.{inr-injective, inl-ne-inr}
use text.Mathlib.TextEquality.{eq_iff}
use mach_emu.Base.{
  ℕ, ◌≡◌, sym, ap, ◌∙◌, Bool, true, false, Bool-cases, Option, ◌⊎◌, inl, inr, List, String,
  same_text,
}
use mach_emu.Base.Results.{or_throw, if_taken, if_not_taken, and_then-inr}
use mach_emu.CpuClock.{make_cpu_clock}
use mach_emu.CpuClock.Platform.{Host}
use mach_emu.Options
use mach_emu.Options.Library.{Json}
use mach_emu.Options.{cpu_type}
use mach_emu.Machine.Settings.{
  Settings, no_host_resolution, from_options, initial_options, make_machine,
}

pub from_options-inr :
    {A : Type 0} (x : Options.Failure ⊎ A) (a : A) → from_options x ≡ inr a → x ≡ inr a
unfolding from_options
from_options-inr (inl e) a h = absurd (inl-ne-inr h)
from_options-inr (inr b) a h = ap inr (inr-injective _ _ h)

module _ {J : Type 0} ⦃json : Json J⦄ where
  pub cpu_type-contains :
      (options : J) → cpu_type options ≡ inr "i8080" → json.contains "cpu" options ≡ true
  unfolding cpu_type
  cpu_type-contains options e = elim (Bool-cases (json.contains "cpu" options)) [
    | inl there ↦ there
    | inr missing ↦
        let e' : Path (Options.Failure ⊎ String) (inr "") (inr "i8080") =
          if_not_taken (json.contains "cpu" options) _ _ _ missing e in
        absurd (true≢false ((ap (λ t. same_text t "") (inr-injective _ _ e'))))
  ]

  pub make_machine-inr :
      {W I O : Type 0} ⦃host : Host W⦄ (zlib : Bool) (files : List ℕ → List ℕ)
      (opts : Option (List ℕ)) (w : W) (m : Settings J I O)
      → make_machine zlib files opts w ≡ inr m
      → (cpu_type m.options ≡ inr "i8080")
        × (m.running ≡ false)
        × (initial_options zlib files opts ≡ inr m.options)
  unfolding make_machine
  make_machine-inr zlib files opts w m e =
      let (options, e1, e2) = and_then-inr (initial_options zlib files opts) _ m e in
      let (name, e3, e4) = and_then-inr (from_options (cpu_type options)) _ m e2 in
      elim (Bool-cases (same_text name "i8080")) [
        | inl same ↦
            let (clock, made, e5) =
              and_then-inr (or_throw no_host_resolution (make_cpu_clock 2000000 w)) _ m
                (if_taken (same_text name "i8080") _ _ _ same e4) in
            let e6 = inr-injective _ _ e5 in
            (
              ap (λ x. cpu_type x.options) (sym e6)
                  ∙ from_options-inr _ name e3
                  ∙ ap inr ((eq_iff name "i8080").0 same),
              ap (λ x. x.running) (sym e6),
              e1 ∙ ap (λ x. inr x.options) e6,
            )
        | inr other ↦ absurd (inl-ne-inr ((if_not_taken (same_text name "i8080") _ _ _ other e4)))
      ]
