-- ===== src/Options/Update.antt =====
-- What `SetOptions` does to each key: the steps that its argument goes through, and the update.
use mach_emu.Base.{
  ◌≡◌, refl, ◌∙◌, Bool, true, false, not, ◌&&◌, if◌then◌else◌, Bool-cases, Option, some, ◌⊎◌, inl,
  inr, String, same_text, arith,
}
use mathlib.Core.Path.{subst⁻¹}
use mathlib.Core.Bool.{true≢false}
use mathlib.Core.Sum.{inr-injective}
use mach_emu.Base.Results.{checked-inr, and_then, or_throw, not_thrown, and_then-inr, or_throw-inr}
use mach_emu.Options.Library.{Json}
use mach_emu.Options.{
  type_error, no_zlib, negative_isr_freq, cpu_already_set, get, take_deprecated, check_cpu,
  check_isr_freq, check_compressor, Layout, deprecated_json, read_deprecated, convert_deprecated,
  accept,
}

abbrev pub is_zlib : String → Bool
is_zlib name = same_text name "zlib"

module _ {J : Type 0} ⦃json : Json J⦄ where
  -- If the key is there, then its value has the type and is not refused.
  abbrev pub Passes : {T : Type 0} → (J → Option T) → (T → Bool) → String → J → Type 0
  Passes {T} as_type refused k j =
      json.contains k j ≡ true → (t : T) × (get as_type k j ≡ inr t) × (refused t ≡ false)

  check_cpu-inr :
      (options j j' : J)
      → check_cpu options j ≡ inr j'
      → ((json.contains "cpu" options && json.contains "cpu" j) ≡ false) × (j ≡ j')
  unfolding check_cpu
  check_cpu-inr options j j' = not_thrown cpu_already_set _

  check_isr_freq-inr :
      (j j' : J)
      → check_isr_freq j ≡ inr j'
      → (j ≡ j') × Passes json.get_double json.is_negative "isrFreq" j
  unfolding check_isr_freq
  check_isr_freq-inr j j' =
      checked-inr (json.contains "isrFreq" j) (get json.get_double "isrFreq" j) json.is_negative
        negative_isr_freq j j'

  check_compressor-inr :
      (zlib : Bool) (j j' : J)
      → check_compressor zlib j ≡ inr j'
      → (j ≡ j') × (zlib ≡ false → Passes json.get_string is_zlib "compressor" j)
  unfolding check_compressor
  check_compressor-inr true j j' e = (inr-injective _ _ e, λ h. absurd (true≢false h))
  check_compressor-inr false j j' e =
      let (same, passes) =
        checked-inr (json.contains "compressor" j) (get json.get_string "compressor" j) is_zlib
          no_zlib j j' e in
      (same, λ _. passes)

  pub convert_deprecated-inr :
      (j j' : J)
      → convert_deprecated j ≡ inr j'
      → (j ≡ j') ⊎ ((d : Layout) × (json.update j (deprecated_json d) ≡ some j'))
  unfolding convert_deprecated
  convert_deprecated-inr j j' =
      elim (Bool-cases (not (json.contains "ram" j) && not (json.contains "rom" j))) [
        | inr kept ↦ rw kept (λ e. inl (inr-injective _ _ e))
        | inl missing ↦ rw missing (λ e.
            let (d, read, e') = and_then-inr (read_deprecated j) _ j' e in converted d d.update e')
      ]
    where
      converted :
          (d : Layout) (changed : Bool)
          → (if changed then or_throw type_error (json.update j (deprecated_json d)) else inr j)
            ≡ inr j'
          → (j ≡ j') ⊎ ((d : Layout) × (json.update j (deprecated_json d) ≡ some j'))
      converted d true e = inr (d, or_throw-inr type_error _ j' e)
      converted d false e = inl (inr-injective _ _ e)

  -- What json has been accepted, and with what it is replaced.
  pub accept-inr :
      (zlib : Bool) (options j j' : J)
      → accept zlib options j ≡ inr j'
      → ((json.contains "cpu" options && json.contains "cpu" j) ≡ false)
        × Passes json.get_double json.is_negative "isrFreq" j
        × (zlib ≡ false → Passes json.get_string is_zlib "compressor" j)
        × (convert_deprecated j ≡ inr j')
  unfolding accept
  accept-inr zlib options j j' e =
      let (j3, e3, converted) =
        and_then-inr
          (and_then (and_then (check_cpu options j) check_isr_freq) (check_compressor zlib))
          convert_deprecated j' e in
      let (j2, e2, compressed) =
        and_then-inr (and_then (check_cpu options j) check_isr_freq) (check_compressor zlib) j3
          e3 in
      let (j1, e1, timed) = and_then-inr (check_cpu options j) check_isr_freq j2 e2 in
      let (apart, same1) = check_cpu-inr options j j1 e1 in
      let (same2, passes) = check_isr_freq-inr j1 j2 timed in
      let (same3, passes') = check_compressor-inr zlib j2 j3 compressed in
      let same12 = same1 ∙ same2 in
      let same = same12 ∙ same3 in
      (
        apart,
        subst⁻¹ (λ x. Passes json.get_double json.is_negative "isrFreq" x) same1 passes,
        λ h. subst⁻¹ (λ x. Passes json.get_string is_zlib "compressor" x) same12 (passes' h),
        subst⁻¹ (λ x. convert_deprecated x ≡ inr j') same converted,
      )

  -- Json without any key that the checks or the conversion look for is accepted as it is.
  pub accept-plain :
      (zlib : Bool) (options j : J)
      → json.contains "cpu" j ≡ false
      → json.contains "isrFreq" j ≡ false
      → json.contains "compressor" j ≡ false
      → json.contains "ramOffset" j ≡ false
      → json.contains "ramSize" j ≡ false
      → json.contains "romOffset" j ≡ false
      → accept zlib options j ≡ inr j
  unfolding accept check_cpu check_isr_freq check_compressor convert_deprecated read_deprecated
      take_deprecated and_then
  accept-plain zlib options j cpu isr_freq compressor ram_offset ram_size rom_offset =
      let apart : (json.contains "cpu" options && json.contains "cpu" j) ≡ false =
        rw cpu (ground arith) in
      let unzipped : (not zlib && json.contains "compressor" j) ≡ false =
        rw compressor (ground arith) in
      elim (Bool-cases (not (json.contains "ram" j) && not (json.contains "rom" j))) [
        | inr kept ↦ rw (apart, isr_freq, unzipped, kept) refl
        | inl missing ↦
            rw (apart, isr_freq, unzipped, missing, ram_offset, ram_size, rom_offset) refl
      ]
