-- ===== src/Options/Reading.antt =====
-- How `SetOptions` reads the deprecated properties.
use mathlib.Core.Path.{subst}
use mathlib.Core.Bool.{true≢false}
use mathlib.Core.Sum.{inr-injective}
use mach_emu.Base.{
  ℕ, ◌≡◌, refl, sym, ap, Bool, true, false, not, ◌&&◌, ◌||◌, if◌then◌else◌, some, ◌⊎◌, inl, inr,
  String,
}
use mach_emu.Base.Results.{if_taken, or_throw, and_then-inr, or_throw-inr}
use mach_emu.Options.Library.{Json}
use mach_emu.Options.{
  Failure, type_error, get, Layout, nothing_deprecated, set_ram_offset, set_ram_size,
  set_rom_offset, set_rom_size, deprecated_json, take_deprecated, read_deprecated,
  convert_deprecated,
}

abbrev pub number_or_0 : Failure ⊎ ℕ → ℕ
number_or_0 (inl _) = 0
number_or_0 (inr n) = n

abbrev step : Bool → (ℕ → Layout → Layout) → ℕ → Layout → Layout
step true assign n d = record (assign n d) { update = true }
step false assign n d = d

steps_lem :
    (c1 c2 c3 : Bool) (n1 n2 n3 n4 : ℕ)
    → step c2 set_rom_size n4 (
        step
          (c3 && true)
          set_rom_offset
          n3
          (step (c2 && true) set_ram_size n2 (step c1 set_ram_offset n1 nothing_deprecated)))
      ≡ record {
        ram_offset = if c1 then n1 else 0;
        ram_size = if c2 then n2 else 0;
        rom_offset = if c3 then n3 else 0;
        rom_size = if c2 then n4 else 0;
        update = c1 || c2 || c3;
      }
steps_lem true true true n1 n2 n3 n4 = refl
steps_lem true true false n1 n2 n3 n4 = refl
steps_lem true false true n1 n2 n3 n4 = refl
steps_lem true false false n1 n2 n3 n4 = refl
steps_lem false true true n1 n2 n3 n4 = refl
steps_lem false true false n1 n2 n3 n4 = refl
steps_lem false false true n1 n2 n3 n4 = refl
steps_lem false false false n1 n2 n3 n4 = refl

module _ {J : Type 0} ⦃json : Json J⦄ where
  -- The number of a key, or 0.
  abbrev pub number : String → J → ℕ
  number key j = number_or_0 (get json.get_uint16 key j)

  take_deprecated-inr :
      (j : J) (condition : Bool) (key : String) (assign : ℕ → Layout → Layout) (d d' : Layout)
      → take_deprecated j condition key assign d ≡ inr d'
      → (d' ≡ step condition assign (number key j) d)
        × (condition ≡ true → get json.get_uint16 key j ≡ inr (number key j))
  unfolding take_deprecated
  take_deprecated-inr j false key assign d d' e =
      (sym (inr-injective _ _ e), λ h. absurd (true≢false (sym h)))
  take_deprecated-inr j true key assign d d' e =
      let (n, read, e') = and_then-inr (get json.get_uint16 key j) _ d' e in
      rw read (sym (inr-injective _ _ e'), λ _. refl)

  abbrev pub layout : J → Layout
  layout j = record {
    ram_offset = if json.contains "ramOffset" j then number "ramOffset" j else 0;
    ram_size = if json.contains "ramSize" j then number "ramSize" j else 0;
    rom_offset = if json.contains "romOffset" j then number "romOffset" j else 0;
    rom_size = if json.contains "ramSize" j then number "romSize" j else 0;
    update =
        json.contains "ramOffset" j || json.contains "ramSize" j || json.contains "romOffset" j;
  }

  read_deprecated-inr :
      (j : J) (d : Layout)
      → json.contains "ram" j ≡ false
      → read_deprecated j ≡ inr d
      → (d ≡ layout j)
        × (json.contains "ramSize" j ≡ true
            → get json.get_uint16 "romSize" j ≡ inr (number "romSize" j))
  unfolding read_deprecated
  read_deprecated-inr j d absent e =
      let kept : not (json.contains "ram" j) ≡ true = ap not absent in
      let c1 = json.contains "ramOffset" j in
      let c2 = json.contains "ramSize" j in
      let c3 = json.contains "romOffset" j in
      let (d3, e3, last) = and_then-inr _ (take_deprecated j c2 "romSize" set_rom_size) d e in
      let (d2, e2, third) =
        and_then-inr _
          (take_deprecated j (c3 && not (json.contains "ram" j)) "romOffset" set_rom_offset) d3
          e3 in
      let (d1, first, second) =
        and_then-inr _
          (take_deprecated j (c2 && not (json.contains "ram" j)) "ramSize" set_ram_size) d2 e2 in
      let (s1, _) =
        take_deprecated-inr j c1 "ramOffset" set_ram_offset nothing_deprecated d1 first in
      let (s2, _) = take_deprecated-inr j _ "ramSize" set_ram_size d1 d2 second in
      let (s3, _) = take_deprecated-inr j _ "romOffset" set_rom_offset d2 d3 third in
      let (s4, given) = take_deprecated-inr j c2 "romSize" set_rom_size d3 d last in
      (rw (s4, s3, s2, s1, absent) (steps_lem c1 c2 c3 _ _ _ _), given)

  pub convert_deprecated-layout :
      (j j' : J)
      → json.contains "ram" j ≡ false
      → json.contains "rom" j ≡ false
      → (json.contains "ramOffset" j || json.contains "ramSize" j || json.contains "romOffset" j)
        ≡ true
      → convert_deprecated j ≡ inr j'
      → (json.update j (deprecated_json (layout j)) ≡ some j')
        × (json.contains "ramSize" j ≡ true
            → get json.get_uint16 "romSize" j ≡ inr (number "romSize" j))
  unfolding convert_deprecated
  convert_deprecated-layout j j' no_ram no_rom some_given =
      let kept : (not (json.contains "ram" j) && not (json.contains "rom" j)) ≡ true =
        rw (no_ram, no_rom) refl in
      rw kept (λ e.
        let (d, read, e') = and_then-inr (read_deprecated j) _ j' e in
        let (same, given) = read_deprecated-inr j d no_ram read in
        let e'' =
          subst
            (λ x.
              (if x.update then or_throw type_error (json.update j (deprecated_json x)) else inr j)
              ≡ inr j')
            same e' in
        (or_throw-inr type_error _ j' (if_taken (layout j).update _ _ _ some_given e''), given))
