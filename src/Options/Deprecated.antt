-- ===== src/Options/Deprecated.antt =====
-- The layout that `SetOptions` takes from the deprecated properties.
use mathlib.Core.Path.{subst}
use mathlib.Core.Sum.{inr-injective}
use mach_emu.Base.{
  ℕ, ◌<◌, ◌≡◌, refl, sym, ◌∙◌, Bool, true, false, ◌||◌, if◌then◌else◌, Bool-cases, Option, none,
  some, inl, inr, List, [], ◌∷◌, String, same_text, arith,
}
use mach_emu.Base.Int.{pos}
use mach_emu.Base.Results.{and_then, or_throw, and_then-inr, or_throw-inr}
use mach_emu.Options.Library.{Json, IsJson, entry}
use mach_emu.Options.{
  block, rom_files, ram_blocks, type_error, get, get_const, read_blocks, read_layout, ram, rom,
  parse_opts, set_options, accept,
}
use mach_emu.Options.Update.{accept-inr}
use mach_emu.Options.Reading.{number_or_0, number, layout, convert_deprecated-layout}

module _ {J : Type 0} ⦃json : Json J⦄ (lawful : IsJson json) where
  number-lt : (key : String) (j : J) → number key j < 65536
  unfolding get or_throw and_then
  number-lt key j = member_number (json.member key j)
    where
      value_number :
          (v : J) (x : Option ℕ)
          → json.get_uint16 v ≡ x
          → number_or_0 (or_throw type_error x) < 65536
      value_number v none e = omega arith
      value_number v (some n) e = lawful.get_uint16-lt v n e

      member_number :
          (x : Option J)
          → number_or_0
              (and_then (or_throw type_error x) (λ v. or_throw type_error (json.get_uint16 v)))
            < 65536
      member_number none = omega arith
      member_number (some v) = value_number v _ refl

  number_if-lt : (c : Bool) (key : String) (j : J) → (if c then number key j else 0) < 65536
  number_if-lt true key j = number-lt key j
  number_if-lt false key j = omega arith

  read_layout_lem :
      (outer inner : String) (options : J) (o s : ℕ)
      → json.member outer options ≡ some (json.object ((inner, json.array (block o s ∷ [])) ∷ []))
      → same_text inner inner ≡ true
      → o < 65536
      → s < 65536
      → read_layout outer inner options ≡ inr ((o, s) ∷ [])
  unfolding read_layout read_blocks get_const or_throw and_then entry
  read_layout_lem outer inner options o s there same small_o small_s =
      let inside =
        lawful.member-object inner ((inner, json.array (block o s ∷ [])) ∷ [])
          (json.array (block o s ∷ [])) (rw same refl) in
      let size_at =
        lawful.member-object "size"
          (("offset", json.integer (pos o)) ∷ ("size", json.integer (pos s)) ∷ [])
          (json.integer (pos s)) refl in
      let offset_at =
        lawful.member-object "offset"
          (("offset", json.integer (pos o)) ∷ ("size", json.integer (pos s)) ∷ [])
          (json.integer (pos o)) refl in
      rw
        (
          there,
          inside.0,
          lawful.elements-array (block o s ∷ []),
          offset_at.1,
          lawful.get_uint16-integer o small_o,
          size_at.1,
          lawful.get_uint16-integer s small_s,
        )
        refl

  overwritten :
      (k : String) (v a b c : J)
      → json.update a b ≡ some c
      → (json.contains k b ≡ true) × (json.member k b ≡ some v)
      → (json.contains k c ≡ true) × (json.member k c ≡ some v)
  overwritten k v a b c e (there, same) =
      let e' = lawful.contains-update k a b c e in
      let there' : json.contains k c ≡ true = ground arith in
      (there', rw (lawful.member-update k a b c e there', there) same)

  read-contains :
      (k : String) (j : J) (n : ℕ) → get json.get_uint16 k j ≡ inr n → json.contains k j ≡ true
  unfolding get
  read-contains k j n e = elim (Bool-cases (json.contains k j)) [
    | inl there ↦ there
    | inr missing ↦
        let (v, e1, e2) = and_then-inr (or_throw type_error (json.member k j)) _ n e in
        let none_read = lawful.get_uint16-member k j v missing (or_throw-inr type_error _ v e1) in
        let read = or_throw-inr type_error _ n e2 in cc
  ]

  -- Json that has neither "ram" nor "rom", but the deprecated "ramOffset", "ramSize" or
  -- "romOffset": unless `SetOptions` throws, there is then one block of ram and one of rom, with the
  -- offsets given and the size of the ram, where what is not given is 0. The size of the rom is
  -- "romSize" only if "ramSize" is given; then "romSize" must be too, or it throws; and without
  -- "ramSize", the size of the rom is 0.
  pub read_layout-set_options :
      (zlib : Bool) (files : List ℕ → List ℕ) (opts : List ℕ) (options j options' : J)
      → parse_opts files opts ≡ inr j
      → json.contains "ram" j ≡ false
      → json.contains "rom" j ≡ false
      → (json.contains "ramOffset" j || json.contains "ramSize" j || json.contains "romOffset" j)
        ≡ true
      → set_options zlib files (some opts) options ≡ inr options'
      → (ram options'
          ≡ inr (
              (
                if json.contains "ramOffset" j then number "ramOffset" j else 0,
                if json.contains "ramSize" j then number "ramSize" j else 0,
              )
              ∷ []))
        × (rom options'
            ≡ inr (
                (
                  if json.contains "romOffset" j then number "romOffset" j else 0,
                  if json.contains "ramSize" j then number "romSize" j else 0,
                )
                ∷ []))
        × (json.contains "ramSize" j ≡ true → json.contains "romSize" j ≡ true)
  unfolding ram rom set_options entry
  read_layout-set_options zlib files opts options j options' parsed no_ram no_rom some_given e =
      let (j2, e1, e2) =
        and_then-inr (and_then (parse_opts files opts) (accept zlib options)) _ options' e in
      let (raw, e3, e4) = and_then-inr (parse_opts files opts) (accept zlib options) j2 e1 in
      let accepted =
        subst (λ x. accept zlib options x ≡ inr j2) (inr-injective _ _ (sym e3 ∙ parsed)) e4 in
      let (apart, timed, compressed, converted) = accept-inr zlib options j j2 accepted in
      let (e5, given) = convert_deprecated-layout j j2 no_ram no_rom some_given converted in
      let d = layout j in
      let fields =
        ("rom", rom_files d.rom_offset d.rom_size)
        ∷ ("ram", ram_blocks d.ram_offset d.ram_size)
        ∷ [] in
      let step1 =
        overwritten "ram" (ram_blocks d.ram_offset d.ram_size) j (json.object fields) j2 e5 (
          lawful.contains-object "ram" fields,
          (lawful.member-object "ram" fields (ram_blocks d.ram_offset d.ram_size) refl).0,
        ) in
      let step2 =
        overwritten "rom" (rom_files d.rom_offset d.rom_size) j (json.object fields) j2 e5 (
          lawful.contains-object "rom" fields,
          (lawful.member-object "rom" fields (rom_files d.rom_offset d.rom_size) refl).0,
        ) in
      let e6 = or_throw-inr type_error _ options' e2 in
      (
        read_layout_lem "ram" "block" options' d.ram_offset d.ram_size
            (overwritten "ram" _ options j2 options' e6 step1).1 refl (number_if-lt _ "ramOffset" j)
            (number_if-lt _ "ramSize" j),
        read_layout_lem "rom" "file" options' d.rom_offset d.rom_size
            (overwritten "rom" _ options j2 options' e6 step2).1 refl (number_if-lt _ "romOffset" j)
            (number_if-lt _ "romSize" j),
        λ h. read-contains "romSize" j (number "romSize" j) (given h),
      )
