-- ===== src/Options/Invariant.antt =====
-- What holds of the options after any calls of `SetOptions`.
use mathlib.Core.Path.{subst}
use mathlib.Core.Bool.{true≢false}
use mach_emu.Base.{
  ℕ, ◌≡◌, refl, sym, ap, ◌∙◌, Bool, true, false, ◌&&◌, if◌then◌else◌, Bool-cases, Option, none,
  some, ◌⊎◌, inl, inr, List, [], ◌∷◌, String, arith,
}
use mach_emu.Base.Results.{and_then, or_throw, and_then-inr, or_throw-inr}
use mach_emu.Options.Library.{Json, IsJson, entry, is_some}
use mach_emu.Options.{
  rom_files, ram_blocks, Failure, type_error, get, default_opts, parse_opts, accept, set_options,
}
use mach_emu.Options.Update.{Passes, is_zlib, convert_deprecated-inr, accept-inr}

module _ {J : Type 0} ⦃json : Json J⦄ where
  abbrev pub keep : J → Failure ⊎ J → J
  keep options (inl _) = options
  keep options (inr options') = options'

  -- A call, after which the options are as before if it throws.
  abbrev pub call : Bool → (List ℕ → List ℕ) → J → Option (List ℕ) → J
  call zlib files options opts = keep options (set_options zlib files opts options)

  unfoldable pub calls : Bool → (List ℕ → List ℕ) → J → List (Option (List ℕ)) → J
  calls zlib files options [] = options
  calls zlib files options (opts ∷ more) = calls zlib files (call zlib files options opts) more

module _ {J : Type 0} ⦃json : Json J⦄ (lawful : IsJson json) where
  pub get-update :
      {T : Type 0} (as_type : J → Option T) (k : String) (a b c : J)
      → json.update a b ≡ some c
      → json.contains k c ≡ true
      → get as_type k c ≡ (if json.contains k b then get as_type k b else get as_type k a)
  unfolding get
  get-update as_type k a b c e h =
      let e' = lawful.member-update k a b c e h in
      elim (Bool-cases (json.contains k b)) [
        | inl given ↦ rw (e', given) refl
        | inr kept ↦ rw (e', kept) refl
      ]

  Passes-update :
      {T : Type 0} (as_type : J → Option T) (refused : T → Bool) (k : String) (a b c : J)
      → json.update a b ≡ some c
      → Passes as_type refused k a
      → Passes as_type refused k b
      → Passes as_type refused k c
  Passes-update as_type refused k a b c e good good' h =
      let e' = get-update as_type k a b c e h in
      let either = sym (lawful.contains-update k a b c e) ∙ h in
      elim (Bool-cases (json.contains k b)) [
        | inl given ↦ rw (e', given) (good' given)
        | inr kept ↦ rw (e', kept) (good (ground arith))
      ]

  -- The options that a machine can use: all the keys of the defaults, an `isrFreq` that is a number
  -- and not negative, and no compressor that is not built in.
  abbrev pub IsUsable : Bool → J → Type 0
  IsUsable zlib options =
      ((k : String) → json.contains k (default_opts zlib) ≡ true → json.contains k options ≡ true)
      × Passes json.get_double json.is_negative "isrFreq" options
      × (zlib ≡ false → Passes json.get_string is_zlib "compressor" options)

  missing-Passes :
      {T : Type 0} (as_type : J → Option T) (refused : T → Bool) (k : String)
      (fields : List (String × J))
      → entry k fields ≡ none
      → Passes as_type refused k (json.object fields)
  missing-Passes as_type refused k fields e h =
      absurd (true≢false (sym h ∙ lawful.contains-object k fields ∙ ap is_some e))

  pub get-object :
      {T : Type 0} (as_type : J → Option T) (k : String) (fields : List (String × J)) (v : J)
      → entry k fields ≡ some v
      → get as_type k (json.object fields) ≡ or_throw type_error (as_type v)
  unfolding get
  get-object as_type k fields v e = let (e', _) = lawful.member-object k fields v e in rw e' refl

  deprecated-Passes :
      {T : Type 0} (as_type : J → Option T) (refused : T → Bool) (k : String) (a b : J)
      → entry k (("rom", a) ∷ ("ram", b) ∷ []) ≡ none
      → (j j' : J) → Passes as_type refused k j
      → json.update j (json.object (("rom", a) ∷ ("ram", b) ∷ [])) ≡ some j'
      → Passes as_type refused k j'
  deprecated-Passes as_type refused k a b none_there j j' good e =
      Passes-update as_type refused k j _ j' e good
        (missing-Passes as_type refused k (("rom", a) ∷ ("ram", b) ∷ []) none_there)

  pub default-IsUsable : (zlib : Bool) → IsUsable zlib (default_opts zlib)
  unfolding default_opts or_throw entry
  default-IsUsable zlib =
      let (d, e, positive) = lawful.get_double-integer 0 in
      (
        λ k h. h,
        λ h. (
          d,
          get-object json.get_double "isrFreq" _ _ refl ∙ ap (or_throw type_error) e,
          positive,
        ),
        λ without h. (
          "none",
          rw without (
              get-object json.get_string "compressor" _ _ refl
              ∙ ap (or_throw type_error) (lawful.get_string-text "none")),
          refl,
        ),
      )

  accepted_lem :
      (zlib : Bool) (options j j' : J)
      → accept zlib options j ≡ inr j'
      → Passes json.get_double json.is_negative "isrFreq" j'
        × (zlib ≡ false → Passes json.get_string is_zlib "compressor" j')
        × ((json.contains "cpu" options && json.contains "cpu" j') ≡ false)
  unfolding entry
  accepted_lem zlib options j j' e =
      let (apart, timed, compressed, converted) = accept-inr zlib options j j' e in
      elim (convert_deprecated-inr j j' converted) [
        | inl same ↦
            subst
              (λ x.
                Passes json.get_double json.is_negative "isrFreq" x
                × (zlib ≡ false → Passes json.get_string is_zlib "compressor" x)
                × ((json.contains "cpu" options && json.contains "cpu" x) ≡ false))
              same (timed, compressed, apart)
        | inr (d, e') ↦ (
          deprecated-Passes json.get_double json.is_negative "isrFreq" _ _ refl j j' timed e',
          λ h.
              deprecated-Passes json.get_string is_zlib "compressor" _ _ refl j j' (compressed h)
                e',
          rw
              (
                lawful.contains-update "cpu" j _ j' e',
                lawful.contains-object "cpu" (
                    ("rom", rom_files d.rom_offset d.rom_size)
                    ∷ ("ram", ram_blocks d.ram_offset d.ram_size)
                    ∷ []),
              )
              (ground arith),
        )
      ]

  IsUsable-update :
      (zlib : Bool) (a b c : J)
      → json.update a b ≡ some c
      → IsUsable zlib a
      → Passes json.get_double json.is_negative "isrFreq" b
      → (zlib ≡ false → Passes json.get_string is_zlib "compressor" b)
      → IsUsable zlib c
  IsUsable-update zlib a b c e (complete, timed, compressed) timed' compressed' = (
    λ k h. let given = complete k h in let e' = lawful.contains-update k a b c e in ground arith,
    Passes-update json.get_double json.is_negative "isrFreq" a b c e timed timed',
    λ h. Passes-update json.get_string is_zlib "compressor" a b c e (compressed h) (compressed' h),
  )

  -- A call of `SetOptions` throws, or its result is the options updated by json that passes.
  pub set_options-inr :
      (zlib : Bool) (files : List ℕ → List ℕ) (opts : Option (List ℕ)) (options options' : J)
      → set_options zlib files opts options ≡ inr options'
      → (j : J) × (json.update options j ≡ some options')
        × Passes json.get_double json.is_negative "isrFreq" j
        × (zlib ≡ false → Passes json.get_string is_zlib "compressor" j)
        × ((json.contains "cpu" options && json.contains "cpu" j) ≡ false)
  unfolding set_options entry default_opts
  set_options-inr zlib files none options options' e =
      let (complete, timed, compressed) = default-IsUsable zlib in
      (
        default_opts zlib,
        or_throw-inr type_error _ options' e,
        timed,
        compressed,
        rw (lawful.contains-object "cpu" _) (ground arith),
      )
  set_options-inr zlib files (some opts) options options' e =
      let (j, e1, e2) =
        and_then-inr (and_then (parse_opts files opts) (accept zlib options)) _ options' e in
      let (raw, parsed, accepted) =
        and_then-inr (parse_opts files opts) (accept zlib options) j e1 in
      let (timed, compressed, apart) = accepted_lem zlib options raw j accepted in
      (j, or_throw-inr type_error _ options' e2, timed, compressed, apart)

  pub call-IsUsable :
      (zlib : Bool) (files : List ℕ → List ℕ) (options : J) (opts : Option (List ℕ))
      → IsUsable zlib options
      → IsUsable zlib (call zlib files options opts)
  call-IsUsable zlib files options opts usable = after (set_options zlib files opts options) refl
    where
      after :
          (r : Failure ⊎ J)
          → set_options zlib files opts options ≡ r
          → IsUsable zlib (keep options r)
      after (inl x) e = usable
      after (inr options') e =
          let (j, e', timed, compressed, apart) =
            set_options-inr zlib files opts options options' e in
          IsUsable-update zlib options j options' e' usable timed compressed

  calls-keep :
      (zlib : Bool) (files : List ℕ → List ℕ) (options : J) (history : List (Option (List ℕ)))
      → IsUsable zlib options
      → IsUsable zlib (calls zlib files options history)
  unfolding calls
  calls-keep zlib files options [] usable = usable
  calls-keep zlib files options (opts ∷ more) usable =
      calls-keep zlib files (call zlib files options opts) more
        (call-IsUsable zlib files options opts usable)

  -- After any calls of `SetOptions`, whatever their arguments and whether or not some threw, the
  -- options have all the keys of the defaults; `isrFreq` is a number that is not negative; and
  -- without zlib support, the compressor is a text other than "zlib".
  pub calls-IsUsable :
      (zlib : Bool) (files : List ℕ → List ℕ) (history : List (Option (List ℕ)))
      → IsUsable zlib (calls zlib files (default_opts zlib) history)
  calls-IsUsable zlib files history =
      calls-keep zlib files (default_opts zlib) history (default-IsUsable zlib)
