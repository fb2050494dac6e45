-- ===== src/Options/CpuType.antt =====
-- The type of the cpu is set once.
use mach_emu.Base.{
  ℕ, ◌≡◌, refl, sym, ◌∙◌, Bool, true, false, Option, ◌⊎◌, inl, inr, List, [], ◌∷◌, String, arith,
}
use mach_emu.Options.Library.{Json, IsJson}
use mach_emu.Options.{Failure, get, set_options, cpu_type}
use mach_emu.Options.Invariant.{keep, call, calls, get-update, set_options-inr}

module _ {J : Type 0} ⦃json : Json J⦄ (lawful : IsJson json) where
  HasCpu : J → Failure ⊎ String → Type 0
  HasCpu options t = (json.contains "cpu" options ≡ true) × (cpu_type options ≡ t)

  cpu_type_lem :
      (options : J)
      → json.contains "cpu" options ≡ true
      → cpu_type options ≡ get json.get_string "cpu" options
  unfolding cpu_type
  cpu_type_lem options there = rw there refl

  call-HasCpu :
      (zlib : Bool) (files : List ℕ → List ℕ) (options : J) (opts : Option (List ℕ))
      (t : Failure ⊎ String)
      → HasCpu options t
      → HasCpu (call zlib files options opts) t
  unfolding HasCpu cpu_type
  call-HasCpu zlib files options opts t has = after (set_options zlib files opts options) refl
    where
      after :
          (r : Failure ⊎ J) → set_options zlib files opts options ≡ r → HasCpu (keep options r) t
      after (inl x) e = has
      after (inr options') e =
          let (j, e', timed, compressed, apart) =
            set_options-inr lawful zlib files opts options options' e in
          let (there, same) = has in
          let there' = lawful.contains-update "cpu" options j options' e' in
          let absent : json.contains "cpu" j ≡ false = ground arith in
          let still : json.contains "cpu" options' ≡ true = ground arith in
          (
            still,
            cpu_type_lem options' still
                ∙ get-update lawful json.get_string "cpu" options j options' e' still
                ∙ rw absent (sym (cpu_type_lem options there) ∙ same),
          )

  -- Once the options have a cpu, no further calls of `SetOptions` change its type.
  pub cpu_type-calls :
      (zlib : Bool) (files : List ℕ → List ℕ) (history : List (Option (List ℕ))) (options : J)
      → json.contains "cpu" options ≡ true
      → cpu_type (calls zlib files options history) ≡ cpu_type options
  unfolding HasCpu calls
  cpu_type-calls zlib files history options there = (run options history (there, refl)).1
    where
      run :
          (now : J) (history : List (Option (List ℕ)))
          → HasCpu now (cpu_type options)
          → HasCpu (calls zlib files now history) (cpu_type options)
      run now [] has = has
      run now (opts ∷ more) has =
          run (call zlib files now opts) more (call-HasCpu zlib files now opts _ has)
