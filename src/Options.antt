-- ===== src/Options.antt =====
-- Opt/source/Opt.cpp: the options of a machine, a json object that `SetOptions` updates. The json
-- library is a parameter, `Json`; the files' contents are another.
pub mod Library
pub mod Update
pub mod Invariant
pub mod CpuType
pub mod Reading
pub mod Deprecated
use Prim.Native.Char.{code}
use mach_emu.Base.{
  ℕ, ◌==◌, Bool, true, false, not, ◌&&◌, ◌||◌, if◌then◌else◌, Option, none, some, ◌⊎◌, inl, inr,
  List, [], ◌∷◌, String, same_text,
}
use mach_emu.Base.Int.{ℤ, pos, negsuc}
use mach_emu.Base.Results.{and_then, or_throw}
use mach_emu.Options.Library.{Json}

-- The exceptions, of `SetOptions` and of the json library.
pub data Failure : Type 0 where
  parse_error type_error cpu_already_set negative_isr_freq no_zlib : Failure

abbrev pub codes : String → List ℕ
codes String.[] = []
codes (String.◌∷◌ c s) = code c ∷ codes s

-- `starts_with` and `remove_prefix`.
unfoldable pub remove_prefix : List ℕ → List ℕ → Option (List ℕ)
remove_prefix [] cs = some cs
remove_prefix (p ∷ ps) [] = none
remove_prefix (p ∷ ps) (c ∷ cs) = let rest = remove_prefix ps cs in if p == c then rest else none

-- The numbers of `j`, the json that the deprecated properties fill, and `update`.
pub record Layout : Type 0 where
  pub ram_offset : ℕ
  pub ram_size : ℕ
  pub rom_offset : ℕ
  pub rom_size : ℕ
  pub update : Bool

abbrev pub nothing_deprecated : Layout
nothing_deprecated = record {
  ram_offset = 0;
  ram_size = 0;
  rom_offset = 0;
  rom_size = 0;
  update = false;
}

abbrev pub set_ram_offset : ℕ → Layout → Layout
set_ram_offset n d = record d { ram_offset = n }

abbrev pub set_ram_size : ℕ → Layout → Layout
set_ram_size n d = record d { ram_size = n }

abbrev pub set_rom_offset : ℕ → Layout → Layout
set_rom_offset n d = record d { rom_offset = n }

abbrev pub set_rom_size : ℕ → Layout → Layout
set_rom_size n d = record d { rom_size = n }

module _ {J : Type 0} ⦃json : Json J⦄ where
  -- `{"offset":o,"size":s}`.
  abbrev pub block : ℕ → ℕ → J
  block o s = json.object (("offset", json.integer (pos o)) ∷ ("size", json.integer (pos s)) ∷ [])

  abbrev pub rom_files : ℕ → ℕ → J
  rom_files o s = json.object (("file", json.array (block o s ∷ [])) ∷ [])

  abbrev pub ram_blocks : ℕ → ℕ → J
  ram_blocks o s = json.object (("block", json.array (block o s ∷ [])) ∷ [])

  -- `DefaultOpts`, parsed; `zlib` tells whether ENABLE_ZLIB is defined.
  unfoldable pub default_opts : Bool → J
  default_opts zlib = json.object (
      ("clockResolution", json.integer (negsuc 0))
      ∷ ("compressor", json.text (if zlib then "zlib" else "none"))
      ∷ ("encoder", json.text "base64")
      ∷ ("isrFreq", json.integer (pos 0))
      ∷ ("loadAsync", json.boolean false)
      ∷ ("rom", rom_files 0 0)
      ∷ ("ram", ram_blocks 0 0)
      ∷ ("runAsync", json.boolean false)
      ∷ ("saveAsync", json.boolean false)
      ∷ [])

  -- `j[key].get<T>()`.
  unfoldable pub get : {T : Type 0} → (J → Option T) → String → J → Failure ⊎ T
  unfolding and_then or_throw
  get as_type key j =
      and_then (or_throw type_error (json.member key j)) (λ v. or_throw type_error (as_type v))

  -- The json that the argument stands for, when it is not null.
  unfoldable pub parse_opts : (List ℕ → List ℕ) → List ℕ → Failure ⊎ J
  unfolding remove_prefix or_throw
  parse_opts files opts = or_throw parse_error (elim (remove_prefix (codes "file://") opts) [
    | none ↦ json.parse opts
    | some name ↦ json.parse (files name)
  ])

  unfoldable pub check_cpu : J → J → Failure ⊎ J
  check_cpu options j =
      if json.contains "cpu" options && json.contains "cpu" j then inl cpu_already_set else inr j

  unfoldable pub check_isr_freq : J → Failure ⊎ J
  unfolding get
  check_isr_freq j =
      if json.contains "isrFreq" j
      then and_then (get json.get_double "isrFreq" j)
          (λ freq. if json.is_negative freq then inl negative_isr_freq else inr j)
      else inr j

  unfoldable pub check_compressor : Bool → J → Failure ⊎ J
  unfolding get
  check_compressor zlib j =
      if not zlib && json.contains "compressor" j
      then and_then (get json.get_string "compressor" j)
          (λ name. if same_text name "zlib" then inl no_zlib else inr j)
      else inr j

  -- One `if` of the deprecated properties: its condition, and the property that it reads.
  unfoldable pub take_deprecated :
      J → Bool → String → (ℕ → Layout → Layout) → Layout → Failure ⊎ Layout
  unfolding get
  take_deprecated j condition key assign d =
      if condition
      then and_then (get json.get_uint16 key j) (λ n. inr (record (assign n d) { update = true }))
      else inr d

  unfoldable pub read_deprecated : J → Failure ⊎ Layout
  unfolding take_deprecated and_then
  read_deprecated j =
      and_then
        (and_then
          (and_then
            (take_deprecated j (json.contains "ramOffset" j) "ramOffset" set_ram_offset
              nothing_deprecated)
            (take_deprecated j (json.contains "ramSize" j && not (json.contains "ram" j)) "ramSize"
              set_ram_size))
          (take_deprecated j (json.contains "romOffset" j && not (json.contains "ram" j))
            "romOffset" set_rom_offset))
        (take_deprecated j (json.contains "ramSize" j) "romSize" set_rom_size)

  abbrev pub deprecated_json : Layout → J
  deprecated_json d = json.object (
      ("rom", rom_files d.rom_offset d.rom_size) ∷ ("ram", ram_blocks d.ram_offset d.ram_size) ∷ [])

  unfoldable pub convert_deprecated : J → Failure ⊎ J
  unfolding read_deprecated or_throw
  convert_deprecated j =
      if not (json.contains "ram" j) && not (json.contains "rom" j)
      then and_then (read_deprecated j)
          (λ d. if d.update then or_throw type_error (json.update j (deprecated_json d)) else inr j)
      else inr j

  -- All that is done to json that is given, before it updates the options.
  unfoldable pub accept : Bool → J → J → Failure ⊎ J
  unfolding check_cpu check_isr_freq check_compressor convert_deprecated
  accept zlib options j =
      and_then (and_then (and_then (check_cpu options j) check_isr_freq) (check_compressor zlib))
        convert_deprecated

  -- `SetOptions`, which returns `NoError` if it does not throw. The first argument is none for a
  -- null pointer.
  unfoldable pub set_options : Bool → (List ℕ → List ℕ) → Option (List ℕ) → J → Failure ⊎ J
  unfolding default_opts parse_opts accept
  set_options zlib files none options =
      or_throw type_error (json.update options (default_opts zlib))
  set_options zlib files (some opts) options =
      and_then (and_then (parse_opts files opts) (accept zlib options))
        (λ j. or_throw type_error (json.update options j))

  -- The accessors.
  unfoldable pub clock_resolution : J → Failure ⊎ ℤ
  unfolding get
  clock_resolution = get json.get_int64 "clockResolution"

  unfoldable pub compressor : J → Failure ⊎ String
  unfolding get
  compressor = get json.get_string "compressor"

  unfoldable pub cpu_type : J → Failure ⊎ String
  unfolding get
  cpu_type options =
      if json.contains "cpu" options then get json.get_string "cpu" options else inr ""

  unfoldable pub encoder : J → Failure ⊎ String
  unfolding get
  encoder = get json.get_string "encoder"

  unfoldable pub isr_freq : J → Failure ⊎ json.Double
  unfolding get
  isr_freq = get json.get_double "isrFreq"

  unfoldable pub load_async : J → Failure ⊎ Bool
  unfolding get
  load_async = get json.get_bool "loadAsync"

  unfoldable pub run_async : J → Failure ⊎ Bool
  unfolding get
  run_async = get json.get_bool "runAsync"

  unfoldable pub save_async : J → Failure ⊎ Bool
  unfolding get
  save_async = get json.get_bool "saveAsync"

  -- `block["offset"].get<uint16_t>()`, and the same of "size". In C++ the behaviour is undefined
  -- where the block is an object without that key; here it is a type error as of another value.
  unfoldable pub get_const : String → J → Failure ⊎ ℕ
  get_const key j =
      and_then (or_throw type_error (json.const_member key j))
        (λ v. or_throw type_error (json.get_uint16 v))

  unfoldable pub read_blocks : List J → Failure ⊎ List (ℕ × ℕ)
  unfolding get_const and_then
  read_blocks [] = inr []
  read_blocks (j ∷ js) = and_then (get_const "offset" j) (λ o.
      and_then (get_const "size" j) (λ s. and_then (read_blocks js) (λ rest. inr ((o, s) ∷ rest))))

  -- `Ram` and `Rom`.
  unfoldable pub read_layout : String → String → J → Failure ⊎ List (ℕ × ℕ)
  unfolding read_blocks or_throw
  read_layout outer inner options =
      and_then
        (and_then (or_throw type_error (json.member outer options))
          (λ v. or_throw type_error (json.member inner v)))
        (λ blocks. read_blocks (json.elements blocks))

  unfoldable pub ram : J → Failure ⊎ List (ℕ × ℕ)
  unfolding read_layout
  ram = read_layout "ram" "block"

  unfoldable pub rom : J → Failure ⊎ List (ℕ × ℕ)
  unfolding read_layout
  rom = read_layout "rom" "file"
