-- ===== src/Options/Library.antt =====
-- What Opt/source/Opt.cpp asks of nlohmann's json, whose values are `J`.
use mach_emu.Base.{
  ℕ, ◌<◌, ◌≡◌, Bool, true, false, ◌||◌, if◌then◌else◌, Option, none, some, List, [], ◌∷◌, String,
  same_text,
}
use mach_emu.Base.Int.{ℤ, pos}

-- `none` is an exception, of `parse` a parse error and of the others a type error. `member` is the
-- operator `[]`, which gives a null for a key that is missing, and `const_member` that of a
-- constant, which may not be used so. `elements` are those that a range loop goes through.
pub record Json (J : Type 0) : Type 1 where
  pub Double : Type 0
  pub parse : List ℕ → Option J
  pub is_object : J → Bool
  pub contains : String → J → Bool
  pub member : String → J → Option J
  pub const_member : String → J → Option J
  pub update : J → J → Option J
  pub elements : J → List J
  pub get_bool : J → Option Bool
  pub get_uint16 : J → Option ℕ
  pub get_int64 : J → Option ℤ
  pub get_double : J → Option Double
  pub get_string : J → Option String
  pub is_negative : Double → Bool
  pub boolean : Bool → J
  pub integer : ℤ → J
  pub text : String → J
  pub array : List J → J
  pub object : List (String × J) → J

-- The value of a key in a literal: the last one.
unfoldable pub entry : {J : Type 0} → String → List (String × J) → Option J
entry k [] = none
entry k (field ∷ fields) = elim (entry k fields) [
  | none ↦ if same_text field.0 k then some field.1 else none
  | some v ↦ some v
]

abbrev pub is_some : {A : Type 0} → Option A → Bool
is_some none = false
is_some (some _) = true

pub record IsJson {J : Type 0} (json : Json J) : Type 0 where
  pub contains-is_object : (k : String) (j : J) → json.contains k j ≡ true → json.is_object j ≡ true
  pub is_object-object : (fields : List (String × J)) → json.is_object (json.object fields) ≡ true
  pub contains-object :
      (k : String) (fields : List (String × J))
      → json.contains k (json.object fields) ≡ is_some (entry k fields)
  pub member-object :
      (k : String) (fields : List (String × J)) (v : J)
      → entry k fields ≡ some v
      → (json.member k (json.object fields) ≡ some v)
        × (json.const_member k (json.object fields) ≡ some v)
  pub update-is_object :
      (a b : J)
      → json.is_object a ≡ true
      → json.is_object b ≡ true
      → (c : J) × (json.update a b ≡ some c)
  pub contains-update :
      (k : String) (a b c : J)
      → json.update a b ≡ some c
      → json.contains k c ≡ (json.contains k a || json.contains k b)
  pub member-update :
      (k : String) (a b c : J)
      → json.update a b ≡ some c
      → json.contains k c ≡ true
      → json.member k c ≡ (if json.contains k b then json.member k b else json.member k a)
  -- The null of a missing key is no number.
  pub get_uint16-member :
      (k : String) (a n : J)
      → json.contains k a ≡ false
      → json.member k a ≡ some n
      → json.get_uint16 n ≡ none
  pub elements-array : (items : List J) → json.elements (json.array items) ≡ items
  pub get_uint16-integer : (n : ℕ) → n < 65536 → json.get_uint16 (json.integer (pos n)) ≡ some n
  pub get_uint16-lt : (j : J) (n : ℕ) → json.get_uint16 j ≡ some n → n < 65536
  pub get_double-integer :
      (n : ℕ)
      → (d : json.Double) × (json.get_double (json.integer (pos n)) ≡ some d)
        × (json.is_negative d ≡ false)
  pub get_string-text : (t : String) → json.get_string (json.text t) ≡ some t
