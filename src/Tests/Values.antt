-- ===== src/Tests/Values.antt =====
-- A json library for the tests: values, with the texts that it can parse.
use mathlib.Core.Bool.{true≢false}
use mathlib.Core.Option.{some-injective, none-ne-some}
use mach_emu.Base.{
  ℕ, ◌%◌, ◌<◌, ◌≡◌, refl, sym, ap, ◌∙◌, Bool, true, false, ◌&&◌, ◌||◌, ◌==◌, if◌then◌else◌, Option,
  none, some, List, [], ◌∷◌, String, same_text, arith,
}
use mach_emu.Base.Int.{ℤ, pos, negsuc}
use mach_emu.Options.{codes}
use mach_emu.Options.Library.{Json, IsJson, entry, is_some}

mutual
  pub data Fields : Type 0 where
    end : Fields
    field : String → Value → Fields → Fields

  pub data Items : Type 0 where
    nil : Items
    cons : Value → Items → Items

  pub data Value : Type 0 where
    obj : Fields → Value
    arr : Items → Value
    str : String → Value
    num : ℤ → Value
    bool : Bool → Value
    null : Value

abbrev find : String → Fields → Option Value
find k end = none
find k (field j v fields) = elim (find k fields) [
  | none ↦ if same_text j k then some v else none
  | some u ↦ some u
]

abbrev append : Fields → Fields → Fields
append end b = b
append (field j v a) b = field j v (append a b)

abbrev to_fields : List (String × Value) → Fields
to_fields [] = end
to_fields (x ∷ xs) = field x.0 x.1 (to_fields xs)

abbrev to_items : List Value → Items
to_items [] = nil
to_items (x ∷ xs) = cons x (to_items xs)

abbrev to_list : Items → List Value
to_list nil = []
to_list (cons x xs) = x ∷ to_list xs

abbrev fields_of : Value → Option Fields
fields_of (obj fields) = some fields
fields_of _ = none

abbrev contained : String → Option Fields → Bool
contained k none = false
contained k (some fields) = is_some (find k fields)

abbrev contains : String → Value → Bool
contains k v = contained k (fields_of v)

abbrev or_null : Option Value → Value
or_null none = null
or_null (some v) = v

abbrev member_of : String → Option Fields → Option Value
member_of k none = none
member_of k (some fields) = some (or_null (find k fields))

abbrev member : String → Value → Option Value
member k v = member_of k (fields_of v)

abbrev const_member : String → Value → Option Value
const_member k (obj fields) = find k fields
const_member k _ = none

abbrev is_object : Value → Bool
is_object v = is_some (fields_of v)

abbrev updated : Option Fields → Option Fields → Option Value
updated (some a) (some b) = some (obj (append a b))
updated _ _ = none

abbrev update : Value → Value → Option Value
update a b = updated (fields_of a) (fields_of b)

abbrev elements : Value → List Value
elements (arr items) = to_list items
elements _ = []

abbrev get_bool : Value → Option Bool
get_bool (bool b) = some b
get_bool _ = none

abbrev get_uint16 : Value → Option ℕ
get_uint16 (num (pos n)) = some (n % 65536)
get_uint16 _ = none

abbrev get_number : Value → Option ℤ
get_number (num z) = some z
get_number _ = none

abbrev get_string : Value → Option String
get_string (str s) = some s
get_string _ = none

abbrev is_negative : ℤ → Bool
is_negative (pos n) = false
is_negative (negsuc n) = true

abbrev same_codes : List ℕ → List ℕ → Bool
same_codes [] [] = true
same_codes (x ∷ xs) (y ∷ ys) = x == y && same_codes xs ys
same_codes _ _ = false

abbrev parse_one : List (String × Value) → List ℕ → Option Value
parse_one [] text = none
parse_one (known ∷ more) text =
    let rest = parse_one more text in if same_codes (codes known.0) text then some known.1 else rest

-- The library, for the texts that it can parse.
abbrev pub values : List (String × Value) → Json Value
values known = record {
  Double = ℤ;
  parse = parse_one known;
  is_object = is_object;
  contains = contains;
  member = member;
  const_member = const_member;
  update = update;
  elements = elements;
  get_bool = get_bool;
  get_uint16 = get_uint16;
  get_int64 = get_number;
  get_double = get_number;
  get_string = get_string;
  is_negative = is_negative;
  boolean = bool;
  integer = num;
  text = str;
  array = λ items. arr (to_items items);
  object = λ fields. obj (to_fields fields);
}

find-to_fields :
    (k : String) (fields : List (String × Value)) → find k (to_fields fields) ≡ entry k fields
unfolding entry
find-to_fields k [] = refl
find-to_fields k (x ∷ xs) = rw (find-to_fields k xs) refl

to_list-to_items : (xs : List Value) → to_list (to_items xs) ≡ xs
to_list-to_items [] = refl
to_list-to_items (x ∷ xs) = ap (λ ys. x ∷ ys) (to_list-to_items xs)

abbrev last : Option Value → Option Value → Option Value
last a none = a
last a (some v) = some v

find-append : (k : String) (a b : Fields) → find k (append a b) ≡ last (find k a) (find k b)
find-append k end b = last_none (find k b)
  where
    last_none : (x : Option Value) → x ≡ last none x
    last_none none = refl
    last_none (some v) = refl
find-append k (field j v a) b =
    ap (λ x. or_else x (if same_text j k then some v else none)) (find-append k a b)
    ∙ last_or_else (find k a) (find k b) _
  where
    or_else : Option Value → Option Value → Option Value
    or_else x y = elim x [ none ↦ y | some u ↦ some u ]

    last_or_else : (x y z : Option Value) → or_else (last x y) z ≡ last (or_else x z) y
    last_or_else x none z = refl
    last_or_else x (some v) z = refl

contains-append :
    (k : String) (a b : Fields)
    → is_some (find k (append a b)) ≡ (is_some (find k a) || is_some (find k b))
contains-append k a b = ap is_some (find-append k a b) ∙ some_last (find k a) (find k b)
  where
    some_last : (x y : Option Value) → is_some (last x y) ≡ (is_some x || is_some y)
    some_last none none = refl
    some_last (some u) none = refl
    some_last none (some v) = refl
    some_last (some u) (some v) = refl

member-append :
    (k : String) (a b : Fields)
    → some (or_null (find k (append a b)))
      ≡ (if is_some (find k b) then some (or_null (find k b)) else some (or_null (find k a)))
member-append k a b =
    ap (λ x. some (or_null x)) (find-append k a b) ∙ null_last (find k a) (find k b)
  where
    null_last :
        (x y : Option Value)
        → some (or_null (last x y)) ≡ (if is_some y then some (or_null y) else some (or_null x))
    null_last x none = refl
    null_last x (some v) = refl

missing_uint16 :
    (k : String) (x : Option Fields) (n : Value)
    → contained k x ≡ false
    → member_of k x ≡ some n
    → get_uint16 n ≡ none
missing_uint16 k none n h e = absurd (none-ne-some n e)
missing_uint16 k (some fields) n h e =
    ap get_uint16 (sym (some-injective _ _ e)) ∙ missing (find k fields) h
  where
    missing : (x : Option Value) → is_some x ≡ false → get_uint16 (or_null x) ≡ none
    missing none h = refl
    missing (some v) h = absurd (true≢false h)

contained-updated :
    (k : String) (x y : Option Fields) (c : Value)
    → updated x y ≡ some c
    → contains k c ≡ (contained k x || contained k y)
contained-updated k none y c e = absurd (none-ne-some c e)
contained-updated k (some a) none c e = absurd (none-ne-some c e)
contained-updated k (some a) (some b) c e =
    ap (contains k) (sym (some-injective _ _ e)) ∙ contains-append k a b

member_of-updated :
    (k : String) (x y : Option Fields) (c : Value)
    → updated x y ≡ some c
    → member k c ≡ (if contained k y then member_of k y else member_of k x)
member_of-updated k none y c e = absurd (none-ne-some c e)
member_of-updated k (some a) none c e = absurd (none-ne-some c e)
member_of-updated k (some a) (some b) c e =
    ap (member k) (sym (some-injective _ _ e)) ∙ member-append k a b

objects_updated :
    (x y : Option Fields)
    → is_some x ≡ true
    → is_some y ≡ true
    → (c : Value) × (updated x y ≡ some c)
objects_updated none y h h' = absurd (true≢false (sym h))
objects_updated (some a) none h h' = absurd (true≢false (sym h'))
objects_updated (some a) (some b) h h' = (obj (append a b), refl)

contained_some : (k : String) (x : Option Fields) → contained k x ≡ true → is_some x ≡ true
contained_some k none h = h
contained_some k (some a) h = refl

get_uint16-lt : (j : Value) (n : ℕ) → get_uint16 j ≡ some n → n < 65536
get_uint16-lt null n e = absurd (none-ne-some n e)
get_uint16-lt (bool b) n e = absurd (none-ne-some n e)
get_uint16-lt (num (pos m)) n e = let e' = some-injective _ _ e in omega arith
get_uint16-lt (num (negsuc m)) n e = absurd (none-ne-some n e)
get_uint16-lt (str t) n e = absurd (none-ne-some n e)
get_uint16-lt (arr items) n e = absurd (none-ne-some n e)
get_uint16-lt (obj fields) n e = absurd (none-ne-some n e)

pub values-IsJson : (known : List (String × Value)) → IsJson (values known)
values-IsJson known = record {
  contains-is_object = λ k j. contained_some k (fields_of j);
  is_object-object = λ fields. refl;
  contains-object = λ k fields. ap is_some (find-to_fields k fields);
  member-object =
      λ k fields v e. (rw (find-to_fields k fields, e) refl, find-to_fields k fields ∙ e);
  update-is_object = λ a b. objects_updated (fields_of a) (fields_of b);
  contains-update = λ k a b. contained-updated k (fields_of a) (fields_of b);
  member-update = λ k a b c e h. member_of-updated k (fields_of a) (fields_of b) c e;
  get_uint16-member = λ k a. missing_uint16 k (fields_of a);
  elements-array = to_list-to_items;
  get_uint16-integer = λ n h. ap some (omega arith);
  get_uint16-lt = get_uint16-lt;
  get_double-integer = λ n. (pos n, refl, refl);
  get_string-text = λ t. refl;
}
