-- ===== src/Base/Results.antt =====
-- Results that may be an exception: the left side of a sum.
use mathlib.Core.Path.{◌≡◌, refl, sym, ap, ◌∙◌}
use mathlib.Core.Bool.{Bool, true, false, true≢false}
use mathlib.Core.Logic.{◌⊎◌, inl, inr}
use mathlib.Core.Option.{Option, none, some}
use mathlib.Core.Sum.{inr-injective, inl-ne-inr}
use mach_emu.Base.Tests.{if◌then◌else◌}

-- The next call, unless there was an exception.
unfoldable pub and_then : {E A B : Type 0} → E ⊎ A → (A → E ⊎ B) → E ⊎ B
and_then (inl e) f = inl e
and_then (inr a) f = f a

unfoldable pub or_throw : {E A : Type 0} → E → Option A → E ⊎ A
or_throw e none = inl e
or_throw e (some a) = inr a

pub and_then-inr :
    {E A B : Type 0} (x : E ⊎ A) (f : A → E ⊎ B) (b : B)
    → and_then x f ≡ inr b
    → (a : A) × (x ≡ inr a) × (f a ≡ inr b)
unfolding and_then
and_then-inr (inl e) f b h = absurd (inl-ne-inr h)
and_then-inr (inr a) f b h = (a, refl, h)

pub or_throw-inr : {E A : Type 0} (e : E) (x : Option A) (a : A) → or_throw e x ≡ inr a → x ≡ some a
unfolding or_throw
or_throw-inr e none a h = absurd (inl-ne-inr h)
or_throw-inr e (some b) a h = ap some (inr-injective _ _ h)

-- The value comes from the branch that does not throw.
pub not_thrown :
    {A B : Type 0} (a : A) {x y : B} (b : Bool)
    → Path (A ⊎ B) (if b then inl a else inr x) (inr y)
    → (b ≡ false) × (x ≡ y)
not_thrown a true e = absurd (inl-ne-inr e)
not_thrown a false e = (refl, inr-injective _ _ e)

-- A check of a value that is read only under a condition.
pub checked-inr :
    {E T A : Type 0} (condition : Bool) (x : E ⊎ T) (bad : T → Bool) (e : E) (a b : A)
    → (if condition then and_then x (λ t. if bad t then inl e else inr a) else inr a) ≡ inr b
    → (a ≡ b) × (condition ≡ true → (t : T) × (x ≡ inr t) × (bad t ≡ false))
checked-inr false x bad e a b h = (inr-injective _ _ h, λ c. absurd (true≢false (sym c)))
checked-inr true x bad e a b h =
    let (t, read, h') = and_then-inr x _ b h in
    let (good, same) = not_thrown e (bad t) h' in (same, λ _. (t, read, good))

pub if_taken_eq :
    {A : Type 0} (condition : Bool) (x y : A) → condition ≡ true → (if condition then x else y) ≡ x
if_taken_eq true x y h = refl
if_taken_eq false x y h = absurd (true≢false (sym h))

pub if_not_taken_eq :
    {A : Type 0} (condition : Bool) (x y : A) → condition ≡ false → (if condition then x else y) ≡ y
if_not_taken_eq true x y h = absurd (true≢false h)
if_not_taken_eq false x y h = refl

pub if_taken :
    {A : Type 0} (condition : Bool) (x y z : A)
    → condition ≡ true
    → (if condition then x else y) ≡ z
    → x ≡ z
if_taken condition x y z h e = sym (if_taken_eq condition x y h) ∙ e

pub if_not_taken :
    {A : Type 0} (condition : Bool) (x y z : A)
    → condition ≡ false
    → (if condition then x else y) ≡ z
    → y ≡ z
if_not_taken condition x y z h e = sym (if_not_taken_eq condition x y h) ∙ e

-- A statement by the cases of a test.
pub if_cases :
    {P Q : Type 0} (condition : Bool)
    → (condition ≡ true → P)
    → (condition ≡ false → Q)
    → if condition then P else Q
if_cases true p q = p refl
if_cases false p q = q refl

-- And back: the statement of the branch that is taken.
pub then_case :
    (P Q : Type 0) (condition : Bool) → condition ≡ true → if condition then P else Q → P
then_case P Q true h p = p
then_case P Q false h p = absurd (true≢false (sym h))

pub else_case :
    (P Q : Type 0) (condition : Bool) → condition ≡ false → if condition then P else Q → Q
else_case P Q true h p = absurd (true≢false h)
else_case P Q false h p = p

-- A check that throws has passed where there is a value.
pub not_refused :
    {E A : Type 0} (e : E) (b : Bool) (y : E ⊎ A) (z : A)
    → (if b then inl e else y) ≡ inr z
    → (b ≡ false) × (y ≡ inr z)
not_refused e true y z h = absurd (inl-ne-inr h)
not_refused e false y z h = (refl, h)

-- And one that has to hold for a value.
pub admitted :
    {E A : Type 0} (e : E) (b : Bool) (y : E ⊎ A) (z : A)
    → (if b then y else inl e) ≡ inr z
    → (b ≡ true) × (y ≡ inr z)
admitted e true y z h = (refl, h)
admitted e false y z h = absurd (inl-ne-inr h)
