-- ===== src/Base/Lists.antt =====
-- Lists measured and indexed by native numbers, under the library's names.
use Prim.Native.Nat.{ℕ, zero, suc, ◌+◌, ◌<◌}
use mathlib.Core.Path.{◌≡◌, refl, ap, ◌∙◌}
use mathlib.Core.List.{List, [], ◌∷◌, ◌++◌, map}
use mathlib.Core.Bool.{Bool, true, ◌&&◌}
use mathlib.Core.Option.{Option, none, some}
use native.Mathlib.Omega.{arith}

module _ {ℓ} {A : Type ℓ} where
  abbrev pub length : List A → ℕ
  length [] = 0
  length (x ∷ xs) = suc (length xs)

  abbrev pub get_elem? : List A → ℕ → Option A
  get_elem? [] i = none
  get_elem? (x ∷ xs) zero = some x
  get_elem? (x ∷ xs) (suc i) = get_elem? xs i

  abbrev pub take : ℕ → List A → List A
  take zero xs = []
  take (suc n) [] = []
  take (suc n) (x ∷ xs) = x ∷ take n xs

  pub take-length : (xs : List A) → take (length xs) xs ≡ xs
  take-length [] = refl
  take-length (x ∷ xs) = ap (λ ys. x ∷ ys) (take-length xs)

  unfoldable pub replicate : ℕ → A → List A
  replicate zero x = []
  replicate (suc n) x = x ∷ replicate n x

  pub length-replicate : (n : ℕ) (x : A) → length (replicate n x) ≡ n
  unfolding replicate
  length-replicate zero x = refl
  length-replicate (suc n) x = omega (arith, length-replicate n x)

  pub length-append : (xs ys : List A) → length (xs ++ ys) ≡ length xs + length ys
  length-append [] ys = omega arith
  length-append (x ∷ xs) ys = omega (arith, length-append xs ys)

module _ {ℓ} {A : Type ℓ} where
  unfoldable pub all : (A → Bool) → List A → Bool
  all f [] = true
  all f (x ∷ xs) = f x && all f xs

  -- An index within the list finds an element, with what holds of all.
  pub get_elem?-all :
      (f : A → Bool) (xs : List A) (i : ℕ)
      → all f xs ≡ true
      → i < length xs
      → (x : A) × (get_elem? xs i ≡ some x) × (f x ≡ true)
  unfolding all
  get_elem?-all f [] i h lt = absurd (omega arith)
  get_elem?-all f (x ∷ xs) zero h lt = (x, refl, ground arith)
  get_elem?-all f (x ∷ xs) (suc i) h lt = get_elem?-all f xs i (ground arith) (omega arith)

-- `n` numbers from `k` on.
unfoldable pub count_up : ℕ → ℕ → List ℕ
count_up k zero = []
count_up k (suc n) = k ∷ count_up (k + 1) n

pub get_elem?-map-count_up {ℓ} :
    {A : Type ℓ} (f : ℕ → A) (k n i : ℕ)
    → i < n
    → get_elem? (map f (count_up k n)) i ≡ some (f (k + i))
unfolding count_up
get_elem?-map-count_up f k zero i h = absurd (omega arith)
get_elem?-map-count_up f k (suc n) zero h = ap (λ j. some (f j)) (omega arith)
get_elem?-map-count_up f k (suc n) (suc i) h =
    get_elem?-map-count_up f (k + 1) n i (omega arith) ∙ ap (λ j. some (f j)) (omega arith)
