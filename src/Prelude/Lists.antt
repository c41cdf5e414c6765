-- ===== src/Prelude/Lists.antt =====
-- Lists measured by native numbers, and predicates on their elements.
use Prim.Native.Nat.{ℕ, zero, suc, ◌+◌, ◌≤◌}
use mathlib.Core.Path.{◌≡◌, refl, sym, ap, ap₂, ◌∙◌}
use mathlib.Core.Bool.{Bool, true, false, ◌&&◌, ◌||◌}
use mathlib.Core.List.{List, [], ◌∷◌, ◌++◌, reverse_aux}
use mathlib.Core.Option.{Option, none, some}
use native.Mathlib.Nat.{zero-add, suc-add}
use native.Mathlib.Omega.{arith}

module _ {ℓ} {A : Type ℓ} where
  abbrev pub length : List A → ℕ
  length [] = 0
  length (x ∷ xs) = suc (length xs)

  abbrev pub take : ℕ → List A → List A
  take zero xs = []
  take (suc n) [] = []
  take (suc n) (x ∷ xs) = x ∷ take n xs

  abbrev pub drop : ℕ → List A → List A
  drop zero xs = xs
  drop (suc n) [] = []
  drop (suc n) (x ∷ xs) = drop n xs

  abbrev pub all : (A → Bool) → List A → Bool
  all p [] = true
  all p (x ∷ xs) = p x && all p xs

  abbrev pub any : (A → Bool) → List A → Bool
  any p [] = false
  any p (x ∷ xs) = p x || any p xs

  abbrev pub is_empty : List A → Bool
  is_empty [] = true
  is_empty (x ∷ xs) = false

  -- `Option::unwrap_or`
  abbrev pub or_default : A → Option A → A
  or_default a none = a
  or_default a (some b) = b

  abbrev pub is_some : Option A → Bool
  is_some none = false
  is_some (some x) = true

  pub length-append : (xs ys : List A) → length (xs ++ ys) ≡ length xs + length ys
  length-append [] ys = omega arith
  length-append (x ∷ xs) ys = omega (arith, length-append xs ys)

  pub all-append : (p : A → Bool) (xs ys : List A) → all p (xs ++ ys) ≡ (all p xs && all p ys)
  all-append p [] ys = refl
  all-append p (x ∷ xs) ys = ground (arith, all-append p xs ys)

  pub any-append : (p : A → Bool) (xs ys : List A) → any p (xs ++ ys) ≡ (any p xs || any p ys)
  any-append p [] ys = refl
  any-append p (x ∷ xs) ys = ground (arith, any-append p xs ys)

module _ {ℓ} {A : Type ℓ} where
  pub length-take_le : (n : ℕ) (xs : List A) → length (take n xs) ≤ n
  length-take_le zero xs = omega arith
  length-take_le (suc n) [] = omega arith
  length-take_le (suc n) (x ∷ xs) = omega (arith, length-take_le n xs)

  pub length-take-drop :
      (k o : ℕ) (xs : List A) → o + k ≤ length xs → length (take k (drop o xs)) ≡ k
  length-take-drop zero o xs h = refl
  length-take-drop (suc k) zero [] h = absurd (omega arith)
  length-take-drop (suc k) (suc o) [] h = absurd (omega arith)
  length-take-drop (suc k) zero (x ∷ xs) h = ap suc (length-take-drop k zero xs (omega arith))
  length-take-drop (suc k) (suc o) (x ∷ xs) h = length-take-drop (suc k) o xs (omega arith)

  take-nil : (n : ℕ) → take {A = A} n [] ≡ []
  take-nil zero = refl
  take-nil (suc n) = refl

  take-add : (k m : ℕ) (xs : List A) → take (k + m) xs ≡ take k xs ++ take m (drop k xs)
  take-add zero m xs = rw zero-add refl
  take-add (suc k) zero [] = rw suc-add refl
  take-add (suc k) (suc m) [] = rw suc-add refl
  take-add (suc k) m (x ∷ xs) = rw suc-add (ap (λ ys. x ∷ ys) (take-add k m xs))

  -- The first elements from `o` on, and those that follow them.
  pub take-split :
      (k m o : ℕ) (xs : List A)
      → take (k + m) (drop o xs) ≡ take k (drop o xs) ++ take m (drop (o + k) xs)
  take-split k m zero xs = rw zero-add (take-add k m xs)
  take-split k m (suc o) [] =
      rw suc-add (take-nil (k + m) ∙ sym (ap₂ (λ ys zs. ys ++ zs) (take-nil k) (take-nil m)))
  take-split k m (suc o) (x ∷ xs) = rw suc-add (take-split k m o xs)

-- A predicate on every element, by recursion: it computes to tuples.
module _ {ℓ κ} {A : Type ℓ} (P : A → Type κ) where
  abbrev pub All : List A → Type κ
  All [] = Unit
  All (x ∷ xs) = P x × All xs

  pub All-append : (xs ys : List A) → All xs → All ys → All (xs ++ ys)
  All-append [] ys h k = k
  All-append (x ∷ xs) ys (p, h) k = (p, All-append xs ys h k)

  pub All-reverse_aux : (xs ys : List A) → All xs → All ys → All (reverse_aux xs ys)
  All-reverse_aux [] ys h k = k
  All-reverse_aux (x ∷ xs) ys (p, h) k = All-reverse_aux xs (x ∷ ys) h (p, k)

module _ {ℓ κ ι} {A : Type ℓ} {P : A → Type κ} {Q : A → Type ι} where
  pub All-map : ((a : A) → P a → Q a) → (xs : List A) → All P xs → All Q xs
  All-map f [] h = tt
  All-map f (x ∷ xs) (p, h) = (f x p, All-map f xs h)

-- Two predicates on every element, as one.
module _ {ℓ κ ι} {A : Type ℓ} (P : A → Type κ) (Q : A → Type ι) where
  pub All-zip : (xs : List A) → All P xs → All Q xs → All (λ a. P a × Q a) xs
  All-zip [] h k = tt
  All-zip (x ∷ xs) (p, h) (q, k) = ((p, q), All-zip xs h k)

-- A list reversed onto another that is not empty is not empty.
pub reverse_aux-cons {ℓ} :
    {A : Type ℓ} (xs : List A) (y : A) (ys : List A)
    → (z : A) × (zs : List A) × (reverse_aux xs (y ∷ ys) ≡ z ∷ zs)
reverse_aux-cons [] y ys = (y, ys, refl)
reverse_aux-cons (x ∷ xs) y ys = reverse_aux-cons xs x (y ∷ ys)
