-- ===== src/Prelude/Result.antt =====
-- `Result<A, E>` of the source, and the `?` operator as its bind.
use mathlib.Core.Path.{◌≡◌, refl}
use mathlib.Core.Logic.{◌⊎◌, inl, inr}
use mathlib.Core.Bool.{Bool, true, false}
use mathlib.Core.Option.{Option, none, some}
use mathlib.Core.List.{List, [], ◌∷◌}

pub data Result {ℓ κ} (A : Type ℓ) (E : Type κ) : Type (ℓ ⊔ κ) where
  ok : A → Result A E
  err : E → Result A E

-- `if b { return Err(e) }`
abbrev pub refuse_if {ι} : {E : Type ι} → Bool → E → Result (Unit {0}) E
refuse_if true e = err e
refuse_if false e = ok tt

-- `Option::ok_or`
abbrev pub ok_or {ℓ ι} : {A : Type ℓ} {E : Type ι} → Option A → E → Result A E
ok_or none e = err e
ok_or (some a) e = ok a

-- `Result::map_err`
abbrev pub map_err {ℓ ι κ} :
    {A : Type ℓ} {E : Type ι} {F : Type κ} → (E → F) → Result A E → Result A F
map_err f (ok a) = ok a
map_err f (err e) = err (f e)

-- `?`: the rest of the function runs on the value, and an error is returned.
infixl 5 ◌>>=◌ ◌>>◌
abbrev pub ◌>>=◌ {ℓ κ ι} :
    {A : Type ℓ} {B : Type κ} {E : Type ι} → Result A E → (A → Result B E) → Result B E
err failure >>= rest = err failure
ok value >>= rest = rest value

-- `check?;`
abbrev pub ◌>>◌ {κ ι} : {B : Type κ} {E : Type ι} → Result (Unit {0}) E → Result B E → Result B E
err failure >> rest = err failure
ok _ >> rest = rest

-- `Option::transpose` after a fallible `map`.
abbrev pub map_option {ℓ κ ι} :
    {A : Type ℓ} {B : Type κ} {E : Type ι} → (A → Result B E) → Option A → Result (Option B) E
map_option f none = ok none
map_option f (some a) = f a >>= λ b. ok (some b)

-- `iter().map(f).collect::<Result<Vec<_>, _>>()`
unfoldable pub map_all {ℓ κ ι} :
    {A : Type ℓ} {B : Type κ} {E : Type ι} → (A → Result B E) → List A → Result (List B) E
map_all f [] = ok []
map_all f (x ∷ xs) = f x >>= λ y. map_all f xs >>= λ ys. ok (y ∷ ys)

-- What a call with `?` that succeeds says of its two parts.
pub >>=-eq-ok {ℓ κ ι} :
    {A : Type ℓ} {B : Type κ} {E : Type ι} (first : Result A E) (rest : A → Result B E) {value : B}
    → (first >>= rest) ≡ ok value
    → (a : A) × (first ≡ ok a) × (rest a ≡ ok value)
>>=-eq-ok (err failure) rest h = cc
>>=-eq-ok (ok a) rest h = (a, refl, h)

pub >>=-eq-err {ℓ κ ι} :
    {A : Type ℓ} {B : Type κ} {E : Type ι} (first : Result A E) (rest : A → Result B E)
    {failure : E}
    → (first >>= rest) ≡ err failure
    → (first ≡ err failure) ⊎ ((a : A) × (first ≡ ok a) × (rest a ≡ err failure))
>>=-eq-err (err e) rest h = inl (cc)
>>=-eq-err (ok a) rest h = inr (a, refl, h)

pub map_err-eq-ok {ℓ ι κ} :
    {A : Type ℓ} {E : Type ι} {F : Type κ} (f : E → F) (r : Result A E) {a : A}
    → map_err f r ≡ ok a
    → r ≡ ok a
map_err-eq-ok f (ok x) h = cc
map_err-eq-ok f (err e) h = cc

-- A split on a computed result that keeps the equation.
pub Result-cases {ℓ κ} :
    {A : Type ℓ} {E : Type κ} (r : Result A E) → ((a : A) × (r ≡ ok a)) ⊎ ((e : E) × (r ≡ err e))
Result-cases (ok a) = inl (a, refl)
Result-cases (err e) = inr (e, refl)

pub >>-eq-ok {κ ι} :
    {B : Type κ} {E : Type ι} (check : Result (Unit {0}) E) (rest : Result B E) {value : B}
    → (check >> rest) ≡ ok value
    → (check ≡ ok tt) × (rest ≡ ok value)
>>-eq-ok (err failure) rest h = cc
>>-eq-ok (ok _) rest h = (refl, h)

pub ok_or-eq-ok {ℓ ι} :
    {A : Type ℓ} {E : Type ι} (o : Option A) (e : E) {a : A} → ok_or o e ≡ ok a → o ≡ some a
ok_or-eq-ok none e h = cc
ok_or-eq-ok (some a) e h = cc
