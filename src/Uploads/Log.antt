-- ===== src/Uploads/Log.antt =====
-- Code of the application layer that calls its ports one after the other: its result, with the
-- calls that it has made. `Call` is the type of the calls.
use folioharbor.Prelude.{List, [], refl, ◌++◌, ◌∷◌, ◌≡◌}
use folioharbor.Prelude.Result.{ok, err}
use folioharbor.App.{App}

abbrev pub Logged {ℓ κ} : Type κ → Type ℓ → Type (ℓ ⊔ κ)
Logged Call A = App A × List Call

infixl 5 ◌>>=◌ ◌>>◌
-- `?`: the calls of the second part follow those of the first.
abbrev pub ◌>>=◌ {ℓ κ ι} :
    {Call : Type κ} {A : Type ℓ} {B : Type ι} → Logged Call A → (A → Logged Call B) → Logged Call B
(err error, calls) >>= rest = (err error, calls)
(ok value, calls) >>= rest = let (result, more) = rest value in (result, calls ++ more)

abbrev pub ◌>>◌ {κ ι} :
    {Call : Type κ} {B : Type ι} → Logged Call (Unit {0}) → Logged Call B → Logged Call B
(err error, calls) >> rest = (err error, calls)
(ok _, calls) >> rest = let (result, more) = rest in (result, calls ++ more)

-- One call with its answer.
abbrev pub call {ℓ κ} : {Call : Type κ} {A : Type ℓ} → Call → App A → Logged Call A
call made answer = (answer, made ∷ [])

-- Inversion of two parts that succeed.
pub >>=-logged-ok {ℓ κ ι} :
    {Call : Type κ} {A : Type ℓ} {B : Type ι} (first : Logged Call A) (rest : A → Logged Call B)
    {value : B}
    → (first >>= rest).0 ≡ ok value
    → (a : A) × (first.0 ≡ ok a)
      × ((rest a).0 ≡ ok value)
      × ((first >>= rest).1 ≡ first.1 ++ (rest a).1)
>>=-logged-ok (err error, calls) rest e = cc
>>=-logged-ok (ok a, calls) rest e = (a, refl, e, refl)

pub >>-logged-ok {κ ι} :
    {Call : Type κ} {B : Type ι} (first : Logged Call (Unit {0})) (rest : Logged Call B) {value : B}
    → (first >> rest).0 ≡ ok value
    → (first.0 ≡ ok tt) × (rest.0 ≡ ok value) × ((first >> rest).1 ≡ first.1 ++ rest.1)
>>-logged-ok (err error, calls) rest e = cc
>>-logged-ok (ok _, calls) rest e = (refl, e, refl)
