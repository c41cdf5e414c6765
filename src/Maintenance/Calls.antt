-- ===== src/Maintenance/Calls.antt =====
-- Code that calls its ports one after the other, with errors of its own type: its result, with the
-- calls that it has made.
use folioharbor.Prelude.{List, [], refl, ◌++◌, ◌∷◌, ◌≡◌}
use folioharbor.Prelude.Result.{Result, ok, err}

abbrev pub Traced {ℓ κ ι} : Type κ → Type ι → Type ℓ → Type (ℓ ⊔ κ ⊔ ι)
Traced Call E A = Result A E × List Call

-- Calls before the rest.
abbrev pub after {ℓ κ ι} :
    {Call : Type κ} {E : Type ι} {A : Type ℓ} → List Call → Traced Call E A → Traced Call E A
after made (result, calls) = (result, made ++ calls)

infixl 5 ◌>>=◌
-- `?`: the calls of the second part follow those of the first.
abbrev pub ◌>>=◌ {ℓ κ ι μ} :
    {Call : Type κ} {E : Type ι} {A : Type ℓ} {B : Type μ}
    → Traced Call E A
    → (A → Traced Call E B)
    → Traced Call E B
(err error, calls) >>= rest = (err error, calls)
(ok value, calls) >>= rest = after calls (rest value)

-- One call with its answer.
abbrev pub call {ℓ κ ι} :
    {Call : Type κ} {E : Type ι} {A : Type ℓ} → Call → Result A E → Traced Call E A
call made answer = (answer, made ∷ [])

-- Inversion of two parts that succeed.
pub >>=-traced-ok {ℓ κ ι μ} :
    {Call : Type κ} {E : Type ι} {A : Type ℓ} {B : Type μ} (first : Traced Call E A)
    (rest : A → Traced Call E B) {value : B}
    → (first >>= rest).0 ≡ ok value
    → (a : A) × (first.0 ≡ ok a)
      × ((rest a).0 ≡ ok value)
      × ((first >>= rest).1 ≡ first.1 ++ (rest a).1)
>>=-traced-ok (err error, calls) rest e = cc
>>=-traced-ok (ok a, calls) rest e = (a, refl, e, refl)
