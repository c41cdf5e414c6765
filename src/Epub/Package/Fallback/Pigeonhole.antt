-- ===== src/Epub/Package/Fallback/Pigeonhole.antt =====
-- Counting identifiers: different texts that a list holds are not more than its places.
use folioharbor.Prelude.{
  All, Bool-cases, List, [], ap, arith, false, if◌then◌else◌, inl, inr, length, refl, some, suc,
  true, ◌∷◌, ◌≡◌, ◌≤◌,
}
use folioharbor.Text.Chars.{Text, text_eq, text_eq-eq, text_eq_refl}
use folioharbor.Domain.Publication.{holds}
use folioharbor.Domain.Publication.Laws.{Distinct}
use folioharbor.Epub.Package.Manifest.{Manifest, ManifestItem, keys, lookup}

-- The list without the first place of a text.
drop_one : Text → List Text → List Text
drop_one x [] = []
drop_one x (y ∷ ys) = let rest = drop_one x ys in if text_eq y x then ys else y ∷ rest

length-drop_one :
    (x : Text) (ys : List Text) → holds x ys ≡ true → suc (length (drop_one x ys)) ≡ length ys
unfolding holds drop_one
length-drop_one x [] h = cc
length-drop_one x (y ∷ ys) h = ground (arith, length-drop_one x ys)

holds-drop_one :
    (x z : Text) (ys : List Text)
    → text_eq x z ≡ false
    → holds z ys ≡ true
    → holds z (drop_one x ys) ≡ true
unfolding holds drop_one
holds-drop_one x z [] unlike h = cc
holds-drop_one x z (y ∷ ys) unlike h = elim (Bool-cases (text_eq y x)) [
  | inl same ↦
      let equal : y ≡ x = text_eq-eq y x same in
      let passed : text_eq y z ≡ false = rw equal unlike in rw (same, drop_one) (ground arith)
  | inr different ↦ ground (arith, holds-drop_one x z ys)
]

-- Without one place of `x`, the list still holds the others.
held-drop_one :
    (x : Text) (zs ys : List Text)
    → holds x zs ≡ false
    → All (λ z. holds z ys ≡ true) zs
    → All (λ z. holds z (drop_one x ys) ≡ true) zs
unfolding holds
held-drop_one x [] ys fresh h = tt
held-drop_one x (z ∷ zs) ys fresh (p, h) =
    let unlike : text_eq x z ≡ false = elim (Bool-cases (text_eq x z)) [
      | inl same ↦
          let equal : x ≡ z = text_eq-eq x z same in absurd (ground (arith, text_eq_refl z))
      | inr different ↦ different
    ] in
    (holds-drop_one x z ys unlike p, held-drop_one x zs ys (ground arith) h)

-- Different texts that a list holds are not more than its places.
pub length-Distinct :
    (xs ys : List Text) → Distinct xs → All (λ x. holds x ys ≡ true) xs → length xs ≤ length ys
length-Distinct [] ys d h = omega arith
length-Distinct (x ∷ xs) ys (fresh, d) (p, h) = omega (
  arith,
  length-drop_one x ys p,
  length-Distinct xs (drop_one x ys) d (held-drop_one x xs ys fresh h),
)

pub holds-keys :
    (id : Text) (manifest : Manifest) {item : ManifestItem}
    → lookup id manifest ≡ some item
    → holds id (keys manifest) ≡ true
unfolding lookup holds
holds-keys id [] e = cc
holds-keys id ((key, held) ∷ manifest) {item} e =
    ground (arith, holds-keys id manifest {item = item})

pub length-keys : (manifest : Manifest) → length (keys manifest) ≡ length manifest
length-keys [] = refl
length-keys (held ∷ manifest) = ap suc (length-keys manifest)
