-- ===== src/Epub/Package/Manifest.antt =====
-- The manifest of a package document: `ManifestItem` and the map of the items by their identifiers
-- in crates/epub/src/package.rs, in the order of the keys.
use folioharbor.Prelude.{
  All, Bool, Bool-cases, List, Option, [], arith, false, if◌then◌else◌, inl, inr, is_some, ltb, map,
  none, refl, some, true, ◌&&◌, ◌==◌, ◌||◌, ◌∷◌, ◌≡◌,
}
use folioharbor.Text.Chars.{Text, text_eq, text_eq-eq, text_eq_refl}
use folioharbor.Epub.Path.{EpubPath}

pub record ManifestItem : Type 0 where
  pub href : EpubPath
  pub media_type : Text
  pub properties : Text
  pub fallback : Option Text

abbrev pub Manifest : Type 0
Manifest = List (Text × ManifestItem)

-- The order of texts: by the first code point that differs, which is that of their UTF-8 bytes.
unfoldable pub text_lt : Text → Text → Bool
text_lt s [] = false
text_lt [] (d ∷ t) = true
text_lt (c ∷ s) (d ∷ t) = let rest = text_lt s t in ltb c d || (c == d && rest)

-- `BTreeMap::get`
unfoldable pub lookup : Text → Manifest → Option ManifestItem
lookup id [] = none
lookup id ((key, item) ∷ manifest) =
    let rest = lookup id manifest in if text_eq key id then some item else rest

-- `BTreeMap::insert` of a key that is not there.
unfoldable pub insert_item : Text → ManifestItem → Manifest → Manifest
insert_item id item [] = (id, item) ∷ []
insert_item id item ((key, other_item) ∷ manifest) =
    let rest = insert_item id item manifest in
    if text_lt id key then (id, item) ∷ (key, other_item) ∷ manifest else (key, other_item) ∷ rest

-- `BTreeMap::values`
unfoldable pub values : Manifest → List ManifestItem
values manifest = map (λ p. p.1) manifest

abbrev pub keys : Manifest → List Text
keys manifest = map (λ p. p.0) manifest

-- What holds of a new item and of the others holds of all.
module _ (P : Text × ManifestItem → Type 0) where
  pub insert_item-All :
      (id : Text) (item : ManifestItem) (manifest : Manifest)
      → P (id, item)
      → All P manifest
      → All P (insert_item id item manifest)
  unfolding insert_item
  insert_item-All id item [] p h = (p, tt)
  insert_item-All id item ((key, held) ∷ manifest) p h = elim (Bool-cases (text_lt id key)) [
    | inl here ↦ rw (here, insert_item) (p, h)
    | inr later ↦ rw (later, insert_item) (h.0, insert_item-All id item manifest p h.1)
  ]

  -- An item that is found is one of the manifest.
  pub lookup-All :
      (id : Text) (manifest : Manifest) {item : ManifestItem}
      → All P manifest
      → lookup id manifest ≡ some item
      → P (id, item)
  unfolding lookup
  lookup-All id [] h e = cc
  lookup-All id ((key, held) ∷ manifest) {item} h e = elim (Bool-cases (text_eq key id)) [
    | inl found ↦
        let same : held ≡ item = ground arith in rw (← same, ← text_eq-eq key id found) h.0
    | inr unlike ↦ lookup-All id manifest {item = item} h.1 (rw unlike at e)
  ]

pub lookup-insert_item :
    (id : Text) (item : ManifestItem) (manifest : Manifest)
    → lookup id manifest ≡ none
    → lookup id (insert_item id item manifest) ≡ some item
unfolding insert_item lookup
lookup-insert_item id item [] e = rw (text_eq_refl id) refl
lookup-insert_item id item ((key, held) ∷ manifest) e = elim (Bool-cases (text_eq key id)) [
  | inl found ↦ absurd (ground arith)
  | inr unlike ↦ ground (arith, text_eq_refl id, lookup-insert_item id item manifest)
]

abbrev pub has_id : Manifest → Text → Bool
has_id manifest id = is_some (lookup id manifest)

-- An item that was there is still found.
pub has_id-insert_item :
    (id : Text) (item : ManifestItem) (manifest : Manifest) (j : Text)
    → has_id manifest j ≡ true
    → has_id (insert_item id item manifest) j ≡ true
unfolding insert_item lookup
has_id-insert_item id item [] j h = absurd (ground arith)
has_id-insert_item id item ((key, held) ∷ manifest) j h =
    ground (arith, has_id-insert_item id item manifest j)
