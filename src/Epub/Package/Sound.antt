-- ===== src/Epub/Package/Sound.antt =====
-- What the reader of the package document keeps of its document, and the functions that add to it.
use folioharbor.Prelude.{
  All, All-append, All-map, Bool-cases, List, Option, [], arith, false, inl, inr, length, none,
  refl, some, true, ◌++◌, ◌∷◌, ◌≡◌, ◌≤◌, ◌⊎◌,
}
use folioharbor.Prelude.Result.{>>=-eq-ok, ok}
use folioharbor.Text.Chars.{Text, codes, text_eq, text_eq-eq, text_eq_refl}
use folioharbor.Domain.Publication.{holds}
use folioharbor.Domain.Publication.Laws.{Distinct}
use folioharbor.Epub.Error.{invalid_package}
use folioharbor.Epub.Path.{EpubPath, new}
use folioharbor.Epub.Archive.{BoundedArchive}
use folioharbor.Epub.Xml.{Attribute, optional_attribute, required_attribute}
use folioharbor.Epub.Links.{IsTarget, find_link, find_link-IsTarget}
use folioharbor.Epub.Package.Manifest.{
  Manifest, ManifestItem, has_id, has_id-insert_item, insert_item, insert_item-All, lookup,
  lookup-insert_item,
}
use folioharbor.Epub.Package.State.{PackageDocument, PackageState, max_warnings}
use folioharbor.Epub.Package.Items.{insert_new, package_link, parse_manifest_item}

module _ (archive : BoundedArchive) where
  abbrev pub IsGuide : Option EpubPath → Type 0
  IsGuide none = Unit
  IsGuide (some cover) = IsTarget archive cover

  -- The items link into the archive, the order names items, each once,
  -- and all of them, the guide's cover is in the
  -- archive, and the warnings are not too many.
  pub record IsSound (d : PackageDocument) : Type 0 where
    pub linked : All (λ p. IsTarget archive p.1.href) d.manifest
    pub ordered : All (λ id. has_id d.manifest id ≡ true) d.order
    pub distinct : Distinct d.order
    pub complete : All (λ p. holds p.0 d.order ≡ true) d.manifest
    pub guided : IsGuide d.guide_cover
    pub bounded : length d.warnings ≤ max_warnings

  -- The manifest, its order, the cover and the warnings are as they were.
  pub record Keeps (d d' : PackageDocument) : Type 0 where
    pub manifest_kept : d'.manifest ≡ d.manifest
    pub order_kept : d'.order ≡ d.order
    pub guide_kept : d'.guide_cover ≡ d.guide_cover
    pub warnings_kept : d'.warnings ≡ d.warnings

  pub IsSound-Keeps : {d d' : PackageDocument} → Keeps d d' → IsSound d → IsSound d'
  IsSound-Keeps k h = record {
    linked = rw k.manifest_kept h.linked;
    ordered = rw (k.manifest_kept, k.order_kept) h.ordered;
    distinct = rw k.order_kept h.distinct;
    complete = rw (k.manifest_kept, k.order_kept) h.complete;
    guided = rw k.guide_kept h.guided;
    bounded = rw k.warnings_kept h.bounded;
  }

-- An identifier that names no item is not in the order.
holds-order :
    (manifest : Manifest) (id : Text) (order : List Text)
    → has_id manifest id ≡ false
    → All (λ j. has_id manifest j ≡ true) order
    → holds id order ≡ false
unfolding holds
holds-order manifest id [] missing h = refl
holds-order manifest id (j ∷ order) missing (p, h) = elim (Bool-cases (text_eq j id)) [
  | inl same ↦ let equal : j ≡ id = text_eq-eq j id same in absurd cc
  | inr different ↦ ground (arith, holds-order manifest id order missing h)
]

holds-append :
    (value x : Text) (xs : List Text)
    → holds value xs ≡ false
    → text_eq x value ≡ false
    → holds value (xs ++ x ∷ []) ≡ false
unfolding holds
holds-append value x [] h unlike = ground arith
holds-append value x (y ∷ ys) h unlike = ground (arith, holds-append value x ys)

holds-appended :
    (value x : Text) (xs : List Text)
    → (holds value xs ≡ true) ⊎ (text_eq x value ≡ true)
    → holds value (xs ++ x ∷ []) ≡ true
unfolding holds
holds-appended value x [] h = ground arith
holds-appended value x (y ∷ ys) h = ground (arith, holds-appended value x ys)

Distinct-append :
    (xs : List Text) (x : Text) → Distinct xs → holds x xs ≡ false → Distinct (xs ++ x ∷ [])
unfolding holds
Distinct-append [] x d fresh = (refl, tt)
Distinct-append (y ∷ ys) x (new, d) fresh =
    let unlike : text_eq x y ≡ false = elim (Bool-cases (text_eq x y)) [
      | inl same ↦
          let equal : x ≡ y = text_eq-eq x y same in absurd (ground (arith, text_eq_refl y))
      | inr different ↦ different
    ] in
    (holds-append y x ys new unlike, Distinct-append ys x d (ground arith))

module _ (archive : BoundedArchive) (package_path : EpubPath) where
  pub parse_manifest_item-IsTarget :
      (attributes : List Attribute) {parsed : Text × ManifestItem}
      → parse_manifest_item archive package_path attributes ≡ ok parsed
      → IsTarget archive parsed.1.href
  unfolding parse_manifest_item package_link
  parse_manifest_item-IsTarget attributes {parsed} e =
      let (id, _, e) = >>=-eq-ok (required_attribute invalid_package attributes (codes "id")) _ e in
      let (raw, _, e) =
        >>=-eq-ok (required_attribute invalid_package attributes (codes "href")) _ e in
      let (href, found, e) =
        >>=-eq-ok (find_link invalid_package (λ code. code) archive package_path raw) _ e in
      let (kind, _, e) =
        >>=-eq-ok (required_attribute invalid_package attributes (codes "media-type")) _ e in
      let (properties, _, e) =
        >>=-eq-ok (optional_attribute invalid_package attributes (codes "properties")) _ e in
      let (fallback, _, e) =
        >>=-eq-ok (optional_attribute invalid_package attributes (codes "fallback")) _ e in
      let same : href ≡ parsed.1.href = ground arith in
      rw (← same) (find_link-IsTarget archive invalid_package (λ code. code) package_path raw found)

  pub insert_new-IsSound :
      (id : Text) (item : ManifestItem) (s : PackageState) {s' : PackageState}
      → IsSound archive s.document
      → IsTarget archive item.href
      → insert_new (id, item) s ≡ ok s'
      → IsSound archive s'.document
  unfolding insert_new
  insert_new-IsSound id item s {s'} h target e =
      let m = s.document.manifest in
      elim (Bool-cases (has_id m id)) [
        | inl there ↦ absurd (ground arith)
        | inr missing ↦
            let d : PackageDocument = record s.document {
              manifest = insert_item id item m;
              order = s.document.order ++ id ∷ [];
            } in
            let same : s' ≡ record s { document = d } = ground arith in
            let absent : lookup id m ≡ none = ground arith in
            let stored = lookup-insert_item id item m absent in
            rw same (record {
              linked = insert_item-All (λ p. IsTarget archive p.1.href) id item m target h.linked;
              ordered =
                  All-append (λ j. has_id (insert_item id item m) j ≡ true) s.document.order
                    (id ∷ [])
                    (All-map (λ j. has_id-insert_item id item m j) s.document.order h.ordered)
                    (rw stored refl, tt);
              distinct =
                  Distinct-append s.document.order id h.distinct
                    (holds-order m id s.document.order missing h.ordered);
              complete =
                  insert_item-All (λ p. holds p.0 (s.document.order ++ id ∷ []) ≡ true) id item m
                    (holds-appended id id s.document.order (inr (text_eq_refl id)))
                    (All-map (λ p held. holds-appended p.0 id s.document.order (inl held)) m
                      h.complete);
              guided = h.guided;
              bounded = h.bounded;
            })
      ]
