-- ===== src/Epub/Package/Spine.antt =====
-- The spine and the resources that `build_publication` of crates/epub/src/package.rs makes of a
-- sound document.
use folioharbor.Prelude.{
  All, Bool, Bool-cases, List, [], any, ap, arith, inl, inr, map, refl, some, suc, true, zero, ℕ,
  ◌&&◌, ◌||◌, ◌∷◌, ◌≡◌,
}
use folioharbor.Prelude.Result.{>>=-eq-ok, map_all, ok, ok_or, ok_or-eq-ok}
use folioharbor.Text.Chars.{Text, codes, text_eq, text_eq-eq, text_eq_refl}
use folioharbor.Domain.Publication.{holds}
use folioharbor.Epub.Error.{invalid_package}
use folioharbor.Epub.Path.{EpubPath}
use folioharbor.Epub.Package.Manifest.{Manifest, ManifestItem, lookup, lookup-All}
use folioharbor.Epub.Package.State.{PackageVersion, Resource, SpineItem}
use folioharbor.Epub.Package.Fallback.{is_readable_spine_item, readable_manifest_item}
use folioharbor.Epub.Package.Fallback.Laws.{
  Leads, readable_manifest_item-ends, readable_manifest_item_iff,
}
use folioharbor.Epub.Package.Build.{catalog_media_type, found_item, resolve_spine, resource_of}

-- A reader of the catalog displays these types.
abbrev pub is_displayed : Text → Bool
is_displayed media_type =
    text_eq media_type (codes "application/xhtml+xml") || text_eq media_type (codes "image/svg+xml")

abbrev pub shows : EpubPath → Resource → Bool
shows href resource = text_eq resource.href href && is_displayed resource.media_type

catalog_media_type-displayed :
    (version : PackageVersion) (id : Text) (item : ManifestItem) (readable_ids : List Text)
    → is_readable_spine_item version item ≡ true
    → holds id readable_ids ≡ true
    → is_displayed (catalog_media_type version id item readable_ids) ≡ true
unfolding catalog_media_type is_readable_spine_item
catalog_media_type-displayed version id item readable_ids readable h =
    let xhtml = text_eq_refl (codes "application/xhtml+xml") in ground arith

module _ (version : PackageVersion) (manifest : Manifest) where
  Leads-end :
      (n : ℕ) (id : Text) (found : Text × ManifestItem)
      → Leads version manifest n id found
      → (lookup found.0 manifest ≡ some found.1) × (is_readable_spine_item version found.1 ≡ true)
  Leads-end zero id found (same, stored, readable) = (rw same stored, readable)
  Leads-end (suc n) id found (item, next, stored, r, onward, l) = Leads-end n next found l

  -- A place of the spine names a readable item of the manifest.
  abbrev pub IsChosen : Text × SpineItem → Type 0
  IsChosen p =
      (item : ManifestItem) × (lookup p.0 manifest ≡ some item)
      × (is_readable_spine_item version item ≡ true)
      × (p.1.href ≡ item.href)

  found_item-ok :
      (idref : Text) {found : Text × ManifestItem}
      → found_item (readable_manifest_item version manifest idref) ≡ ok found
      → (lookup found.0 manifest ≡ some found.1) × (is_readable_spine_item version found.1 ≡ true)
  found_item-ok idref {found} e =
      let (r, ended) = readable_manifest_item-ends version manifest idref in
      let same : readable_manifest_item version manifest idref ≡ some (ok found) = ground arith in
      let (n, l) = (readable_manifest_item_iff version manifest idref found).0 same in
      Leads-end n idref found l

  pub resolve_spine-IsChosen :
      (refs : List (Text × Bool)) {resolved : List (Text × SpineItem)}
      → resolve_spine version manifest refs ≡ ok resolved
      → All IsChosen resolved × (map (λ p. p.1.linear) resolved ≡ map (λ ref. ref.1) refs)
  unfolding resolve_spine
  resolve_spine-IsChosen [] {resolved} e =
      let same : resolved ≡ [] = ground arith in rw same (tt, refl)
  resolve_spine-IsChosen ((idref, linear) ∷ refs) {resolved} e =
      let ((id, item), found, e) =
        >>=-eq-ok (found_item (readable_manifest_item version manifest idref)) _ e in
      let (rest, more, e) = >>=-eq-ok (resolve_spine version manifest refs) _ e in
      let (chosen, flags) = resolve_spine-IsChosen refs more in
      let (stored, readable) = found_item-ok idref found in
      let same : resolved ≡ (id, record { href = item.href; linear = linear }) ∷ rest =
        ground arith in
      rw same (((item, stored, readable, refl), chosen), ap (λ bs. linear ∷ bs) flags)

  -- Each resource is that of an identifier of the order, in its place.
  pub resources-ids :
      (readable_ids order : List Text) {resources : List Resource}
      → map_all (resource_of version manifest readable_ids) order ≡ ok resources
      → map (λ (r : Resource). r.id) resources ≡ order
  unfolding map_all resource_of
  resources-ids readable_ids [] {resources} e =
      let same : resources ≡ [] = ground arith in rw same refl
  resources-ids readable_ids (id ∷ order) {resources} e =
      let (r, made, e) = >>=-eq-ok (resource_of version manifest readable_ids id) _ e in
      let (rest, more, e) =
        >>=-eq-ok (map_all (resource_of version manifest readable_ids) order) _ e in
      let ids = resources-ids readable_ids order more in
      let (item, stored, made) = >>=-eq-ok (ok_or (lookup id manifest) invalid_package) _ made in
      let same : resources ≡ r ∷ rest = ground arith in
      let named : r.id ≡ id = ground arith in rw (same, named, ids) refl

  pub resources-All :
      (P : EpubPath → Type 0) (readable_ids order : List Text) {resources : List Resource}
      → All (λ p. P p.1.href) manifest
      → map_all (resource_of version manifest readable_ids) order ≡ ok resources
      → All (λ r. P r.href) resources
  unfolding map_all resource_of
  resources-All P readable_ids [] {resources} h e =
      let same : resources ≡ [] = ground arith in rw same tt
  resources-All P readable_ids (id ∷ order) {resources} h e =
      let (r, made, e) = >>=-eq-ok (resource_of version manifest readable_ids id) _ e in
      let (rest, more, e) =
        >>=-eq-ok (map_all (resource_of version manifest readable_ids) order) _ e in
      let (item, stored, made) = >>=-eq-ok (ok_or (lookup id manifest) invalid_package) _ made in
      let stored' = ok_or-eq-ok (lookup id manifest) invalid_package stored in
      let same : resources ≡ r ∷ rest = ground arith in
      let linked : r.href ≡ item.href = ground arith in
      rw (same, linked)
        (
          lookup-All (λ p. P p.1.href) id manifest h stored',
          resources-All P readable_ids order h more,
        )

  -- The item of a place of the spine is among the resources, with a type that is displayed.
  pub resources-shows :
      (readable_ids order : List Text) (id : Text) (item : ManifestItem) {resources : List Resource}
      → map_all (resource_of version manifest readable_ids) order ≡ ok resources
      → lookup id manifest ≡ some item
      → is_readable_spine_item version item ≡ true
      → holds id readable_ids ≡ true
      → holds id order ≡ true
      → any (shows item.href) resources ≡ true
  unfolding map_all resource_of holds
  resources-shows readable_ids [] id item e stored readable chosen h = cc
  resources-shows readable_ids (j ∷ order) id item {resources} e stored readable chosen h =
      let (r, made, e) = >>=-eq-ok (resource_of version manifest readable_ids j) _ e in
      let (rest, more, e) =
        >>=-eq-ok (map_all (resource_of version manifest readable_ids) order) _ e in
      let same : resources ≡ r ∷ rest = ground arith in
      elim (Bool-cases (text_eq j id)) [
        | inl here ↦
            let equal : j ≡ id = text_eq-eq j id here in
            let made' = rw (equal, stored) at made in
            let linked : r.href ≡ item.href = ground arith in
            let kind : r.media_type ≡ catalog_media_type version id item readable_ids =
              ground arith in
            let displayed =
              catalog_media_type-displayed version id item readable_ids readable chosen in
            rw (same, linked, kind, text_eq_refl item.href, displayed) refl
        | inr later ↦
            let there =
              resources-shows readable_ids order id item more stored readable chosen
                (ground arith) in
            rw same (ground arith)
      ]
