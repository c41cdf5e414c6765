-- ===== src/Epub/Package/Preserve.antt =====
-- What a child of a section adds keeps the document of the reader sound: the `add_` functions of
-- crates/epub/src/package.rs.
use folioharbor.Prelude.{Bool-cases, List, arith, inl, inr, some, ◌≡◌}
use folioharbor.Prelude.Result.{>>=-eq-ok, ok}
use folioharbor.Text.Chars.{codes}
use folioharbor.Epub.Error.{invalid_package}
use folioharbor.Epub.Path.{EpubPath}
use folioharbor.Epub.Archive.{BoundedArchive}
use folioharbor.Epub.Xml.{Attribute, Element, optional_attribute, required_attribute}
use folioharbor.Epub.Links.{find_link, find_link-IsTarget}
use folioharbor.Epub.Package.State.{PackageState, PackageVersion, epub_three, epub_two}
use folioharbor.Epub.Package.Items.{
  Child, add_child, add_guide_reference, add_manifest_item, add_metadata_meta, add_spine_ref,
  has_property, is_text, item_child, itemref_child, meta_child, no_child, package_link,
  parse_manifest_item, reference_child, set_cover_id, set_guide_cover, set_property,
}
use folioharbor.Epub.Package.Sound.{
  IsSound, IsSound-Keeps, Keeps, insert_new-IsSound, parse_manifest_item-IsTarget,
}

module _ (archive : BoundedArchive) (package_path : EpubPath) where
  abbrev pub Sound : PackageState → Type 0
  Sound s = IsSound archive s.document

  abbrev pub Kept : PackageState → PackageState → Type 0
  Kept s s' = Keeps archive s.document s'.document

  add_manifest_item-Sound :
      (attributes : List Attribute) (s : PackageState) {s' : PackageState}
      → Sound s
      → add_manifest_item archive package_path attributes s ≡ ok s'
      → Sound s'
  unfolding add_manifest_item
  add_manifest_item-Sound attributes s {s'} h e =
      let ((id, item), parsed, e) =
        >>=-eq-ok (parse_manifest_item archive package_path attributes) _ e in
      let target = parse_manifest_item-IsTarget archive package_path attributes parsed in
      insert_new-IsSound archive package_path id item s h target e

  add_spine_ref-Keeps :
      (attributes : List Attribute) (s : PackageState) {s' : PackageState}
      → add_spine_ref attributes s ≡ ok s'
      → Kept s s'
  unfolding add_spine_ref
  add_spine_ref-Keeps attributes s {s'} e =
      let (idref, _, e) =
        >>=-eq-ok (required_attribute invalid_package attributes (codes "idref")) _ e in
      let (linear, _, e) =
        >>=-eq-ok (optional_attribute invalid_package attributes (codes "linear")) _ e in
      ground arith

  set_property-Keeps :
      (attributes : List Attribute) (s : PackageState) {s' : PackageState}
      → set_property attributes s ≡ ok s'
      → Kept s s'
  unfolding set_property
  set_property-Keeps attributes s {s'} e =
      let (property, _, e) =
        >>=-eq-ok (optional_attribute invalid_package attributes (codes "property")) _ e in
      ground arith

  set_cover_id-Keeps :
      (attributes : List Attribute) (s : PackageState) {s' : PackageState}
      → set_cover_id attributes s ≡ ok s'
      → Kept s s'
  unfolding set_cover_id
  set_cover_id-Keeps attributes s {s'} e =
      let (cover, _, e) =
        >>=-eq-ok (required_attribute invalid_package attributes (codes "content")) _ e in
      ground arith

  add_metadata_meta-Keeps :
      (version : PackageVersion) (attributes : List Attribute) (s : PackageState)
      {s' : PackageState}
      → add_metadata_meta version attributes s ≡ ok s'
      → Kept s s'
  unfolding add_metadata_meta
  add_metadata_meta-Keeps epub_two attributes s {s'} e =
      let (name, _, e) =
        >>=-eq-ok (optional_attribute invalid_package attributes (codes "name")) _ e in
      elim (Bool-cases (is_text name (codes "cover"))) [
        | inl cover ↦ set_cover_id-Keeps attributes s {s' = s'} (rw cover at e)
        | inr unlike ↦ set_property-Keeps attributes s {s' = s'} (rw unlike at e)
      ]
  add_metadata_meta-Keeps epub_three attributes s e = set_property-Keeps attributes s e

  set_guide_cover-Sound :
      (attributes : List Attribute) (s : PackageState) {s' : PackageState}
      → Sound s
      → set_guide_cover archive package_path attributes s ≡ ok s'
      → Sound s'
  unfolding set_guide_cover package_link
  set_guide_cover-Sound attributes s {s'} h e =
      let (raw, _, e) =
        >>=-eq-ok (required_attribute invalid_package attributes (codes "href")) _ e in
      let (href, found, e) =
        >>=-eq-ok (find_link invalid_package (λ code. code) archive package_path raw) _ e in
      let target =
        find_link-IsTarget archive invalid_package (λ code. code) package_path raw found in
      let same : s' ≡ record s { document = record s.document { guide_cover = some href } } =
        ground arith in
      rw same (record {
        linked = h.linked;
        ordered = h.ordered;
        distinct = h.distinct;
        complete = h.complete;
        guided = target;
        bounded = h.bounded;
      })

  add_guide_reference-Sound :
      (attributes : List Attribute) (s : PackageState) {s' : PackageState}
      → Sound s
      → add_guide_reference archive package_path attributes s ≡ ok s'
      → Sound s'
  unfolding add_guide_reference
  add_guide_reference-Sound attributes s {s'} h e =
      let (kind, _, e) =
        >>=-eq-ok (optional_attribute invalid_package attributes (codes "type")) _ e in
      elim (Bool-cases (has_property kind (codes "cover"))) [
        | inl cover ↦ set_guide_cover-Sound attributes s {s' = s'} h (rw cover at e)
        | inr unlike ↦ let same : s' ≡ s = ground arith in rw same h
      ]

  pub add_child-Sound :
      (element : Element) (child : Child) (s : PackageState) {s' : PackageState}
      → Sound s
      → add_child archive package_path element child s ≡ ok s'
      → Sound s'
  unfolding add_child
  add_child-Sound element meta_child s h e =
      IsSound-Keeps archive (add_metadata_meta-Keeps s.document.version element.attributes s e) h
  add_child-Sound element item_child s h e = add_manifest_item-Sound element.attributes s h e
  add_child-Sound element itemref_child s h e =
      IsSound-Keeps archive (add_spine_ref-Keeps element.attributes s e) h
  add_child-Sound element reference_child s h e = add_guide_reference-Sound element.attributes s h e
  add_child-Sound element no_child s {s'} h e = let same : s' ≡ s = ground arith in rw same h
