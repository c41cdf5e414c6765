-- ===== src/Epub/Package/Laws.antt =====
-- What holds of the publication that `parse` of crates/epub/src/package.rs returns.
use folioharbor.Prelude.{
  All, Bool, Bool-cases, List, Option, [], any, arith, false, inl, inr, is_empty, length,
  length-take_le, map, none, refl, some, true, ℕ, ◌-◌, ◌||◌, ◌∷◌, ◌≡◌, ◌≤◌,
}
use folioharbor.Prelude.Result.{>>=-eq-ok, map_all, ok, ok_or}
use folioharbor.Text.Chars.{Text, text_eq_refl}
use folioharbor.Domain.Publication.{holds}
use folioharbor.Domain.Publication.Laws.{Distinct}
use folioharbor.Epub.Error.{missing_package}
use folioharbor.Epub.Path.{EpubPath}
use folioharbor.Epub.Archive.{BoundedArchive, get}
use folioharbor.Epub.Links.{IsTarget}
use folioharbor.Epub.Reader.{Document}
use folioharbor.Epub.Package.Manifest.{Manifest, lookup-All}
use folioharbor.Epub.Package.State.{
  PackageDocument, PackageVersion, ParsedPublication, Resource, SpineItem, max_warnings,
  push_compatibility_warning,
}
use folioharbor.Epub.Package.Run.{read_document}
use folioharbor.Epub.Package.Sound.{IsGuide, IsSound}
use folioharbor.Epub.Package.Events.{read_document-IsSound}
use folioharbor.Epub.Package.Navigate.{select_toc}
use folioharbor.Epub.Package.Build.{
  build_publication, cover_of, resolve_spine, resource_of, with_warning,
}
use folioharbor.Epub.Package.Build
use folioharbor.Epub.Package.Spine.{
  IsChosen, resolve_spine-IsChosen, resources-All, resources-ids, resources-shows, shows,
}
use folioharbor.Epub.Package.Covers.{cover_of-IsTarget}
use folioharbor.Epub.Package.Contents.{IsSmall, select_toc-HasLink}

-- The links are normal paths of entries of the archive; no identifier stands twice; every place of
-- the spine is a resource of a type that is displayed; there is a title and a place in the spine,
-- and the warnings are at most 32.
module _ (archive : BoundedArchive) where
  pub record IsPublication (p : ParsedPublication) : Type 0 where
    pub titled : is_empty p.metadata.titles ≡ false
    pub readable : is_empty p.spine ≡ false
    pub shown : All (λ item. any (shows item.href) p.resources ≡ true) p.spine
    pub resources_linked : All (λ r. IsTarget archive r.href) p.resources
    pub spine_linked : All (λ item. IsTarget archive item.href) p.spine
    pub toc_linked : All (λ entry. IsTarget archive entry.href) p.toc
    pub cover_linked : IsGuide archive p.cover
    pub distinct : Distinct (map (λ (r : Resource). r.id) p.resources)
    pub bounded : length p.warnings ≤ max_warnings

length-push_compatibility_warning :
    (warnings : List Text) (warning : Text)
    → length warnings ≤ max_warnings
    → length (push_compatibility_warning warnings warning) ≤ max_warnings
unfolding push_compatibility_warning
length-push_compatibility_warning warnings warning h =
    ground (arith, length-take_le (max_warnings - 1) warnings)

length-with_warning :
    (warnings : List Text) (warning : Option Text)
    → length warnings ≤ max_warnings
    → length (with_warning warnings warning) ≤ max_warnings
length-with_warning warnings none h = h
length-with_warning warnings (some warning) h = length-push_compatibility_warning warnings warning h

resolved-filled :
    (resolved : List (Text × SpineItem)) (refs : List (Text × Bool))
    → map (λ p. p.1.linear) resolved ≡ map (λ ref. ref.1) refs
    → is_empty refs ≡ false
    → is_empty (map (λ p. p.1) resolved) ≡ false
resolved-filled (p ∷ resolved) refs flags filled = refl
resolved-filled [] [] flags filled = cc
resolved-filled [] (ref ∷ refs) flags filled = cc

resolved-spine :
    (archive : BoundedArchive) (version : PackageVersion) (manifest : Manifest)
    (resolved : List (Text × SpineItem))
    → All (λ p. IsTarget archive p.1.href) manifest
    → All (IsChosen version manifest) resolved
    → All (λ item. IsTarget archive item.href) (map (λ p. p.1) resolved)
resolved-spine archive version manifest [] h c = tt
resolved-spine archive version manifest ((id, place) ∷ resolved) h ((item, stored, _, linked), c) =
    (
      rw linked (lookup-All (λ p. IsTarget archive p.1.href) id manifest h stored),
      resolved-spine archive version manifest resolved h c,
    )

-- The identifiers of the places are among the readable ones.
chosen-held :
    (ids : List Text) (resolved : List (Text × SpineItem))
    → ((id : Text) → holds id (map (λ p. p.0) resolved) ≡ true → holds id ids ≡ true)
    → All (λ p. holds p.0 ids ≡ true) resolved
unfolding holds
chosen-held ids [] h = tt
chosen-held ids ((id, place) ∷ resolved) h =
    (h id (rw (text_eq_refl id) refl), chosen-held ids resolved (λ j held. h j (ground arith)))

resolved-shown :
    (version : PackageVersion) (manifest : Manifest) (ids order : List Text)
    (resolved : List (Text × SpineItem)) {resources : List Resource}
    → map_all (resource_of version manifest ids) order ≡ ok resources
    → All (λ p. holds p.0 order ≡ true) manifest
    → All (IsChosen version manifest) resolved
    → All (λ p. holds p.0 ids ≡ true) resolved
    → All (λ item. any (shows item.href) resources ≡ true) (map (λ p. p.1) resolved)
resolved-shown version manifest ids order [] e h c k = tt
resolved-shown version manifest ids order ((id, place) ∷ resolved) e h
      ((item, stored, readable, linked), c) (chosen, k) =
    (
      rw linked (
          resources-shows version manifest ids order id item e stored readable chosen
            (lookup-All (λ p. holds p.0 order ≡ true) id manifest h stored)),
      resolved-shown version manifest ids order resolved e h c k,
    )

module _ (xml : List ℕ → Document) (archive : BoundedArchive) where
  build_publication-IsPublication :
      (small : IsSmall xml) (d : PackageDocument) {p : ParsedPublication}
      → IsSound archive d
      → build_publication xml archive d ≡ ok p
      → IsPublication archive p
  unfolding build_publication
  build_publication-IsPublication small d {p} h e =
      elim (Bool-cases (is_empty d.metadata.titles || is_empty d.spine_refs)) [
        | inl bare ↦ absurd (ground arith)
        | inr full ↦
            let (resolved, found, e) =
              >>=-eq-ok (resolve_spine d.version d.manifest d.spine_refs) _ (rw full at e) in
            let ids = map (λ (p : Text × SpineItem). p.0) resolved in
            let spine = map (λ (p : Text × SpineItem). p.1) resolved in
            let (resources, made, e) =
              >>=-eq-ok (map_all (resource_of d.version d.manifest ids) d.order) _ e in
            let (contents, selected, e) = >>=-eq-ok (select_toc xml archive d spine) _ e in
            let (chosen, flags) = resolve_spine-IsChosen d.version d.manifest d.spine_refs found in
            let named = resources-ids d.version d.manifest ids d.order made in
            let linked = resolved-spine archive d.version d.manifest resolved h.linked chosen in
            let held = chosen-held ids resolved (λ id there. there) in
            let publication : ParsedPublication = record {
              metadata = d.metadata;
              spine = spine;
              resources = resources;
              toc = contents.0;
              cover = cover_of d;
              warnings = with_warning d.warnings contents.1;
            } in
            let same : p ≡ publication = ground arith in
            rw same (record {
              titled = ground arith;
              readable = resolved-filled resolved d.spine_refs flags (ground arith);
              shown =
                  resolved-shown d.version d.manifest ids d.order resolved made h.complete chosen
                    held;
              resources_linked =
                  resources-All d.version d.manifest (λ href. IsTarget archive href) ids d.order
                    h.linked made;
              spine_linked = linked;
              toc_linked = select_toc-HasLink xml archive small d spine linked selected;
              cover_linked = cover_of-IsTarget archive d h;
              distinct = rw named h.distinct;
              bounded = length-with_warning d.warnings contents.1 h.bounded;
            })
      ]

  -- A publication that the reader of the package document returns has a title and a spine; its
  -- resources, the places of its spine, the links of its table of contents and its cover, if any, are
  -- normal paths of entries of the archive, without their fragments; no identifier of a resource
  -- stands twice; every place of the spine is a resource of type XHTML or SVG; and the warnings are at
  -- most 32; if no document of the archive has more XML events than a machine word counts.
  pub package_parse-IsPublication :
      (package_path : EpubPath) (small : IsSmall xml) {p : ParsedPublication}
      → Build.parse xml archive package_path ≡ ok p
      → IsPublication archive p
  unfolding Build.parse
  package_parse-IsPublication package_path small {p} e =
      let (bytes, _, e) = >>=-eq-ok (ok_or (get archive package_path) missing_package) _ e in
      let (d, loaded, e) = >>=-eq-ok (read_document archive (xml bytes) package_path) _ e in
      build_publication-IsPublication small d
        (read_document-IsSound archive package_path (xml bytes) loaded) e
