-- ===== src/Epub/Package/Events.antt =====
-- Every event keeps the document of the reader sound: `start`, `empty`, `text` and `end` of
-- `PackageState` in crates/epub/src/package.rs.
use folioharbor.Prelude.{
  Bool, Bool-cases, List, Option, [], arith, if◌then◌else◌, inl, inr, is_empty, length,
  length-append, none, some, ℕ, ◌&&◌, ◌==◌, ◌∷◌, ◌≡◌, ◌≤◌,
}
use folioharbor.Prelude.Result.{>>-eq-ok, >>=-eq-ok, ok, ok_or}
use folioharbor.Text.Chars.{Text, codes, trim}
use folioharbor.Epub.Error.{invalid_package}
use folioharbor.Epub.Path.{EpubPath}
use folioharbor.Epub.Archive.{BoundedArchive, check_processing}
use folioharbor.Epub.Xml.{
  Attribute, Element, Event, empty, end_of, is_namespace, malformed, optional_attribute,
  saturating_suc, start, text,
}
use folioharbor.Epub.Reader.{Document, read_events, read_events-keeps}
use folioharbor.Epub.Package.State.{
  PackageDocument, PackageSection, PackageState, dc_ns, guide_section, manifest_section,
  max_warnings, metadata_section, new_state, opf_ns, push_warning, spine_section,
}
use folioharbor.Epub.Package.Items.{child_of, no_child}
use folioharbor.Epub.Package.Steps.{
  enter, in_metadata, on_empty, on_start, open_once, open_section, start_field, start_root,
  start_section,
}
use folioharbor.Epub.Package.Run.{
  finish, on_end, on_event, on_text, read_document, take_text, unknown_warning,
}
use folioharbor.Epub.Package.Sound.{IsSound, IsSound-Keeps}
use folioharbor.Epub.Package.Preserve.{Kept, Sound, add_child-Sound}

length-push_warning :
    (warnings : List Text) (warning : Text)
    → length warnings ≤ max_warnings
    → length (push_warning warnings warning) ≤ max_warnings
unfolding push_warning
length-push_warning warnings warning h = ground (arith, length-append warnings (warning ∷ []))

module _ (archive : BoundedArchive) (package_path : EpubPath) where
  abbrev Valid : PackageState → Type 0
  Valid s = Sound archive package_path s

  abbrev Same : PackageState → PackageState → Type 0
  Same s s' = Kept archive package_path s s'

  open_once-Keeps :
      (section : PackageSection) (s : PackageState) {s' : PackageState}
      → open_once section s ≡ ok s'
      → Same s s'
  unfolding open_once
  open_once-Keeps section s e = ground arith

  open_section-Keeps :
      (section : PackageSection) (attributes : List Attribute) (s : PackageState)
      {s' : PackageState}
      → open_section section attributes s ≡ ok s'
      → Same s s'
  unfolding open_section
  open_section-Keeps guide_section attributes s {s'} e = ground arith
  open_section-Keeps spine_section attributes s {s'} e =
      let (opened, once, e) = >>=-eq-ok (open_once spine_section s) _ e in
      let (toc, _, e) =
        >>=-eq-ok (optional_attribute invalid_package attributes (codes "toc")) _ e in
      let k = open_once-Keeps spine_section s once in
      let same : s' ≡ record opened { document = record opened.document { ncx_id = toc } } =
        ground arith in
      rw same (record {
        manifest_kept = k.manifest_kept;
        order_kept = k.order_kept;
        guide_kept = k.guide_kept;
        warnings_kept = k.warnings_kept;
      })
  open_section-Keeps metadata_section attributes s e = open_once-Keeps metadata_section s e
  open_section-Keeps manifest_section attributes s e = open_once-Keeps manifest_section s e

  start_section-Keeps :
      (local : Text) (attributes : List Attribute) (s : PackageState) {s' : PackageState}
      → start_section local attributes s ≡ ok s'
      → Same s s'
  unfolding start_section
  start_section-Keeps local attributes s {s'} e = ground (
    arith,
    open_section-Keeps metadata_section attributes s {s' = s'},
    open_section-Keeps manifest_section attributes s {s' = s'},
    open_section-Keeps spine_section attributes s {s' = s'},
    open_section-Keeps guide_section attributes s {s' = s'},
  )

  start_root-Keeps :
      (is_opf : Bool) (element : Element) (s : PackageState) {s' : PackageState}
      → start_root is_opf element s ≡ ok s'
      → Same s s'
  unfolding start_root
  start_root-Keeps is_opf element s {s'} e =
      let (value, _, e) =
        >>=-eq-ok (optional_attribute invalid_package element.attributes (codes "version")) _ e in
      ground arith

  start_field-Keeps : (local : Text) (s : PackageState) → Same s (start_field local s)
  unfolding start_field
  start_field-Keeps local s = ground arith

  enter-Sound :
      (element : Element) (s : PackageState) {s' : PackageState}
      → Valid s
      → enter archive package_path element s ≡ ok s'
      → Valid s'
  unfolding enter
  enter-Sound element s {s'} h e =
      let is_opf = is_namespace element.namespace opf_ns in
      elim (Bool-cases (s.depth == 1)) [
        | inl root ↦
            IsSound-Keeps archive (start_root-Keeps is_opf element s {s' = s'} (rw root at e)) h
        | inr inner ↦ elim (Bool-cases (s.depth == 2 && is_opf)) [
          | inl top ↦
              IsSound-Keeps archive
                (start_section-Keeps element.local_name element.attributes s {s' = s'}
                  (rw (inner, top) at e))
                h
          | inr deep ↦
              elim (Bool-cases
                (s.depth == 3 && (in_metadata s.section && is_namespace element.namespace dc_ns))) [
                  | inl field ↦
                      let same : start_field element.local_name s ≡ s' = ground arith in
                      rw (← same) (IsSound-Keeps archive (start_field-Keeps element.local_name s) h)
                  | inr child ↦
                      add_child-Sound archive package_path element
                        (if s.depth == 3 && is_opf
                          then child_of s.section element.local_name
                          else no_child)
                        s {s' = s'} h (rw (inner, deep, child) at e)
                ]
        ]
      ]

  take_text-Sound :
      (value : Text) (field unknown : Option Text) (s : PackageState)
      → Valid s
      → Valid (take_text value field unknown s)
  unfolding take_text
  take_text-Sound value (some local) unknown s h = IsSound-Keeps archive (ground arith) h
  take_text-Sound value none none s h = h
  take_text-Sound value none (some property) s h = record {
    linked = h.linked;
    ordered = h.ordered;
    distinct = h.distinct;
    complete = h.complete;
    guided = h.guided;
    bounded = length-push_warning s.document.warnings (unknown_warning property) h.bounded;
  }

  on_text-Sound :
      (value : Option Text) (s : PackageState) {s' : PackageState}
      → Valid s
      → on_text value s ≡ ok s'
      → Valid s'
  unfolding on_text
  on_text-Sound value s {s'} h e =
      let (decoded, _, e) = >>=-eq-ok (ok_or value invalid_package) _ e in
      elim (Bool-cases (is_empty (trim decoded))) [
        | inl blank ↦ let same : s' ≡ s = ground arith in rw same h
        | inr visible ↦
            let next = take_text (trim decoded) s.metadata_field s.unknown_property s in
            let same : s' ≡ next = ground arith in
            rw same (take_text-Sound (trim decoded) s.metadata_field s.unknown_property s h)
      ]

  on_end-Keeps :
      (element : Element) (s : PackageState) {s' : PackageState}
      → on_end element s ≡ ok s'
      → Same s s'
  unfolding on_end
  on_end-Keeps element s e = ground arith

  on_event-Sound :
      (elapsed : ℕ) (event : Event) (s s' : PackageState)
      → Valid s
      → on_event archive package_path elapsed event s ≡ ok s'
      → Valid s'
  unfolding on_event on_start on_empty
  on_event-Sound elapsed (start element) s s' h e =
      let deeper = record s { depth = saturating_suc s.depth } in
      let (fine, e) = >>-eq-ok (check_processing archive elapsed deeper.depth) _ e in
      enter-Sound element deeper {s' = s'} h e
  on_event-Sound elapsed (empty element) s s' h e =
      add_child-Sound archive package_path element
        (if is_namespace element.namespace opf_ns && s.depth == 2
          then child_of s.section element.local_name
          else no_child)
        s h e
  on_event-Sound elapsed (text value) s s' h e = on_text-Sound value s h e
  on_event-Sound elapsed (end_of element) s s' h e =
      IsSound-Keeps archive (on_end-Keeps element s e) h
  on_event-Sound elapsed malformed s s' h e = cc
  on_event-Sound elapsed _ s s' h e = let same : s' ≡ s = ground arith in rw same h

  -- A package document that is read is sound.
  pub read_document-IsSound :
      (document : Document) {d : PackageDocument}
      → read_document archive document package_path ≡ ok d
      → IsSound archive d
  unfolding read_document finish
  read_document-IsSound document {d} e =
      let reading =
        read_events (λ (s : PackageState). s.depth) (on_event archive package_path) archive
          document.readings document.last new_state in
      let (s, ran, e) = >>=-eq-ok reading finish e in
      let first : Valid new_state =
        unfold new_state in
        record {
          linked = tt;
          ordered = tt;
          distinct = tt;
          complete = tt;
          guided = tt;
          bounded = omega arith;
        } in
      let h =
        read_events-keeps (λ (s : PackageState). s.depth) (on_event archive package_path) Valid
          archive document.readings document.last new_state on_event-Sound first ran in
      let same : s.document ≡ d = ground arith in rw (← same) h
