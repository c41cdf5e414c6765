-- ===== src/Epub/Container/Laws.antt =====
-- What the container names: one package document, which the archive has.
use folioharbor.Prelude.{
  Bool-cases, List, Option, Option-cases, [], arith, inl, inr, none, some, true, ℕ, ◌∷◌, ◌≡◌,
}
use folioharbor.Prelude.Result.{>>-eq-ok, >>=-eq-ok, ok, ok_or}
use folioharbor.Text.Chars.{codes, text_eq}
use folioharbor.Epub.Error.{invalid_container}
use folioharbor.Epub.Path.{EpubPath, new}
use folioharbor.Epub.Path.Laws.{IsNormal, normalize_path-IsNormal}
use folioharbor.Epub.Archive.{BoundedArchive, get, contains, check_processing}
use folioharbor.Epub.Xml.{
  Attribute, Element, Event, attribute, empty, end_of, malformed, malformed_attribute,
  saturating_suc, start,
}
use folioharbor.Epub.Reader.{Document, read_events, read_events-keeps}
use folioharbor.Epub.Container.{
  ContainerState, container_path_text, enter, finish, on_empty, on_end, on_event, package_path,
  start_state, take_rootfile,
}

abbrev pub IsRootfile : Option EpubPath → Type 0
IsRootfile none = Unit
IsRootfile (some path) = IsNormal path

enter-rootfile :
    (element : Element) (s : ContainerState) {s' : ContainerState}
    → enter element s ≡ ok s'
    → s'.rootfile ≡ s.rootfile
unfolding enter
enter-rootfile element s e = ground arith

on_end-rootfile :
    (element : Element) (s : ContainerState) {s' : ContainerState}
    → on_end element s ≡ ok s'
    → s'.rootfile ≡ s.rootfile
unfolding on_end
on_end-rootfile element s e = ground arith

take_rootfile-IsRootfile :
    (attributes : List Attribute) (s : ContainerState) {s' : ContainerState}
    → IsRootfile s.rootfile
    → take_rootfile attributes s ≡ ok s'
    → IsRootfile s'.rootfile
unfolding take_rootfile new
take_rootfile-IsRootfile [] s h e = ground arith
take_rootfile-IsRootfile (malformed_attribute ∷ attributes) s h e = cc
take_rootfile-IsRootfile (attribute _ local value ∷ attributes) s {s'} h e =
    elim (Bool-cases (text_eq local (codes "full-path"))) [
      | inl named ↦
          let (decoded, _, e) = >>=-eq-ok (ok_or value invalid_container) _ (rw named at e) in
          let (path, made, e) = >>=-eq-ok (new decoded) _ e in
          take_rootfile-IsRootfile attributes (record s { rootfile = some path }) {s' = s'}
            (normalize_path-IsNormal decoded made) (ground arith)
      | inr unlike ↦ take_rootfile-IsRootfile attributes s {s' = s'} h (rw unlike at e)
    ]

on_empty-IsRootfile :
    (element : Element) (s : ContainerState) {s' : ContainerState}
    → IsRootfile s.rootfile
    → on_empty element s ≡ ok s'
    → IsRootfile s'.rootfile
unfolding on_empty
on_empty-IsRootfile element s {s'} h e =
    ground (arith, take_rootfile-IsRootfile element.attributes s {s' = s'} h)

module _ (archive : BoundedArchive) where
  on_event-IsRootfile :
      (elapsed : ℕ) (event : Event) (s s' : ContainerState)
      → IsRootfile s.rootfile
      → on_event archive elapsed event s ≡ ok s'
      → IsRootfile s'.rootfile
  unfolding on_event
  on_event-IsRootfile elapsed (start element) s s' h e =
      let deeper = record s { depth = saturating_suc s.depth } in
      let (fine, e) = >>-eq-ok (check_processing archive elapsed deeper.depth) _ e in
      rw (enter-rootfile element deeper {s' = s'} e) h
  on_event-IsRootfile elapsed (empty element) s s' h e = on_empty-IsRootfile element s h e
  on_event-IsRootfile elapsed (end_of element) s s' h e =
      rw (on_end-rootfile element s {s' = s'} e) h
  on_event-IsRootfile elapsed malformed s s' h e = cc
  on_event-IsRootfile elapsed _ s s' h e = ground arith

  finish-held :
      (s : ContainerState) {path : EpubPath}
      → IsRootfile s.rootfile
      → finish archive s ≡ ok path
      → IsNormal path × (contains archive path ≡ true)
  unfolding finish
  finish-held s h e = elim (Option-cases s.rootfile) [
    | inl missing ↦ absurd (ground arith)
    | inr (found, named) ↦ ground arith
  ]

  -- The package document that the container names has a normal path and is in the archive.
  pub package_path-held :
      (xml : List ℕ → Document) {path : EpubPath}
      → package_path xml archive ≡ ok path
      → IsNormal path × (contains archive path ≡ true)
  unfolding package_path
  package_path-held xml e =
      let (container_path, _, e) = >>=-eq-ok (new container_path_text) _ e in
      let (bytes, _, e) = >>=-eq-ok (ok_or (get archive container_path) invalid_container) _ e in
      let reading =
        read_events (λ (s : ContainerState). s.depth) (on_event archive) archive
          (xml bytes).readings (xml bytes).last start_state in
      let (s, ran, e) = >>=-eq-ok reading _ e in
      let h =
        read_events-keeps (λ (s : ContainerState). s.depth) (on_event archive)
          (λ s. IsRootfile s.rootfile) archive (xml bytes).readings (xml bytes).last start_state
          on_event-IsRootfile tt ran in
      finish-held s h e
