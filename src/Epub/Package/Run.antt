-- ===== src/Epub/Package/Run.antt =====
-- The texts and end tags of a package document, and the loop: crates/epub/src/package.rs.
use folioharbor.Prelude.{
  Bool, Option, [], if◌then◌else◌, is_empty, is_some, length, none, not, some, ℕ, ◌&&◌, ◌++◌, ◌-◌,
  ◌==◌, ◌||◌, ◌∷◌,
}
use folioharbor.Prelude.Result.{ok, ok_or, ◌>>=◌}
use folioharbor.Text.Chars.{Text, codes, text_eq, trim}
use folioharbor.Epub.Error.{Checked, invalid_package}
use folioharbor.Epub.Path.{EpubPath}
use folioharbor.Epub.Archive.{BoundedArchive}
use folioharbor.Epub.Xml.{Element, Event, empty, end_of, is_namespace, malformed, start, text}
use folioharbor.Epub.Reader.{Document, read_events}
use folioharbor.Epub.Package.State.{
  Metadata, PackageDocument, PackageState, dc_ns, invalid, new_state, opf_ns, push_warning,
}
use folioharbor.Epub.Package.Steps.{on_empty, on_start}

unfoldable pub push_metadata : Metadata → Text → Text → Metadata
push_metadata m local value =
    if text_eq local (codes "title")
    then record m { titles = m.titles ++ value ∷ [] }
    else if text_eq local (codes "creator")
    then record m { authors = m.authors ++ value ∷ [] }
    else if text_eq local (codes "language")
    then record m { languages = m.languages ++ value ∷ [] }
    else if text_eq local (codes "identifier")
    then record m { identifiers = m.identifiers ++ value ∷ [] }
    else m

abbrev pub unknown_warning : Text → Text
unknown_warning property = codes "unknown metadata property: " ++ property

-- A text that is not blank, for the open field or else for the unknown property.
unfoldable pub take_text : Text → Option Text → Option Text → PackageState → PackageState
take_text value (some local) unknown s = record s {
  document = record s.document { metadata = push_metadata s.document.metadata local value };
}
take_text value none none s = s
take_text value none (some property) s = record s {
  unknown_property = none;
  document = record s.document {
    warnings = push_warning s.document.warnings (unknown_warning property);
  };
}

unfoldable pub on_text : Option Text → PackageState → Checked PackageState
on_text value s = ok_or value invalid_package >>= λ decoded.
    if is_empty (trim decoded)
    then ok s
    else ok (take_text (trim decoded) s.metadata_field s.unknown_property s)

abbrev pub is_section_name : Text → Bool
is_section_name local =
    text_eq local (codes "metadata")
    || text_eq local (codes "manifest")
    || text_eq local (codes "spine")
    || text_eq local (codes "guide")

unfoldable pub on_end : Element → PackageState → Checked PackageState
on_end element s =
    let is_opf = is_namespace element.namespace opf_ns in
    let local = element.local_name in
    if s.depth == 1 && (not is_opf || not (text_eq local (codes "package")))
    then invalid
    else ok (record s {
      metadata_field = if is_namespace element.namespace dc_ns then none else s.metadata_field;
      unknown_property =
          if is_opf && text_eq local (codes "meta") then none else s.unknown_property;
      section = if s.depth == 2 && (is_opf && is_section_name local) then none else s.section;
      depth = s.depth - 1;
    })

unfoldable pub on_event :
    BoundedArchive → EpubPath → ℕ → Event → PackageState → Checked PackageState
on_event archive package_path elapsed (start element) s =
    on_start archive package_path elapsed element s
on_event archive package_path elapsed (empty element) s = on_empty archive package_path element s
on_event archive package_path elapsed (text value) s = on_text value s
on_event archive package_path elapsed (end_of element) s = on_end element s
on_event archive package_path elapsed malformed s = invalid
on_event archive package_path elapsed _ s = ok s

unfoldable pub finish : PackageState → Checked PackageDocument
finish s =
    if not s.saw_package
      || not (length s.seen_sections == 3)
      || not (s.depth == 0)
      || is_some s.section
    then invalid
    else ok s.document

-- The loop and its end.
unfoldable pub read_document : BoundedArchive → Document → EpubPath → Checked PackageDocument
read_document archive document package_path =
    read_events (λ s. s.depth) (on_event archive package_path) archive document.readings
      document.last new_state
    >>= finish
