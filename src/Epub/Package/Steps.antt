-- ===== src/Epub/Package/Steps.antt =====
-- What the reader of the package document does at the start of an element: `start`, `start_section`
-- and `empty` of crates/epub/src/package.rs.
use folioharbor.Prelude.{
  Bool, List, Option, any, false, if◌then◌else◌, none, not, some, true, ℕ, ◌&&◌, ◌++◌, ◌==◌, ◌||◌,
  ◌∷◌,
}
use folioharbor.Prelude.Result.{ok, ◌>>=◌, ◌>>◌}
use folioharbor.Text.Chars.{Text, codes, text_eq}
use folioharbor.Epub.Error.{Checked, invalid_package}
use folioharbor.Epub.Path.{EpubPath}
use folioharbor.Epub.Archive.{BoundedArchive, check_processing}
use folioharbor.Epub.Xml.{Attribute, Element, is_namespace, optional_attribute, saturating_suc}
use folioharbor.Epub.Package.State.{
  PackageSection, PackageState, dc_ns, guide_section, invalid, manifest_section, metadata_section,
  opf_ns, parse_version, spine_section,
}
use folioharbor.Epub.Package.Items.{add_child, child_of, no_child}

abbrev pub same_section : PackageSection → PackageSection → Bool
same_section metadata_section metadata_section = true
same_section manifest_section manifest_section = true
same_section spine_section spine_section = true
same_section guide_section guide_section = true
same_section _ _ = false

-- `start_section` for each of the four sections.
unfoldable pub open_once : PackageSection → PackageState → Checked PackageState
open_once section s =
    if any (same_section section) s.seen_sections
    then invalid
    else ok (record s { seen_sections = section ∷ s.seen_sections; section = some section })

unfoldable pub open_section : PackageSection → List Attribute → PackageState → Checked PackageState
open_section guide_section attributes s = elim s.section [
  | some guide_section ↦ invalid
  | _ ↦ ok (record s { section = some guide_section })
]
open_section spine_section attributes s = do
  opened ← open_once spine_section s
  toc ← optional_attribute invalid_package attributes (codes "toc")
  ok (record opened { document = record opened.document { ncx_id = toc } })
open_section section attributes s = open_once section s

unfoldable pub start_section : Text → List Attribute → PackageState → Checked PackageState
start_section local attributes s =
    if text_eq local (codes "metadata")
    then open_section metadata_section attributes s
    else if text_eq local (codes "manifest")
    then open_section manifest_section attributes s
    else if text_eq local (codes "spine")
    then open_section spine_section attributes s
    else if text_eq local (codes "guide")
    then open_section guide_section attributes s
    else if text_eq local (codes "package")
    then invalid
    else ok s

-- The root: a `package` of a known version.
unfoldable pub start_root : Bool → Element → PackageState → Checked PackageState
start_root is_opf element s = do
  value ← optional_attribute invalid_package element.attributes (codes "version")
  if not is_opf || not (text_eq element.local_name (codes "package"))
      then invalid
      else elim (parse_version value) [
        | none ↦ invalid
        | some version ↦
            ok (record s { saw_package = true; document = record s.document { version = version } })
      ]

abbrev pub in_metadata : Option PackageSection → Bool
in_metadata (some metadata_section) = true
in_metadata _ = false

-- A Dublin Core element of the metadata.
unfoldable pub start_field : Text → PackageState → PackageState
start_field local s =
    if text_eq local (codes "title")
      || text_eq local (codes "creator")
      || text_eq local (codes "language")
      || text_eq local (codes "identifier")
    then record s { metadata_field = some local }
    else record s { unknown_property = some (codes "dc:" ++ local) }

-- `start` behind the check of the depth.
unfoldable pub enter : BoundedArchive → EpubPath → Element → PackageState → Checked PackageState
enter archive package_path element s =
    let is_opf = is_namespace element.namespace opf_ns in
    if s.depth == 1
    then start_root is_opf element s
    else if s.depth == 2 && is_opf
    then start_section element.local_name element.attributes s
    else if s.depth == 3 && (in_metadata s.section && is_namespace element.namespace dc_ns)
    then ok (start_field element.local_name s)
    else add_child archive package_path element
        (if s.depth == 3 && is_opf then child_of s.section element.local_name else no_child) s

unfoldable pub on_start :
    BoundedArchive → EpubPath → ℕ → Element → PackageState → Checked PackageState
on_start archive package_path elapsed element s =
    let deeper = record s { depth = saturating_suc s.depth } in
    check_processing archive elapsed deeper.depth >> enter archive package_path element deeper

unfoldable pub on_empty : BoundedArchive → EpubPath → Element → PackageState → Checked PackageState
on_empty archive package_path element s =
    add_child archive package_path element
      (if is_namespace element.namespace opf_ns && s.depth == 2
        then child_of s.section element.local_name
        else no_child)
      s
