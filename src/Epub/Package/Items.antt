-- ===== src/Epub/Package/Items.antt =====
-- What the reader of the package document takes from an element: `is_structural`,
-- `parse_manifest_item` and the `add_` functions of crates/epub/src/package.rs.
use folioharbor.Prelude.{
  Bool, List, Option, [], false, if◌then◌else◌, is_some, none, not, or_default, some, true, ◌++◌,
  ◌||◌, ◌∷◌,
}
use folioharbor.Prelude.Result.{ok, ◌>>=◌}
use folioharbor.Text.Chars.{Text, codes, text_eq}
use folioharbor.Text.Words.{has_word}
use folioharbor.Epub.Error.{Checked, invalid_package}
use folioharbor.Epub.Path.{EpubPath}
use folioharbor.Epub.Archive.{BoundedArchive}
use folioharbor.Epub.Xml.{Attribute, Element, optional_attribute, required_attribute}
use folioharbor.Epub.Links.{find_link}
use folioharbor.Epub.Package.Manifest.{ManifestItem, has_id, insert_item}
use folioharbor.Epub.Package.State.{
  PackageSection, PackageState, PackageVersion, epub_three, epub_two, guide_section, invalid,
  manifest_section, metadata_section, spine_section,
}

unfoldable pub is_structural : Text → Bool
is_structural local =
    text_eq local (codes "package")
    || text_eq local (codes "metadata")
    || text_eq local (codes "manifest")
    || text_eq local (codes "spine")
    || text_eq local (codes "guide")
    || text_eq local (codes "item")
    || text_eq local (codes "itemref")
    || text_eq local (codes "reference")

-- The errors of `strip_fragment` are handed on here.
unfoldable pub package_link : BoundedArchive → EpubPath → Text → Checked EpubPath
package_link archive base reference =
    find_link invalid_package (λ code. code) archive base reference

unfoldable pub parse_manifest_item :
    BoundedArchive → EpubPath → List Attribute → Checked (Text × ManifestItem)
parse_manifest_item archive package_path attributes = do
  id ← required_attribute invalid_package attributes (codes "id")
  raw_href ← required_attribute invalid_package attributes (codes "href")
  href ← package_link archive package_path raw_href
  media_type ← required_attribute invalid_package attributes (codes "media-type")
  properties ← optional_attribute invalid_package attributes (codes "properties")
  fallback ← optional_attribute invalid_package attributes (codes "fallback")
  ok (
    id,
    record {
      href = href;
      media_type = media_type;
      properties = or_default [] properties;
      fallback = fallback;
    },
  )

unfoldable pub insert_new : Text × ManifestItem → PackageState → Checked PackageState
insert_new (id, item) s =
    if has_id s.document.manifest id
    then invalid
    else ok (record s {
      document = record s.document {
        manifest = insert_item id item s.document.manifest;
        order = s.document.order ++ id ∷ [];
      };
    })

unfoldable pub add_manifest_item :
    BoundedArchive → EpubPath → List Attribute → PackageState → Checked PackageState
add_manifest_item archive package_path attributes s =
    parse_manifest_item archive package_path attributes >>= λ parsed. insert_new parsed s

-- `!= Some("no")`
abbrev pub is_linear : Option Text → Bool
is_linear none = true
is_linear (some value) = not (text_eq value (codes "no"))

unfoldable pub add_spine_ref : List Attribute → PackageState → Checked PackageState
add_spine_ref attributes s = do
  idref ← required_attribute invalid_package attributes (codes "idref")
  linear ← optional_attribute invalid_package attributes (codes "linear")
  ok (record s {
    document = record s.document {
      spine_refs = s.document.spine_refs ++ (idref, is_linear linear) ∷ [];
    };
  })

abbrev pub is_text : Option Text → Text → Bool
is_text none expected = false
is_text (some value) expected = text_eq value expected

unfoldable pub set_cover_id : List Attribute → PackageState → Checked PackageState
set_cover_id attributes s = do
  cover_id ← required_attribute invalid_package attributes (codes "content")
  if is_some s.document.epub_two_cover_id
      then invalid
      else ok (record s { document = record s.document { epub_two_cover_id = some cover_id } })

unfoldable pub set_property : List Attribute → PackageState → Checked PackageState
set_property attributes s = do
  property ← optional_attribute invalid_package attributes (codes "property")
  ok (record s { unknown_property = property })

unfoldable pub add_metadata_meta :
    PackageVersion → List Attribute → PackageState → Checked PackageState
add_metadata_meta epub_two attributes s = do
  name ← optional_attribute invalid_package attributes (codes "name")
  if is_text name (codes "cover") then set_cover_id attributes s else set_property attributes s
add_metadata_meta epub_three attributes s = set_property attributes s

-- The words of an attribute that may be missing.
abbrev pub has_property : Option Text → Text → Bool
has_property none expected = false
has_property (some properties) expected = has_word properties expected

unfoldable pub set_guide_cover :
    BoundedArchive → EpubPath → List Attribute → PackageState → Checked PackageState
set_guide_cover archive package_path attributes s = do
  raw_href ← required_attribute invalid_package attributes (codes "href")
  href ← package_link archive package_path raw_href
  if is_some s.document.guide_cover
      then invalid
      else ok (record s { document = record s.document { guide_cover = some href } })

unfoldable pub add_guide_reference :
    BoundedArchive → EpubPath → List Attribute → PackageState → Checked PackageState
add_guide_reference archive package_path attributes s = do
  kind ← optional_attribute invalid_package attributes (codes "type")
  if has_property kind (codes "cover")
      then set_guide_cover archive package_path attributes s
      else ok s

-- The children of a section, by its name and theirs.
pub data Child : Type 0 where
  meta_child item_child itemref_child reference_child no_child : Child

abbrev pub child_of : Option PackageSection → Text → Child
child_of (some metadata_section) local =
    if text_eq local (codes "meta") then meta_child else no_child
child_of (some manifest_section) local =
    if text_eq local (codes "item") then item_child else no_child
child_of (some spine_section) local =
    if text_eq local (codes "itemref") then itemref_child else no_child
child_of (some guide_section) local =
    if text_eq local (codes "reference") then reference_child else no_child
child_of none local = no_child

unfoldable pub add_child :
    BoundedArchive → EpubPath → Element → Child → PackageState → Checked PackageState
add_child archive package_path element meta_child s =
    add_metadata_meta s.document.version element.attributes s
add_child archive package_path element item_child s =
    add_manifest_item archive package_path element.attributes s
add_child archive package_path element itemref_child s = add_spine_ref element.attributes s
add_child archive package_path element reference_child s =
    add_guide_reference archive package_path element.attributes s
add_child archive package_path element no_child s =
    if is_structural element.local_name then invalid else ok s
