-- ===== src/Epub/Package/Build.antt =====
-- The publication that a package document describes: `build_publication`, `catalog_media_type` and
-- `manifest_resource_href` of crates/epub/src/package.rs, and its `parse`.
use mathlib.Core.Option
use folioharbor.Prelude.{
  Bool, List, Option, [], if◌then◌else◌, is_empty, map, none, some, ℕ, ◌&&◌, ◌||◌, ◌∷◌,
}
use folioharbor.Prelude.Result.{ok, err, ok_or, map_all, ◌>>=◌}
use folioharbor.Text.Chars.{Text, codes, text_eq}
use folioharbor.Text.Words.{has_word}
use folioharbor.Domain.Publication.{holds}
use folioharbor.Epub.Error.{Checked, invalid_package, invalid_spine, missing_package}
use folioharbor.Epub.Path.{EpubPath}
use folioharbor.Epub.Archive.{BoundedArchive, get}
use folioharbor.Epub.Links.{strip_fragment}
use folioharbor.Epub.Reader.{Document}
use folioharbor.Epub.Package.Manifest.{Manifest, ManifestItem, lookup, values}
use folioharbor.Epub.Package.State.{
  PackageDocument, PackageVersion, ParsedPublication, Resource, SpineItem, invalid,
  push_compatibility_warning,
}
use folioharbor.Epub.Package.Run.{read_document}
use folioharbor.Epub.Package.Fallback.{is_epub_two, readable_manifest_item}
use folioharbor.Epub.Package.Navigate.{select_toc}

unfoldable pub catalog_media_type : PackageVersion → Text → ManifestItem → List Text → Text
catalog_media_type version id item readable_ids =
    if is_epub_two version && (text_eq item.media_type (codes "text/html") && holds id readable_ids)
    then codes "application/xhtml+xml"
    else item.media_type

abbrev pub found_item : Option (Checked (Text × ManifestItem)) → Checked (Text × ManifestItem)
found_item none = err invalid_spine
found_item (some result) = result

-- The loop over the references of the spine: the readable identifiers, with the spine's items. The
-- search of an item never runs out of its fuel.
unfoldable pub resolve_spine :
    PackageVersion → Manifest → List (Text × Bool) → Checked (List (Text × SpineItem))
resolve_spine version manifest [] = ok []
resolve_spine version manifest ((idref, linear) ∷ refs) =
    found_item (readable_manifest_item version manifest idref) >>= λ (id, item).
    resolve_spine version manifest refs >>= λ rest.
    ok ((id, record { href = item.href; linear = linear }) ∷ rest)

unfoldable pub resource_of : PackageVersion → Manifest → List Text → Text → Checked Resource
resource_of version manifest readable_ids id =
    ok_or (lookup id manifest) invalid_package >>= λ item. ok (record {
      id = id;
      href = item.href;
      media_type = catalog_media_type version id item readable_ids;
    })

-- `ok()?` inside `find_map`: an item without a normal path is passed over.
unfoldable pub find_file : EpubPath → List ManifestItem → Option EpubPath
find_file file [] = none
find_file file (item ∷ items) =
    let rest = find_file file items in
    elim (strip_fragment item.href) [
      | err _ ↦ rest
      | ok manifest_href ↦ if text_eq manifest_href file then some manifest_href else rest
    ]

unfoldable pub manifest_resource_href : List ManifestItem → EpubPath → Option EpubPath
manifest_resource_href items href = elim (strip_fragment href) [
  | err _ ↦ none
  | ok file ↦ find_file file items
]

unfoldable pub find_cover_image : List ManifestItem → Option EpubPath
find_cover_image [] = none
find_cover_image (item ∷ items) =
    let rest = find_cover_image items in
    if has_word item.properties (codes "cover-image") then some item.href else rest

abbrev pub or_else {ℓ} : {A : Type ℓ} → Option A → Option A → Option A
or_else none second = second
or_else (some a) second = some a

-- The EPUB 2 cover, or the first item that is a cover image, or the guide's cover.
unfoldable pub cover_of : PackageDocument → Option EpubPath
cover_of document =
    or_else
      (Option.map (λ item. item.href)
        (Option.bind document.epub_two_cover_id (λ id. lookup id document.manifest)))
      (or_else (find_cover_image (values document.manifest)) (
        Option.bind document.guide_cover
          (λ cover. manifest_resource_href (values document.manifest) cover)))

abbrev pub with_warning : List Text → Option Text → List Text
with_warning warnings none = warnings
with_warning warnings (some warning) = push_compatibility_warning warnings warning

unfoldable pub build_publication :
    (List ℕ → Document) → BoundedArchive → PackageDocument → Checked ParsedPublication
build_publication xml archive document =
    if is_empty document.metadata.titles || is_empty document.spine_refs then invalid else do
      resolved ← resolve_spine document.version document.manifest document.spine_refs
      resources ←
          map_all (resource_of document.version document.manifest (map (λ p. p.0) resolved))
            document.order
      contents ← select_toc xml archive document (map (λ p. p.1) resolved)
      ok (record {
        metadata = document.metadata;
        spine = map (λ p. p.1) resolved;
        resources = resources;
        toc = contents.0;
        cover = cover_of document;
        warnings = with_warning document.warnings contents.1;
      })

unfoldable pub parse : (List ℕ → Document) → BoundedArchive → EpubPath → Checked ParsedPublication
parse xml archive package_path = ok_or (get archive package_path) missing_package >>= λ bytes.
    read_document archive (xml bytes) package_path >>= λ document.
    build_publication xml archive document
