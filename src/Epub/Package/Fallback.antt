-- ===== src/Epub/Package/Fallback.antt =====
-- The search for a readable item along the fallbacks of a manifest: `readable_manifest_item` of
-- crates/epub/src/package.rs.
mod Pigeonhole
pub mod Laws
use folioharbor.Prelude.{
  Bool, List, Option, [], false, if◌then◌else◌, length, none, some, suc, true, zero, ℕ, ◌&&◌, ◌||◌,
  ◌∷◌,
}
use folioharbor.Prelude.Result.{ok, err}
use folioharbor.Text.Chars.{Text, codes, text_eq}
use folioharbor.Domain.Publication.{holds}
use folioharbor.Epub.Error.{Checked, invalid_spine}
use folioharbor.Epub.Package.Manifest.{Manifest, ManifestItem, lookup}
use folioharbor.Epub.Package.State.{PackageVersion, epub_three, epub_two}

abbrev pub is_epub_two : PackageVersion → Bool
is_epub_two epub_two = true
is_epub_two epub_three = false

unfoldable pub is_readable_spine_item : PackageVersion → ManifestItem → Bool
is_readable_spine_item version item =
    text_eq item.media_type (codes "application/xhtml+xml")
    || text_eq item.media_type (codes "image/svg+xml")
    || (is_epub_two version && text_eq item.media_type (codes "text/html"))

-- The loop, on fuel: `none` where that runs out. The set of visited identifiers is a list.
unfoldable pub search :
    PackageVersion → Manifest → ℕ → Text → List Text → Option (Checked (Text × ManifestItem))
search version manifest zero current visited = none
search version manifest (suc fuel) current visited =
    if holds current visited then some (err invalid_spine) else elim (lookup current manifest) [
      | none ↦ some (err invalid_spine)
      | some item ↦
          if is_readable_spine_item version item
          then some (ok (current, item))
          else elim item.fallback [
            | none ↦ some (err invalid_spine)
            | some fallback ↦ search version manifest fuel fallback (current ∷ visited)
          ]
    ]

-- One round for each item and one more are enough.
unfoldable pub readable_manifest_item :
    PackageVersion → Manifest → Text → Option (Checked (Text × ManifestItem))
readable_manifest_item version manifest idref =
    search version manifest (suc (length manifest)) idref []
