-- ===== src/Epub/Package/Navigate.antt =====
-- The choice of the table of contents: `select_toc` and its helpers in crates/epub/src/package.rs.
use folioharbor.Prelude.{Bool, List, Option, [], if◌then◌else◌, map, none, some, ℕ, ◌&&◌, ◌∷◌}
use folioharbor.Prelude.Result.{ok, err, ok_or, ◌>>=◌}
use folioharbor.Text.Chars.{Text, codes, text_eq}
use folioharbor.Text.Words.{has_word}
use folioharbor.Epub.Error.{Checked, invalid_navigation}
use folioharbor.Epub.Archive.{BoundedArchive, get}
use folioharbor.Epub.Links.{strip_fragment}
use folioharbor.Epub.Reader.{Document}
use folioharbor.Epub.Ncx.State.{TocEntry}
use folioharbor.Epub.Ncx.Run as NcxRun
use folioharbor.Epub.Navigation as NavDocument
use folioharbor.Epub.Package.Manifest.{ManifestItem, lookup, values}
use folioharbor.Epub.Package.State.{
  PackageDocument, PackageVersion, SpineItem, epub_three, epub_two,
}

pub data NavigationDocument : Type 0 where
  ncx_document nav_document : ManifestItem → NavigationDocument

abbrev pub is_ncx : ManifestItem → Bool
is_ncx item = text_eq item.media_type (codes "application/x-dtbncx+xml")

abbrev pub is_nav : ManifestItem → Bool
is_nav item =
    text_eq item.media_type (codes "application/xhtml+xml")
    && has_word item.properties (codes "nav")

-- The items with the property `nav`.
unfoldable pub navigation_items : List ManifestItem → List ManifestItem
navigation_items [] = []
navigation_items (item ∷ items) =
    let rest = navigation_items items in
    if has_word item.properties (codes "nav") then item ∷ rest else rest

unfoldable pub ncx_choice : Option ManifestItem → Checked (Option NavigationDocument)
ncx_choice none = err invalid_navigation
ncx_choice (some item) =
    if is_ncx item then ok (some (ncx_document item)) else err invalid_navigation

unfoldable pub nav_choice : List ManifestItem → Checked (Option NavigationDocument)
nav_choice [] = ok none
nav_choice (item ∷ []) =
    if is_nav item then ok (some (nav_document item)) else err invalid_navigation
nav_choice (item ∷ _ ∷ items) = err invalid_navigation

unfoldable pub preferred_navigation :
    PackageVersion → PackageDocument → Checked (Option NavigationDocument)
preferred_navigation epub_two document = elim document.ncx_id [
  | none ↦ ok none
  | some ncx_id ↦ ncx_choice (lookup ncx_id document.manifest)
]
preferred_navigation epub_three document = nav_choice (navigation_items (values document.manifest))

unfoldable pub navigation_alternatives : List ManifestItem → List NavigationDocument
navigation_alternatives [] = []
navigation_alternatives (item ∷ items) =
    let rest = navigation_alternatives items in
    if is_ncx item
    then ncx_document item ∷ rest
    else if is_nav item
    then nav_document item ∷ rest
    else rest

-- The bytes of the item's file.
unfoldable pub item_bytes : BoundedArchive → ManifestItem → Checked (List ℕ)
item_bytes archive item =
    strip_fragment item.href >>= λ file. ok_or (get archive file) invalid_navigation

unfoldable pub parse_navigation_document :
    (List ℕ → Document) → BoundedArchive → NavigationDocument → Checked (List TocEntry)
parse_navigation_document xml archive (ncx_document item) = item_bytes archive item >>= λ bytes.
    NcxRun.parse archive item.href (xml bytes).readings (xml bytes).last
parse_navigation_document xml archive (nav_document item) =
    item_bytes archive item >>= λ bytes. NavDocument.parse archive (xml bytes) item.href

abbrev pub spine_entry : SpineItem → TocEntry
spine_entry item = record { label = item.href; href = item.href }

abbrev pub missing_warning : Text
missing_warning = codes "navigation missing; generated table of contents from readable spine items"

abbrev pub fallback_warning : NavigationDocument → Text
fallback_warning (ncx_document item) = codes "preferred navigation missing; used fallback NCX"
fallback_warning (nav_document item) =
    codes "preferred navigation missing; used fallback navigation document"

unfoldable pub alternative_toc :
    (List ℕ → Document)
    → BoundedArchive
    → List SpineItem
    → List NavigationDocument
    → Checked (List TocEntry × Option Text)
alternative_toc xml archive spine [] = ok (map spine_entry spine, some missing_warning)
alternative_toc xml archive spine (alternative ∷ []) =
    parse_navigation_document xml archive alternative >>= λ toc.
    ok (toc, some (fallback_warning alternative))
alternative_toc xml archive spine (_ ∷ _ ∷ alternatives) = err invalid_navigation

-- The preferred document, or else what there is instead.
unfoldable pub toc_by :
    (List ℕ → Document)
    → BoundedArchive
    → PackageDocument
    → List SpineItem
    → Option NavigationDocument
    → Checked (List TocEntry × Option Text)
toc_by xml archive document spine (some preferred) =
    parse_navigation_document xml archive preferred >>= λ toc. ok (toc, none)
toc_by xml archive document spine none =
    alternative_toc xml archive spine (navigation_alternatives (values document.manifest))

unfoldable pub select_toc :
    (List ℕ → Document)
    → BoundedArchive
    → PackageDocument
    → List SpineItem
    → Checked (List TocEntry × Option Text)
select_toc xml archive document spine =
    preferred_navigation document.version document >>= λ preferred.
    toc_by xml archive document spine preferred
