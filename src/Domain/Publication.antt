-- ===== src/Domain/Publication.antt =====
-- A publication as the catalog takes it: `PublicationResource::new` and
-- `CatalogPublication::from_parser` of crates/domain/src/catalog/publication_package.rs.
pub mod Laws
use folioharbor.Prelude.{
  Bool, List, Option, [], all, false, if◌then◌else◌, is_empty, length, ltb, map, none, not, some, ℕ,
  ◌==◌, ◌||◌, ◌∷◌,
}
use folioharbor.Prelude.Result.{err, map_option, ok, refuse_if, ◌>>=◌, ◌>>◌}
use folioharbor.Text.Chars.{Text, is_ascii_alphanumeric, text_eq}
use folioharbor.Text.Split.{before}
use folioharbor.Text.Utf8.{encode, byte_len}
use folioharbor.Domain.Metadata.{Catalog, CatalogValueError, invalid_metadata, CatalogMetadata}
use folioharbor.Domain.Hrefs.{SpineEntry, TocEntry, normalized_href}

pub record PublicationResource : Type 0 where
  pub href : Text
  pub media_type : Text

pub record CatalogPublication : Type 0 where
  pub metadata : CatalogMetadata
  pub resources : List PublicationResource
  pub spine : List SpineEntry
  pub toc : List TocEntry
  pub cover_href : Option Text

abbrev pub is_media_byte : ℕ → Bool
is_media_byte b = is_ascii_alphanumeric b || b == b'/' || b == b'+' || b == b'-' || b == b'.'

-- `PublicationResource::new`
unfoldable pub new_resource : Text → Text → Catalog PublicationResource
new_resource href media_type =
    if is_empty media_type
      || ltb 255 (byte_len media_type)
      || not (all is_media_byte (encode media_type))
    then err invalid_metadata
    else normalized_href href >>= λ checked. ok (record { href = checked; media_type = media_type })

-- A set of texts, as `BTreeSet` collects it: a text that it holds already changes nothing.
unfoldable pub holds : Text → List Text → Bool
holds value [] = false
holds value (x ∷ set) = text_eq x value || holds value set

unfoldable pub collect_set : List Text → List Text
collect_set [] = []
collect_set (x ∷ xs) = let set = collect_set xs in if holds x set then set else x ∷ set

abbrev pub hrefs_of : List PublicationResource → List Text
hrefs_of resources = map (λ resource. resource.href) resources

abbrev pub is_outside : List Text → Option Text → Bool
is_outside hrefs none = false
is_outside hrefs (some cover) = not (holds cover hrefs)

unfoldable pub from_parser :
    CatalogMetadata
    → List PublicationResource
    → List SpineEntry
    → List TocEntry
    → Option Text
    → Catalog CatalogPublication
from_parser metadata resources spine toc cover_href =
    let hrefs = collect_set (hrefs_of resources) in
    refuse_if (is_empty resources || not (length hrefs == length resources) || is_empty spine)
      invalid_metadata
    >> (refuse_if
          (not (all (λ entry. holds (before b'#' entry.href) hrefs) spine)
            || not (all (λ entry. holds (before b'#' entry.href) hrefs) toc))
          invalid_metadata
        >> (map_option normalized_href cover_href >>= λ cover.
            refuse_if (is_outside hrefs cover) invalid_metadata
            >> ok (record {
              metadata = metadata;
              resources = resources;
              spine = spine;
              toc = toc;
              cover_href = cover;
            })))
