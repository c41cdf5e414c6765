-- ===== src/Domain/Metadata.antt =====
-- The descriptive data of a publication: `CatalogText` and `CatalogMetadata::from_parser` of
-- crates/domain/src/catalog/wemi.rs.
pub mod Laws
use folioharbor.Prelude.{List, [], any, if◌then◌else◌, is_empty, ltb, ◌||◌, ◌∷◌}
use folioharbor.Prelude.Result.{Result, err, map_all, ok, ◌>>=◌}
use folioharbor.Text.Chars.{Text, is_control, trim}
use folioharbor.Text.Utf8.{byte_len}

pub data CatalogValueError : Type 0 where
  missing_title invalid_metadata : CatalogValueError

abbrev pub Catalog {ℓ} : Type ℓ → Type ℓ
Catalog A = Result A CatalogValueError

pub record ParserMetadata : Type 0 where
  pub titles : List Text
  pub authors : List Text
  pub languages : List Text
  pub identifiers : List Text

-- A list of `CatalogText` stands for each field.
pub record CatalogMetadata : Type 0 where
  pub titles : List Text
  pub authors : List Text
  pub languages : List Text
  pub identifiers : List Text

-- `CatalogText::parse`
unfoldable pub parse_text : Text → Catalog Text
unfolding trim
parse_text value =
    let normalized = trim value in
    if is_empty normalized || ltb 2_048 (byte_len normalized) || any is_control normalized
    then err invalid_metadata
    else ok normalized

unfoldable pub map_values : List Text → Catalog (List Text)
unfolding map_all
map_values values = map_all parse_text values

unfoldable pub from_parser : ParserMetadata → Catalog CatalogMetadata
unfolding map_values
from_parser metadata = if is_empty metadata.titles then err missing_title else do
  titles ← map_values metadata.titles
  authors ← map_values metadata.authors
  languages ← map_values metadata.languages
  identifiers ← map_values metadata.identifiers
  ok (record {
    titles = titles;
    authors = authors;
    languages = languages;
    identifiers = identifiers;
  })

unfoldable pub primary_title : CatalogMetadata → Text
primary_title metadata = elim metadata.titles [ [] ↦ [] | title ∷ titles ↦ title ]
