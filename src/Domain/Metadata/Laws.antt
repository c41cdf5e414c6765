-- ===== src/Domain/Metadata/Laws.antt =====
-- What the catalog keeps of a parsed publication's descriptive data.
use folioharbor.Prelude.{
  All, List, [], any, ap, arith, false, inl, inr, is_empty, map, refl, ◌∙◌, ◌∷◌, ◌≡◌, ◌≤◌,
}
use folioharbor.Prelude.Result.{Result-cases, ok}
use folioharbor.Text.Chars.{Text, is_control, trim}
use folioharbor.Text.Chars.Laws.{trim_idempotent}
use folioharbor.Text.Utf8.{byte_len}
use folioharbor.Domain.Metadata.{
  CatalogMetadata, ParserMetadata, from_parser, map_values, parse_text,
}

-- A value of the catalog: not blank, trimmed, of at most 2,048 bytes, and free of control characters.
pub record IsCatalogText (value : Text) : Type 0 where
  pub trimmed : trim value ≡ value
  pub full : is_empty value ≡ false
  pub short : byte_len value ≤ 2_048
  pub printable : any is_control value ≡ false

parse_text-IsCatalogText :
    (value : Text) {kept : Text}
    → parse_text value ≡ ok kept
    → (kept ≡ trim value) × IsCatalogText kept
unfolding parse_text
parse_text-IsCatalogText value {kept} e =
    let same : kept ≡ trim value = ground arith in
    (
      same,
      rw same (record {
        trimmed = trim_idempotent value;
        full = ground arith;
        short = ground arith;
        printable = ground arith;
      }),
    )

parse_text_of : (value : Text) → IsCatalogText value → parse_text value ≡ ok value
unfolding parse_text
parse_text_of value h = ground (arith, h.trimmed, h.full, h.short, h.printable)

-- A list of values is kept, each one trimmed.
map_values-All :
    (values : List Text) {kept : List Text}
    → map_values values ≡ ok kept
    → (kept ≡ map trim values) × All IsCatalogText kept
unfolding map_values
map_values-All [] e = ground arith
map_values-All (value ∷ values) e = elim (Result-cases (parse_text value)) [
  | inl (first, parsed) ↦ elim (Result-cases (map_values values)) [
    | inl (rest, more) ↦
        ground (arith, parse_text-IsCatalogText value parsed, map_values-All values more)
    | inr (code, failed) ↦ absurd (ground arith)
  ]
  | inr (code, failed) ↦ absurd (ground arith)
]

map_values_of : (values : List Text) → All IsCatalogText values → map_values values ≡ ok values
unfolding map_values
map_values_of [] h = refl
map_values_of (value ∷ values) h = ground (arith, parse_text_of value h.0, map_values_of values h.1)

pub record IsCatalogMetadata (metadata : CatalogMetadata) : Type 0 where
  pub titled : is_empty metadata.titles ≡ false
  pub titles : All IsCatalogText metadata.titles
  pub authors : All IsCatalogText metadata.authors
  pub languages : All IsCatalogText metadata.languages
  pub identifiers : All IsCatalogText metadata.identifiers

-- The four lists as the parser would give them.
abbrev pub as_parsed : CatalogMetadata → ParserMetadata
as_parsed metadata = record {
  titles = metadata.titles;
  authors = metadata.authors;
  languages = metadata.languages;
  identifiers = metadata.identifiers;
}

from_parser_of :
    (metadata : CatalogMetadata)
    → IsCatalogMetadata metadata
    → from_parser (as_parsed metadata) ≡ ok metadata
unfolding from_parser
from_parser_of metadata h = ground (
  arith,
  h.titled,
  map_values_of metadata.titles h.titles,
  map_values_of metadata.authors h.authors,
  map_values_of metadata.languages h.languages,
  map_values_of metadata.identifiers h.identifiers,
)

is_empty-map {ℓ κ} :
    {A : Type ℓ} {B : Type κ} (f : A → B) (xs : List A) → is_empty (map f xs) ≡ is_empty xs
is_empty-map f [] = refl
is_empty-map f (x ∷ xs) = refl

from_parser_parts :
    (metadata : ParserMetadata) {kept : CatalogMetadata}
    → from_parser metadata ≡ ok kept
    → (is_empty metadata.titles ≡ false)
      × (map_values metadata.titles ≡ ok kept.titles)
      × (map_values metadata.authors ≡ ok kept.authors)
      × (map_values metadata.languages ≡ ok kept.languages)
      × (map_values metadata.identifiers ≡ ok kept.identifiers)
unfolding from_parser
from_parser_parts metadata e = ground arith

-- The catalog's data of a publication has at least one title, and each of its values is the trimmed
-- value of the parser, not blank, of at most 2,048 bytes and free of control characters.
pub from_parser-IsCatalogMetadata :
    (metadata : ParserMetadata) {kept : CatalogMetadata}
    → from_parser metadata ≡ ok kept
    → IsCatalogMetadata kept
      × (kept.titles ≡ map trim metadata.titles)
      × (kept.authors ≡ map trim metadata.authors)
      × (kept.languages ≡ map trim metadata.languages)
      × (kept.identifiers ≡ map trim metadata.identifiers)
from_parser-IsCatalogMetadata metadata {kept} e =
    let (titled, t, a, l, i) = from_parser_parts metadata {kept = kept} e in
    let (t', ht) = map_values-All metadata.titles t in
    let (a', ha) = map_values-All metadata.authors a in
    let (l', hl) = map_values-All metadata.languages l in
    let (i', hi) = map_values-All metadata.identifiers i in
    (
      record {
        titled = ap is_empty t' ∙ is_empty-map trim metadata.titles ∙ titled;
        titles = ht;
        authors = ha;
        languages = hl;
        identifiers = hi;
      },
      t',
      a',
      l',
      i',
    )

-- The catalog's data, read as a parser's result, is accepted unchanged.
pub from_parser_idempotent :
    (metadata : ParserMetadata) {kept : CatalogMetadata}
    → from_parser metadata ≡ ok kept
    → from_parser (as_parsed kept) ≡ ok kept
from_parser_idempotent metadata {kept} e =
    from_parser_of kept (from_parser-IsCatalogMetadata metadata e).0
