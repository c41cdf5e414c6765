-- ===== src/Catalog/Books.antt =====
-- The pages of a library's books: `ListLibraryBooks` of
-- crates/application/src/catalog/list_library_books.rs. The catalog's repository, the base64 codec
-- and the bytes of identifiers are a record of parameters.
pub mod Laws
use folioharbor.Prelude.{
  Bool, List, Option, [], if◌then◌else◌, length, ltb, map, none, or_default, some, take, true, ℕ,
  ◌+◌, ◌==◌, ◌∷◌,
}
use folioharbor.Prelude.Result.{err, map_option, ok, ok_or, ◌>>=◌}
use folioharbor.Text.Chars.{Text, codes}
use folioharbor.App.{App, AppError, dependency_unavailable, invalid}
use folioharbor.Access.{AuthorizationGrant, Resolve, library_ref, require, view_library}

pub record PageRequest : Type 0 where
  pub cursor : Option Text
  pub limit : Option ℕ

pub record BookSummary : Type 0 where
  pub item_id : ℕ
  pub primary_title : Text
  pub authors : List Text
  pub languages : List Text
  pub media_type : Text
  pub can_read : Bool
  pub can_download : Bool

pub record Page : Type 0 where
  pub items : List BookSummary
  pub next_cursor : Option Text

pub record VisibleCatalogItem : Type 0 where
  pub holding_id : ℕ
  pub item_id : ℕ
  pub manifestation_id : ℕ
  pub package_id : ℕ
  pub primary_title : Text
  pub authors : List Text
  pub languages : List Text
  pub identifiers : List Text
  pub media_type : Text
  pub can_download : Bool

-- `rows` is the repository: the rows after an optional holding, and at most so many of them, for an
-- actor with a grant on a library; `none` where it fails. The codec is base64 without padding, and
-- `as_bytes` and `from_slice` are those of an identifier.
pub record Ports : Type 0 where
  pub resolve : Resolve
  pub rows : AuthorizationGrant → ℕ → Option ℕ → ℕ → ℕ → Option (List VisibleCatalogItem)
  pub base64_encode : List ℕ → Text
  pub base64_decode : Text → Option (List ℕ)
  pub as_bytes : ℕ → List ℕ
  pub from_slice : List ℕ → Option ℕ

abbrev pub max_page_size : ℕ
max_page_size = 100

abbrev pub default_page_size : ℕ
default_page_size = 25

abbrev pub invalid_page : AppError
invalid_page = invalid (codes "invalid_page")

unfoldable pub encode_cursor : Ports → ℕ → Text
encode_cursor ports holding_id = ports.base64_encode (ports.as_bytes holding_id)

unfoldable pub decode_cursor : Ports → Text → App ℕ
decode_cursor ports value = do
  bytes ← ok_or (ports.base64_decode value) invalid_page
  ok_or (ports.from_slice bytes) invalid_page

unfoldable pub summary : VisibleCatalogItem → BookSummary
summary row = record {
  item_id = row.item_id;
  primary_title = row.primary_title;
  authors = row.authors;
  languages = row.languages;
  media_type = row.media_type;
  can_read = true;
  can_download = row.can_download;
}

-- `rows.last().map(|row| encode_cursor(row.holding_id))`
unfoldable pub last_cursor : Ports → List VisibleCatalogItem → Option Text
last_cursor ports [] = none
last_cursor ports (row ∷ []) = some (encode_cursor ports row.holding_id)
last_cursor ports (_ ∷ row ∷ rows) = last_cursor ports (row ∷ rows)

unfoldable pub page_of : Ports → ℕ → List VisibleCatalogItem → Page
page_of ports limit rows =
    if ltb limit (length rows)
    then record {
      items = map summary (take limit rows);
      next_cursor = last_cursor ports (take limit rows);
    }
    else record { items = map summary rows; next_cursor = none }

-- `limit.min(MAX_PAGE_SIZE)`
unfoldable pub clamp : ℕ → ℕ
clamp limit = if ltb max_page_size limit then max_page_size else limit

-- A page, for a limit that is in range.
unfoldable pub list_page : Ports → ℕ → ℕ → ℕ → Option Text → ℕ → App Page
list_page ports actor library request cursor limit = do
  after ← map_option (decode_cursor ports) cursor
  grant ← require ports.resolve actor view_library (library_ref library)
  rows ←
      ok_or (ports.rows grant library after (limit + 1) request)
        (dependency_unavailable (codes "catalog_repository_unavailable"))
  ok (page_of ports limit rows)

-- `ListLibraryBooks::execute`
unfoldable pub list_books : Ports → ℕ → ℕ → ℕ → PageRequest → App Page
list_books ports actor library request page =
    let limit = or_default default_page_size page.limit in
    if limit == 0
    then err invalid_page
    else list_page ports actor library request page.cursor (clamp limit)
