-- ===== src/Download/Handler.antt =====
-- The handler of a download request: `download`, `success_response`, `range_not_satisfiable` and
-- `matches_validator` of crates/http/src/routes/download.rs. The two calls of the application
-- layer are arguments: the grant, and the answer to `record_start` for each range.
pub mod Laws
use folioharbor.Prelude.{
  Bool, List, Option, [], any, false, if◌then◌else◌, is_some, none, some, true, ℕ, ◌&&◌, ◌==◌, ◌||◌,
  ◌∷◌,
}
use folioharbor.Prelude.Result.{err, ok}
use folioharbor.Text.Chars.{Text, codes, text_eq, trim}
use folioharbor.Text.Split.{split}
use folioharbor.App.{App, AppError, bad_request, dependency_unavailable}
use folioharbor.Download.Range.{ByteRange, range_length, requested_range, resolve_range}
use folioharbor.Download.Grant.{DownloadGrant}

-- `strip_prefix("W/").unwrap_or(candidate)`
abbrev pub strip_weak : Text → Text
strip_weak [] = []
strip_weak (c ∷ []) = c ∷ []
strip_weak (c ∷ d ∷ s) = if c == b'W' && d == b'/' then s else c ∷ d ∷ s

abbrev pub is_match : Text → Text → Bool
is_match etag candidate =
    text_eq (trim candidate) (codes "*") || text_eq (strip_weak (trim candidate)) etag

-- The values of `If-None-Match`; one that is no visible text is `none`.
unfoldable pub matches_validator : List (Option Text) → Text → Bool
matches_validator [] etag = false
matches_validator (none ∷ values) etag = matches_validator values etag
matches_validator (some value ∷ values) etag =
    any (is_match etag) (split b',' value) || matches_validator values etag

pub data ContentRange : Type 0 where
  part_of : ByteRange → ℕ → ContentRange
  unsatisfied : ℕ → ContentRange

-- The status, and the headers and the body as far as they depend on the request: `body` is the
-- range that is streamed from the blob.
pub record Response : Type 0 where
  pub status : ℕ
  pub content_length : Option ℕ
  pub content_range : Option ContentRange
  pub body : Option ByteRange

-- `problem_response`: the statuses of `AppError` are not modelled here.
pub data Reply : Type 0 where
  response : Response → Reply
  problem : AppError → Reply

-- The request's headers that the handler reads.
pub record Headers : Type 0 where
  pub if_none_match : List (Option Text)
  pub range : List (Option Text)

unfoldable pub range_not_satisfiable : ℕ → Response
range_not_satisfiable size = record {
  status = 416;
  content_length = none;
  content_range = some (unsatisfied size);
  body = none;
}

abbrev pub not_modified : Response
not_modified = record { status = 304; content_length = none; content_range = none; body = none }

unfoldable pub success_response : ℕ → Bool → ByteRange → Bool → Response
success_response size partial range streams = record {
  status = if partial then 206 else 200;
  content_length = some (range_length range);
  content_range = if partial then some (part_of range size) else none;
  body = if streams then some range else none;
}

-- The tail of the handler, once the range is known; with the reply, the range of the start that was
-- recorded. The first flag is that the request is a HEAD, the second that there is a blob store.
unfoldable pub serve :
    DownloadGrant
    → Bool
    → ByteRange
    → Bool
    → Bool
    → (ByteRange → App (Unit {0}))
    → Reply × Option ByteRange
serve grant partial range true has_blobs record_start =
    (response (success_response grant.byte_size partial range false), none)
serve grant partial range false false record_start =
    (problem (dependency_unavailable (codes "blob_store_unavailable")), none)
serve grant partial range false true record_start = elim (record_start range) [
  | err error ↦ (problem error, none)
  | ok _ ↦ (response (success_response grant.byte_size partial range true), some range)
]

-- Behind the check of the validator.
unfoldable pub answer :
    DownloadGrant → Headers → Bool → Bool → (ByteRange → App (Unit {0})) → Reply × Option ByteRange
answer grant headers head has_blobs record_start = elim (requested_range headers.range) [
  | err _ ↦ (response (range_not_satisfiable grant.byte_size), none)
  | ok requested ↦ elim (resolve_range requested grant.byte_size) [
    | err _ ↦ (response (range_not_satisfiable grant.byte_size), none)
    | ok range ↦ serve grant (is_some requested) range head has_blobs record_start
  ]
]

-- `item` is whether the identifier can be parsed.
unfoldable pub download :
    Bool
    → App DownloadGrant
    → Headers
    → Bool
    → Bool
    → (ByteRange → App (Unit {0}))
    → Reply × Option ByteRange
download false authorized headers head has_blobs record_start =
    (problem (bad_request (codes "invalid_identifier")), none)
download true (err error) headers head has_blobs record_start = (problem error, none)
download true (ok grant) headers head has_blobs record_start =
    if matches_validator headers.if_none_match grant.etag
    then (response not_modified, none)
    else answer grant headers head has_blobs record_start
