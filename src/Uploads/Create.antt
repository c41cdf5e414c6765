-- ===== src/Uploads/Create.antt =====
-- The creation and inspection of an upload: `UploadService::create` and `get` of
-- crates/application/src/imports/create_upload.rs. The repository's answers are parameters; an
-- instant is a number of nanoseconds.
pub mod Laws
mod Tests
use folioharbor.Prelude.{
  Bool, Option, drop, if◌then◌else◌, leb, length, ltb, map, not, ℕ, ◌&&◌, ◌*◌, ◌+◌, ◌-◌, ◌==◌, ◌||◌,
}
use folioharbor.Prelude.Result.{Result, err, map_err, ok, ok_or, refuse_if, ◌>>=◌, ◌>>◌}
use folioharbor.Text.Chars.{Text, codes, text_eq, to_ascii_lowercase}
use folioharbor.App.{App, AppError}
use folioharbor.Access.{Resolve, create_upload, inspect_upload, library_ref, require}

pub data UploadRepositoryError : Type 0 where
  persistence quota_exceeded conflict invalid forbidden not_found : UploadRepositoryError

pub record CreateUploadRequest : Type 0 where
  pub actor : ℕ
  pub request_id : ℕ
  pub library_id : ℕ
  pub file_name : Text
  pub media_type : Text
  pub declared_bytes : ℕ

-- `CreateUploadRecord` without the scope of the deduplication, which is handed on.
pub record CreateUploadRecord : Type 0 where
  pub upload_id : ℕ
  pub library_id : ℕ
  pub actor : ℕ
  pub request_id : ℕ
  pub file_name : Text
  pub media_type : Text
  pub declared_bytes : ℕ
  pub expires_at : ℕ
  pub now : ℕ

-- `str::ends_with`
abbrev pub ends_with : Text → Text → Bool
ends_with suffix s =
    leb (length suffix) (length s) && text_eq (drop (length s - length suffix) s) suffix

abbrev pub is_epub_name : Text → Bool
is_epub_name file_name = ends_with (codes ".epub") (map to_ascii_lowercase file_name)

abbrev pub is_upload_type : Text → Bool
is_upload_type media_type =
    text_eq media_type (codes "application/epub+zip")
    || text_eq media_type (codes "application/octet-stream")

unfoldable pub declared_size : ℕ → ℕ → App ℕ
declared_size value upload_limit_bytes =
    if value == 0 || ltb upload_limit_bytes value then err AppError.payload_too_large else ok value

unfoldable pub create_error : UploadRepositoryError → AppError
create_error quota_exceeded = AppError.conflict (codes "library_quota_exceeded")
create_error UploadRepositoryError.conflict = AppError.conflict (codes "upload_already_exists")
create_error UploadRepositoryError.invalid = AppError.invalid (codes "invalid_upload")
create_error UploadRepositoryError.forbidden = AppError.forbidden (codes "library_action_forbidden")
create_error UploadRepositoryError.not_found = AppError.not_found (codes "library_not_found")
create_error persistence = AppError.dependency_unavailable (codes "upload_repository_unavailable")

-- Twenty-four hours in nanoseconds.
abbrev pub upload_lifetime : ℕ
upload_lifetime = 24 * 3_600 * 1_000_000_000

-- What is asked of the repository, with the new identifier and the instant.
unfoldable pub record_of : CreateUploadRequest → ℕ → ℕ → ℕ → CreateUploadRecord
record_of request upload_id bytes now = record {
  upload_id = upload_id;
  library_id = request.library_id;
  actor = request.actor;
  request_id = request.request_id;
  file_name = request.file_name;
  media_type = request.media_type;
  declared_bytes = bytes;
  expires_at = now + upload_lifetime;
  now = now;
}

module _ {Session : Type 0} (resolve : Resolve) where
  -- `UploadService::create`
  unfoldable pub create :
      (CreateUploadRecord → Result Session UploadRepositoryError)
      → ℕ
      → ℕ
      → ℕ
      → CreateUploadRequest
      → App Session
  create create_authorized upload_limit_bytes upload_id now request =
      refuse_if (not (is_epub_name request.file_name))
        (AppError.invalid (codes "epub_filename_required"))
      >> (refuse_if (not (is_upload_type request.media_type))
            (AppError.invalid (codes "unsupported_upload_media_type"))
          >> (declared_size request.declared_bytes upload_limit_bytes >>= λ bytes.
              require resolve request.actor create_upload (library_ref request.library_id)
              >>= λ grant.
                  map_err create_error (create_authorized (record_of request upload_id bytes now))))

  -- `UploadService::get`: the repository fails, or knows the upload or not.
  unfoldable pub get : Option (Option Session) → ℕ → ℕ → App Session
  get found actor library = require resolve actor inspect_upload (library_ref library) >>= λ grant.
      ok_or found (AppError.dependency_unavailable (codes "upload_repository_unavailable"))
      >>= λ known. ok_or known (AppError.not_found (codes "upload_not_found"))
