-- ===== src/Download/Grant.antt =====
-- The authorization of a download: `DownloadSourceCollector`, `DownloadItem::authorize` and
-- `DownloadService::record_start` of crates/application/src/catalog/download_item.rs. The repository
-- is injected: what it answers, and the sources that it hands to the receiver, are arguments. The
-- digest and its encoding in `opaque_etag` are third-party code, the argument `etag_of`.
pub mod Laws
use folioharbor.Prelude.{Bool, List, Option, [], false, none, some, true, ℕ, ◌∷◌}
use folioharbor.Prelude.Result.{err, ok}
use folioharbor.Text.Chars.{Text, codes}
use folioharbor.App.{App, AppError, dependency_unavailable, forbidden, not_found}
use folioharbor.Download.Disposition.{sanitize}

pub record DownloadSource : Type 0 where
  pub blob_id : ℕ
  pub storage_identity : Text
  pub byte_size : ℕ
  pub file_name : Text

pub data DownloadSourceCollection : Type 0 where
  missing invalid_collection : DownloadSourceCollection
  one : DownloadSource → DownloadSourceCollection

-- `receive`
unfoldable pub receive : DownloadSourceCollection → DownloadSource → DownloadSourceCollection
receive missing source = one source
receive (one _) source = invalid_collection
receive invalid_collection source = invalid_collection

-- The collector after the repository has handed over its sources.
unfoldable pub collect : DownloadSourceCollection → List DownloadSource → DownloadSourceCollection
collect collection [] = collection
collect collection (source ∷ sources) = collect (receive collection source) sources

pub data DownloadAuthorization : Type 0 where
  granted forbidden_download not_found_item : DownloadAuthorization

pub record DownloadGrant : Type 0 where
  pub storage_identity : Text
  pub byte_size : ℕ
  pub safe_file_name : Text
  pub etag : Text

abbrev pub repository_unavailable : AppError
repository_unavailable = dependency_unavailable (codes "download_repository_unavailable")

unfoldable pub grant_of : (ℕ → Bool) → (ℕ → Text) → DownloadSourceCollection → App DownloadGrant
grant_of is_format etag_of (one source) = ok (record {
  storage_identity = source.storage_identity;
  byte_size = source.byte_size;
  safe_file_name = sanitize is_format source.file_name;
  etag = etag_of source.blob_id;
})
grant_of is_format etag_of _ = err repository_unavailable

-- `none` is an error of the repository.
unfoldable pub authorize :
    (ℕ → Bool) → (ℕ → Text) → Option DownloadAuthorization → List DownloadSource → App DownloadGrant
authorize is_format etag_of none sources = err repository_unavailable
authorize is_format etag_of (some granted) sources =
    grant_of is_format etag_of (collect missing sources)
authorize is_format etag_of (some forbidden_download) sources =
    err (forbidden (codes "item_download_forbidden"))
authorize is_format etag_of (some not_found_item) sources = err (not_found (codes "item_not_found"))

unfoldable pub record_start : Option Bool → App (Unit {0})
record_start none = err repository_unavailable
record_start (some true) = ok tt
record_start (some false) = err (not_found (codes "item_not_found"))
