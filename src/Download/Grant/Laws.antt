-- ===== src/Download/Grant/Laws.antt =====
-- When a download is granted.
use folioharbor.Prelude.{Bool, List, Option, [], arith, none, refl, some, ℕ, ◌↔◌, ◌∷◌, ◌≡◌}
use folioharbor.Prelude.Result.{err, ok}
use folioharbor.Text.Chars.{Text}
use folioharbor.Download.Disposition.{sanitize}
use folioharbor.Download.Grant.{
  DownloadAuthorization, DownloadGrant, DownloadSource, authorize, collect, forbidden_download,
  grant_of, granted, invalid_collection, missing, not_found_item, receive, repository_unavailable,
}

collect_invalid :
    (sources : List DownloadSource) → collect invalid_collection sources ≡ invalid_collection
unfolding collect receive
collect_invalid [] = refl
collect_invalid (source ∷ sources) = collect_invalid sources

collect_many :
    (a b : DownloadSource) (sources : List DownloadSource)
    → collect missing (a ∷ b ∷ sources) ≡ invalid_collection
unfolding collect receive
collect_many a b sources = collect_invalid sources

module _ (is_format : ℕ → Bool) (etag_of : ℕ → Text) where
  abbrev pub grant_for : DownloadSource → DownloadGrant
  grant_for source = record {
    storage_identity = source.storage_identity;
    byte_size = source.byte_size;
    safe_file_name = sanitize is_format source.file_name;
    etag = etag_of source.blob_id;
  }

  authorize_many :
      (a b : DownloadSource) (sources : List DownloadSource)
      → authorize is_format etag_of (some granted) (a ∷ b ∷ sources) ≡ err repository_unavailable
  unfolding authorize
  authorize_many a b sources = rw (collect_many a b sources) (unfold grant_of in refl)

  granted_only :
      (sources : List DownloadSource) {grant : DownloadGrant}
      → authorize is_format etag_of (some granted) sources ≡ ok grant
      → (source : DownloadSource) × (sources ≡ source ∷ []) × (grant ≡ grant_for source)
  granted_only [] e = absurd (unfold authorize grant_of collect in cc)
  granted_only (source ∷ []) e =
      (source, refl, (unfold authorize grant_of collect receive in ground arith))
  granted_only (a ∷ b ∷ sources) e = absurd (cc (authorize_many a b sources))

  authorize_allowed :
      (answer : Option DownloadAuthorization) (sources : List DownloadSource)
      {grant : DownloadGrant}
      → authorize is_format etag_of answer sources ≡ ok grant
      → answer ≡ some granted
  unfolding authorize
  authorize_allowed none sources e = cc
  authorize_allowed (some granted) sources e = refl
  authorize_allowed (some forbidden_download) sources e = cc
  authorize_allowed (some not_found_item) sources e = cc

  authorize_one :
      (source : DownloadSource)
      → authorize is_format etag_of (some granted) (source ∷ []) ≡ ok (grant_for source)
  unfolding authorize grant_of collect receive
  authorize_one source = refl

  -- A download is granted exactly when the repository grants it and hands over one source, no more
  -- and no less, and the grant is made of that source.
  pub authorize_iff :
      (answer : Option DownloadAuthorization) (sources : List DownloadSource)
      (grant : DownloadGrant)
      → (authorize is_format etag_of answer sources ≡ ok grant) ↔ (
          (answer ≡ some granted)
          × ((source : DownloadSource) × (sources ≡ source ∷ []) × (grant ≡ grant_for source)))
  authorize_iff answer sources grant = (
    λ e.
        let allowed = authorize_allowed answer sources e in
        (allowed, granted_only sources (rw allowed at e)),
    λ h. rw (h.0, h.1.1, h.1.2) (authorize_one h.1.0),
  )
