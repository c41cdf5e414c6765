-- ===== src/Uploads/Create/Laws.antt =====
-- When an upload is created.
use folioharbor.Prelude.{
  Bool-cases, [], ap, arith, drop, inl, inr, leb, length, map, not, refl, true, ℕ, ◌+◌, ◌-◌, ◌↔◌,
  ◌∷◌, ◌≡◌, ◌≢◌, ◌≤◌, ◌⊎◌,
}
use folioharbor.Prelude.Result.{>>-eq-ok, >>=-eq-ok, Result, map_err-eq-ok, ok, refuse_if}
use folioharbor.Text.Chars.{Text, codes, text_eq, text_eq-eq, to_ascii_lowercase}
use folioharbor.Access.{AuthorizationGrant, Resolve, create_upload, library_ref, require}
use folioharbor.Uploads.Create.{
  CreateUploadRecord, CreateUploadRequest, UploadRepositoryError, create, declared_size,
  is_epub_name, is_upload_type, record_of,
}

text_eq-same : (s : Text) → text_eq s s ≡ true
text_eq-same [] = refl
text_eq-same (x ∷ s) = ground (arith, text_eq-same s)

-- The end of a name, in lower case.
abbrev pub extension : Text → Text
extension file_name = let name = map to_ascii_lowercase file_name in drop (length name - 5) name

-- The input that is accepted.
pub record IsAcceptable (limit : ℕ) (request : CreateUploadRequest) : Type 0 where
  pub named : extension request.file_name ≡ codes ".epub"
  pub typed :
      (request.media_type ≡ codes "application/epub+zip")
      ⊎ (request.media_type ≡ codes "application/octet-stream")
  pub filled : request.declared_bytes ≢ 0
  pub small : request.declared_bytes ≤ limit

is_epub_name_iff :
    (file_name : Text) → (is_epub_name file_name ≡ true) ↔ (extension file_name ≡ codes ".epub")
is_epub_name_iff file_name =
    let name = map to_ascii_lowercase file_name in
    (
      λ h. text_eq-eq _ _ (ground arith),
      λ h. elim (Bool-cases (leb 5 (length name))) [
        | inl long ↦ rw (long, h) refl
        | inr short ↦
            let start : length name - 5 ≡ 0 = ground arith in
            let same : name ≡ codes ".epub" = rw start at h in
            absurd (ground (arith, ap length same))
      ],
    )

is_upload_type_iff :
    (media_type : Text)
    → (is_upload_type media_type ≡ true) ↔ (
        (media_type ≡ codes "application/epub+zip")
        ⊎ (media_type ≡ codes "application/octet-stream"))
is_upload_type_iff media_type = (
  λ h. elim (Bool-cases (text_eq media_type (codes "application/epub+zip"))) [
    | inl epub ↦ inl (text_eq-eq _ _ epub)
    | inr other ↦ inr (text_eq-eq media_type _ (rw other at h))
  ],
  λ h. elim h [ inl epub ↦ rw epub refl | inr bytes ↦ rw bytes refl ],
)

declared_size-fits :
    (value limit : ℕ) → value ≢ 0 → value ≤ limit → declared_size value limit ≡ ok value
unfolding declared_size
declared_size-fits value limit filled small = ground arith

-- What the repository is asked to create: the data of the request, and an end 24 hours, in
-- nanoseconds, after the instant.
abbrev pub created_record : CreateUploadRequest → ℕ → ℕ → CreateUploadRecord
created_record request upload_id now = record {
  upload_id = upload_id;
  library_id = request.library_id;
  actor = request.actor;
  request_id = request.request_id;
  file_name = request.file_name;
  media_type = request.media_type;
  declared_bytes = request.declared_bytes;
  expires_at = now + 86_400_000_000_000;
  now = now;
}

record_of-created_record :
    (request : CreateUploadRequest) (upload_id now : ℕ)
    → record_of request upload_id request.declared_bytes now ≡ created_record request upload_id now
unfolding record_of
record_of-created_record request upload_id now = refl

module _ {Session : Type 0} (resolve : Resolve) where
  create-ok :
      (create_authorized : CreateUploadRecord → Result Session UploadRepositoryError)
      (limit upload_id now : ℕ) (request : CreateUploadRequest) {session : Session}
      → create resolve create_authorized limit upload_id now request ≡ ok session
      → IsAcceptable limit request
        × (grant : AuthorizationGrant) × (require resolve request.actor create_upload
              (library_ref request.library_id)
            ≡ ok grant)
        × (create_authorized (record_of request upload_id request.declared_bytes now) ≡ ok session)
  unfolding create declared_size
  create-ok create_authorized limit upload_id now request e =
      let (n, e) = >>-eq-ok (refuse_if (not (is_epub_name request.file_name)) _) _ e in
      let (t, e) = >>-eq-ok (refuse_if (not (is_upload_type request.media_type)) _) _ e in
      let (bytes, b, e) = >>=-eq-ok (declared_size request.declared_bytes limit) _ e in
      let resource = library_ref request.library_id in
      let (grant, granted, e) =
        >>=-eq-ok (require resolve request.actor create_upload resource) _ e in
      let same : bytes ≡ request.declared_bytes = ground arith in
      let made = map_err-eq-ok _ _ (rw same at e) in
      (
        record {
          named = (is_epub_name_iff request.file_name).0 (ground arith);
          typed = (is_upload_type_iff request.media_type).0 (ground arith);
          filled = ground arith;
          small = ground arith;
        },
        grant,
        granted,
        made,
      )

  -- An upload is created exactly when its file is named as an EPUB, its media type is one of the two,
  -- its size is not zero and within the limit, the actor is granted uploads to the library, and the
  -- repository creates it, for the declared bytes and with an end 24 hours later.
  pub create_iff :
      (create_authorized : CreateUploadRecord → Result Session UploadRepositoryError)
      (limit upload_id now : ℕ) (request : CreateUploadRequest) (session : Session)
      → (create resolve create_authorized limit upload_id now request ≡ ok session)
        ↔ IsAcceptable limit request
          × (grant : AuthorizationGrant) × (require resolve request.actor create_upload
                (library_ref request.library_id)
              ≡ ok grant)
          × (create_authorized (created_record request upload_id now) ≡ ok session)
  unfolding create
  create_iff create_authorized limit upload_id now request session = (
    λ e.
        let (h, grant, granted, made) = create-ok create_authorized limit upload_id now request e in
        (h, grant, granted, rw (record_of-created_record request upload_id now) at made),
    λ (h, grant, granted, made).
        let made = rw (← record_of-created_record request upload_id now) at made in
        rw
          (
            (is_epub_name_iff request.file_name).1 h.named,
            (is_upload_type_iff request.media_type).1 h.typed,
            declared_size-fits request.declared_bytes limit h.filled h.small,
            granted,
            made,
          )
          refl,
  )
