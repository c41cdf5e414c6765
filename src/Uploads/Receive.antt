-- ===== src/Uploads/Receive.antt =====
-- The receipt of an upload: `UploadService` in
-- crates/application/src/imports/receive_upload.rs. The answers of the upload repository and of the
-- blob store are a record of parameters, and the hash of the content is left to the caller: a
-- content stands for its digest.
pub mod Chunks
pub mod Laws
pub mod Order
use folioharbor.Prelude.{
  Bool, List, Option, [], drop, false, if◌then◌else◌, is_empty, length, ltb, none, not, some, suc,
  take, true, zero, ℕ, ◌*◌, ◌++◌, ◌+◌, ◌||◌, ◌∷◌,
}
use folioharbor.Prelude.Result.{Result, ok, err}
use folioharbor.Text.Chars.{Text, codes, text_eq}
use folioharbor.Text.Number.{u64_max}
use folioharbor.App.{App, AppError, conflict, dependency_unavailable, invalid, storage_exhausted}
use folioharbor.Domain.Upload.{UploadState}
use folioharbor.Uploads.Log.{Logged, call, ◌>>=◌, ◌>>◌}

pub data BlobStoreError : Type 0 where
  invalid_key insufficient_capacity identity_mismatch invalid_range io : BlobStoreError

abbrev pub max_append_bytes : ℕ
max_append_bytes = 1024 * 1024

abbrev pub dependency : AppError
dependency = dependency_unavailable (codes "upload_repository_unavailable")

abbrev pub state_conflict : AppError
state_conflict = conflict (codes "upload_state_conflict")

unfoldable pub storage_error : BlobStoreError → AppError
storage_error insufficient_capacity = storage_exhausted
storage_error _ = dependency_unavailable (codes "blob_store_unavailable")

-- The calls of the repository and of the store, with the values that depend on the content.
pub data Call : Type 0 where
  begins_receipt creates_staging beats deletes_staging promotes records_disposition : Call
  appends : List ℕ → Call
  fails_upload : ℕ → Text → Call
  prepares : ℕ → List ℕ → Call
  marks_received finalizes : ℕ → Call

-- The store's answer to a promotion: the key of the blob, or an error.
pub data Promotion : Type 0 where
  promoted : Text → Promotion
  not_promoted : BlobStoreError → Promotion

-- The fields of `UploadSession` that the receipt reads.
pub record Session : Type 0 where
  pub state : UploadState
  pub declared_bytes : ℕ
  pub received_bytes : ℕ
  pub has_storage_key : Bool

-- An answer of the repository is `none` where it fails; `append` is asked with the bytes received
-- up to and with the chunk, and `candidate_key` gives the key of a content of so many bytes.
pub record Ports : Type 0 where
  pub get_before : App Session
  pub get_after : App Session
  pub begin_receipt : UploadState → Option Bool
  pub create_staging : Option BlobStoreError
  pub append : ℕ → List ℕ → Option BlobStoreError
  pub delete_staging : Bool
  pub fail_upload : ℕ → Text → Bool
  pub prepare_promotion : Option Bool
  pub promote : Promotion
  pub candidate_key : ℕ → List ℕ → Text
  pub record_disposition : Option Bool
  pub mark_received : Option Bool
  pub finalize : Option Bool

-- What the loop of the receipt meets: a heartbeat's answer, bytes, or an error of the stream.
pub data Arrival : Type 0 where
  tick : Option Bool → Arrival
  chunk_of : List ℕ → Arrival
  interrupted : Arrival

-- `map_err(|_| dependency())`, and a conflict where the answer is no.
abbrev pub agreed : AppError → Option Bool → App (Unit {0})
agreed refusal none = err dependency
agreed refusal (some false) = err refusal
agreed refusal (some true) = ok tt

-- `abort`: what it returns, with its calls.
unfoldable pub abort : Ports → ℕ → Text → AppError × List Call
abort ports received code =
    if not ports.delete_staging then (dependency, deletes_staging ∷ []) else (
      if ports.fail_upload received code then invalid code else dependency,
      deletes_staging ∷ fails_upload received code ∷ [],
    )

-- `Err(self.abort(..).await)`
unfoldable pub abort_with {ℓ} : {A : Type ℓ} → Ports → ℕ → Text → Logged Call A
abort_with ports received code =
    let (error, calls) = abort ports received code in (err error, calls)

-- `let _ = self.abort(..).await; Err(storage_error(&error))`
unfoldable pub abort_storage {ℓ} : {A : Type ℓ} → Ports → ℕ → AppError → Logged Call A
abort_storage ports received error =
    (err error, (abort ports received (codes "upload_storage_failed")).1)

unfoldable pub heartbeat : Option Bool → Logged Call (Unit {0})
heartbeat answer = call beats (agreed (conflict (codes "upload_receipt_lease_lost")) answer)

-- `bytes.chunks(size)`, on fuel: as many as there are bytes.
unfoldable pub chunks_on : ℕ → ℕ → List ℕ → List (List ℕ)
chunks_on zero size bytes = []
chunks_on (suc fuel) size bytes =
    let rest = chunks_on fuel size (drop size bytes) in
    if is_empty bytes then [] else take size bytes ∷ rest

unfoldable pub chunks : ℕ → List ℕ → List (List ℕ)
chunks size bytes = chunks_on (length bytes) size bytes

-- What is received so far, with the content.
abbrev pub Received : Type 0
Received = ℕ × List ℕ

unfoldable pub append_chunks : Ports → ℕ → List (List ℕ) → Received → Logged Call Received
append_chunks ports declared [] (received, content) = (ok (received, content), [])
append_chunks ports declared (chunk ∷ rest) (received, content) =
    let total = received + length chunk in
    let stored =
      (ok tt, appends chunk ∷ []) >> append_chunks ports declared rest (total, content ++ chunk) in
    if ltb u64_max total || ltb declared total
    then abort_with ports received (codes "upload_exceeds_declared_size")
    else elim (ports.append total chunk) [
      | some error ↦ (ok tt, appends chunk ∷ []) >> abort_storage ports total (storage_error error)
      | none ↦ stored
    ]

unfoldable pub stream_content : Ports → ℕ → List Arrival → Received → Logged Call Received
stream_content ports declared [] received = (ok received, [])
stream_content ports declared (tick answer ∷ arrivals) received =
    heartbeat answer >> stream_content ports declared arrivals received
stream_content ports declared (interrupted ∷ arrivals) (received, content) =
    abort_with ports received (codes "upload_interrupted")
stream_content ports declared (chunk_of bytes ∷ arrivals) received =
    append_chunks ports declared (chunks max_append_bytes bytes) received >>= λ received'.
    stream_content ports declared arrivals received'

-- The store's answer to the promotion.
unfoldable pub promoted_as : Ports → ℕ → Text → Promotion → Logged Call (Unit {0})
promoted_as ports received candidate (promoted key) =
    if text_eq key candidate
    then call records_disposition (agreed state_conflict ports.record_disposition)
    else abort_storage ports received dependency
promoted_as ports received candidate (not_promoted error) =
    abort_storage ports received (storage_error error)

unfoldable pub promote : Ports → Received → Logged Call (Unit {0})
promote ports (received, content) = do
  call (prepares received content) (agreed state_conflict ports.prepare_promotion)
  call promotes (ok tt)
  promoted_as ports received (ports.candidate_key received content) ports.promote

unfoldable pub finalize : Ports → ℕ → Logged Call (Unit {0})
finalize ports received = call (finalizes received) (agreed state_conflict ports.finalize)

unfoldable pub finalize_received : Ports → Session → Logged Call Session
finalize_received ports current =
    if not current.has_storage_key
    then (err dependency, [])
    else do finalize ports current.received_bytes; (ports.get_after, [])

-- `create_staging_for`, and what follows where it fails.
unfoldable pub create_staging : Ports → Logged Call (Unit {0})
create_staging ports = elim ports.create_staging [
  | none ↦ call creates_staging (ok tt)
  | some error ↦ call creates_staging (ok tt) >> abort_storage ports 0 (storage_error error)
]

-- What follows once the content is staged.
unfoldable pub close_receipt : Ports → Received → Logged Call Session
close_receipt ports received = do
  promote ports received
  call (marks_received received.0) (agreed state_conflict ports.mark_received)
  finalize ports received.0
  (ports.get_after, [])

-- The receipt of an upload that is created or failed.
unfoldable pub receive_content : Ports → List Arrival → Session → Logged Call Session
receive_content ports arrivals current = do
  call begins_receipt (agreed state_conflict (ports.begin_receipt current.state))
  create_staging ports
  received ← stream_content ports current.declared_bytes arrivals (0, [])
  close_receipt ports received

unfoldable pub receive_found : Ports → List Arrival → Session → Logged Call Session
receive_found ports arrivals current = elim current.state [
  | UploadState.queued ↦ (ok current, [])
  | UploadState.received ↦ finalize_received ports current
  | UploadState.created ↦ receive_content ports arrivals current
  | UploadState.failed ↦ receive_content ports arrivals current
  | _ ↦ (err state_conflict, [])
]

unfoldable pub receive_upload : Ports → List Arrival → Logged Call Session
receive_upload ports arrivals = (ports.get_before, []) >>= receive_found ports arrivals
