-- ===== src/Maintenance/Recovery.antt =====
-- The recovery of uploads: `UploadRecoveryService::reconcile` and `clean_claim` of
-- crates/application/src/imports/upload_recovery.rs. The repository answers the claims one after the
-- other; a panic of the spawned task is not modelled.
pub mod Laws
use folioharbor.Prelude.{
  Bool, Option, [], false, if◌then◌else◌, none, some, suc, true, zero, ℕ, ◌+◌, ◌∷◌,
}
use folioharbor.Prelude.Result.{Result, ok, err}
use folioharbor.Text.Chars.{Text}
use folioharbor.Uploads.Create.{UploadRepositoryError}
use folioharbor.Maintenance.Calls.{Traced, after, call, ◌>>=◌}

-- `UploadCleanup`, with the fields that the service reads.
pub record UploadCleanup : Type 0 where
  pub staging_key : Text
  pub final_key : Option Text
  pub final_owned : Bool

pub data Call : Type 0 where
  expires claims : Call
  deletes : Text → Call
  abandons completes : UploadCleanup → Call

abbrev pub Checked {ℓ} : Type ℓ → Type ℓ
Checked A = Result A UploadRepositoryError

abbrev pub Run {ℓ} : Type ℓ → Type ℓ
Run A = Traced Call UploadRepositoryError A

-- `claim_cleanup` is asked with the number of the round; `delete` says whether the blob store
-- succeeds.
pub record Ports : Type 0 where
  pub expire_worker : Checked (Unit {0})
  pub claim_cleanup : ℕ → Checked (Option UploadCleanup)
  pub delete : Text → Bool
  pub abandon : UploadCleanup → Checked (Unit {0})
  pub complete : UploadCleanup → Checked Bool

-- `guard.abandon().await?; return Ok(false)`
unfoldable pub give_up : Ports → UploadCleanup → Run Bool
give_up ports cleanup = call (abandons cleanup) (ports.abandon cleanup) >>= λ done. (ok false, [])

abbrev pub finish : Ports → UploadCleanup → Run Bool
finish ports cleanup = call (completes cleanup) (ports.complete cleanup)

-- The final blob, if the cleanup owns one.
abbrev pub owned_key : Bool → Option Text → Option Text
owned_key false key = none
owned_key true key = key

unfoldable pub clean_final : Ports → UploadCleanup → Option Text → Run Bool
clean_final ports cleanup none = finish ports cleanup
clean_final ports cleanup (some final_key) =
    if ports.delete final_key
    then after (deletes final_key ∷ []) (finish ports cleanup)
    else after (deletes final_key ∷ []) (give_up ports cleanup)

unfoldable pub clean_claim : Ports → UploadCleanup → Run Bool
clean_claim ports cleanup =
    if ports.delete cleanup.staging_key
    then after (deletes cleanup.staging_key ∷ [])
        (clean_final ports cleanup (owned_key cleanup.final_owned cleanup.final_key))
    else after (deletes cleanup.staging_key ∷ []) (give_up ports cleanup)

abbrev pub count_change : Bool → ℕ → ℕ
count_change false completed = completed
count_change true completed = completed + 1

-- The loop, with the rounds that are left and the number of this one.
unfoldable pub recover : Ports → ℕ → ℕ → ℕ → Run ℕ
recover ports zero round completed = (ok completed, [])
recover ports (suc rounds) round completed = call claims (ports.claim_cleanup round) >>= λ claimed.
    elim claimed [
      | none ↦ (ok completed, [])
      | some cleanup ↦ clean_claim ports cleanup >>= λ changed.
          recover ports rounds (round + 1) (count_change changed completed)
    ]

unfoldable pub reconcile : Ports → ℕ → Run ℕ
reconcile ports limit = call expires ports.expire_worker >>= λ done. recover ports limit 0 0
