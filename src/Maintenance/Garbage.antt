-- ===== src/Maintenance/Garbage.antt =====
-- The collection of blobs: `CollectGarbage` of crates/application/src/catalog/garbage_collect.rs.
pub mod Laws
use folioharbor.Prelude.{
  Bool, List, Option, [], if◌then◌else◌, is_empty, leb, ltb, none, not, some, ℕ, ◌&&◌, ◌+◌, ◌∷◌,
}
use folioharbor.Prelude.Result.{Result, ok, err}
use folioharbor.Text.Chars.{Text}
use folioharbor.Text.Utf8.{byte_len}
use folioharbor.Maintenance.Calls.{Traced, after, call, ◌>>=◌}

-- `BlobPurgeClaim`; its token is handed back to the repository.
pub record BlobPurgeClaim : Type 0 where
  pub blob_id : ℕ
  pub storage_key : Text

pub data GarbageCollectionError : Type 0 where
  repository storage : GarbageCollectionError

pub record GarbageCollectionOutcome : Type 0 where
  pub purged_items : ℕ
  pub purged_blobs : ℕ

pub data Call : Type 0 where
  prepares claims : ℕ → Call
  deletes : Text → Call
  releases completes : BlobPurgeClaim → Call

abbrev pub Run {ℓ} : Type ℓ → Type ℓ
Run A = Traced Call GarbageCollectionError A

-- An answer of the repository is `none` where it fails; `delete` and `release` say whether they
-- succeed.
pub record Ports : Type 0 where
  pub prepare : ℕ → Option ℕ
  pub claim : ℕ → Option (List BlobPurgeClaim)
  pub delete : Text → Bool
  pub release : BlobPurgeClaim → Bool
  pub complete : BlobPurgeClaim → Option Bool

-- `CollectGarbage::new`: whether the worker and the limit are taken.
unfoldable pub is_valid_collector : Text → ℕ → Bool
is_valid_collector worker limit =
    ltb 0 limit && (leb limit 1_000 && (not (is_empty worker) && leb (byte_len worker) 128))

abbrev pub ask {ℓ} : {A : Type ℓ} → Call → Option A → Run A
ask made none = call made (err repository)
ask made (some answer) = call made (ok answer)

-- A claim whose blob is not deleted.
unfoldable pub release_claim : Ports → BlobPurgeClaim → Run ℕ
release_claim ports claimed =
    call (releases claimed) (if ports.release claimed then err storage else err repository)

-- The loop over the claims.
unfoldable pub purge_claims : Ports → List BlobPurgeClaim → ℕ → Run ℕ
purge_claims ports [] purged_blobs = (ok purged_blobs, [])
purge_claims ports (claimed ∷ rest) purged_blobs =
    let others = purge_claims ports rest (purged_blobs + 1) in
    after (deletes claimed.storage_key ∷ []) (
      if not (ports.delete claimed.storage_key)
      then release_claim ports claimed
      else (ask (completes claimed) (ports.complete claimed) >>= λ changed.
          if changed then others else (err repository, [])))

unfoldable pub collect_garbage : Ports → ℕ → Run GarbageCollectionOutcome
collect_garbage ports limit = do
  purged_items ← ask (prepares limit) (ports.prepare limit)
  claimed ← ask (claims limit) (ports.claim limit)
  purged_blobs ← purge_claims ports claimed 0
  (ok (record { purged_items = purged_items; purged_blobs = purged_blobs }), [])
