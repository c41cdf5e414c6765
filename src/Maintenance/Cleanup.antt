-- ===== src/Maintenance/Cleanup.antt =====
-- The cleanup of imports: `CleanupCursor` and `CleanupImports` of
-- crates/application/src/imports/cleanup.rs. The repository answers its calls one after the other;
-- the instants that are handed on to it are left out.
pub mod Drained
pub mod Laws
use mathlib.Core.Option
use folioharbor.Prelude.{
  Bool, List, Option, [], false, if◌then◌else◌, length, ltb, none, not, some, suc, true, zero, ℕ,
  ◌+◌, ◌==◌, ◌||◌, ◌∷◌,
}
use folioharbor.Prelude.Result.{Result, ok, err}
use folioharbor.Text.Chars.{Text}
use folioharbor.Domain.Codes.{JobKind}
use folioharbor.Maintenance.Calls.{Traced, after, call, ◌>>=◌}

pub record FailedPurgeClaim : Type 0 where
  pub upload_id : ℕ
  pub storage_key : Text
  pub delete_file : Bool

pub data ImportCleanupRepositoryError : Type 0 where
  cleanup_failed : ImportCleanupRepositoryError

pub record CleanupOutcome : Type 0 where
  pub expired : ℕ
  pub purged : ℕ
  pub stable : Bool

-- `CleanupCursor::new`: the limit, if it is allowed.
unfoldable pub cursor_limit : ℕ → Option ℕ
cursor_limit limit = if limit == 0 || ltb 1_000 limit then none else some limit

pub data Call : Type 0 where
  begins_pass completes_pass asks_pending : JobKind → Call
  expires claims : ℕ → Call
  deletes : Text → Call
  releases completes : FailedPurgeClaim → Call

abbrev pub Run {ℓ} : Type ℓ → Type ℓ
Run A = Traced Call ImportCleanupRepositoryError A

-- An answer of the repository is `none` where it fails. `expire_abandoned` and
-- `claim_failed_purges` are asked with the number of the round, and `begin_pass` gives the limit of
-- its cursor; `delete` and `release` say whether they succeed.
pub record Ports : Type 0 where
  pub begin_pass : JobKind → Option ℕ
  pub expire_abandoned : ℕ → Option ℕ
  pub claim_failed_purges : ℕ → Option (List FailedPurgeClaim)
  pub delete : Text → Bool
  pub release : FailedPurgeClaim → Bool
  pub complete : FailedPurgeClaim → Option Bool
  pub has_pending : JobKind → Option Bool
  pub complete_pass : JobKind → Option (Unit {0})

abbrev pub ask {ℓ} : {A : Type ℓ} → Call → Option A → Run A
ask made none = call made (err cleanup_failed)
ask made (some answer) = call made (ok answer)

abbrev pub count_change : Bool → ℕ → ℕ
count_change false purged = purged
count_change true purged = purged + 1

-- The loop of `run`: a claim whose file is not deleted stays leased.
unfoldable pub run_claims : Ports → List FailedPurgeClaim → ℕ → Run ℕ
run_claims ports [] purged = (ok purged, [])
run_claims ports (claimed ∷ rest) purged =
    let skipped = run_claims ports rest purged in
    let completed = ask (completes claimed) (ports.complete claimed) >>= λ changed.
    run_claims ports rest (count_change changed purged) in
    if not claimed.delete_file
    then completed
    else after (deletes claimed.storage_key ∷ [])
        (if ports.delete claimed.storage_key then completed else skipped)

-- `CleanupImports::run`
unfoldable pub run : Ports → Run CleanupOutcome
run ports = do
  expired ← ask (expires 0) (ports.expire_abandoned 0)
  claimed ← ask (claims 0) (ports.claim_failed_purges 0)
  purged ← run_claims ports claimed 0
  (ok (record { expired = expired; purged = purged; stable = true }), [])

-- The loop of `run_kind` over one batch: a claim whose file is not deleted ends the pass.
unfoldable pub purge_batch : Ports → List FailedPurgeClaim → ℕ → Run ℕ
purge_batch ports [] purged = (ok purged, [])
purge_batch ports (claimed ∷ rest) purged =
    let completed = ask (completes claimed) (ports.complete claimed) >>= λ changed.
    purge_batch ports rest (count_change changed purged) in
    let released = call {A = ℕ} (releases claimed) (err cleanup_failed) in
    if not claimed.delete_file
    then completed
    else after (deletes claimed.storage_key ∷ [])
        (if ports.delete claimed.storage_key then completed else released)

-- The loop that expires, on fuel: `none` where that runs out.
unfoldable pub expire_all : Ports → ℕ → ℕ → ℕ → ℕ → Option (Run ℕ)
expire_all ports limit zero round expired = none
expire_all ports limit (suc fuel) round expired = elim (ports.expire_abandoned round) [
  | none ↦ some (call (expires round) (err cleanup_failed))
  | some count ↦
      if ltb count limit
      then some (call (expires round) (ok (expired + count)))
      else Option.map (λ r. after (expires round ∷ []) r)
          (expire_all ports limit fuel (suc round) (expired + count))
]

-- The batch of a round and then the rest of the loop, if the batch is full.
unfoldable pub after_batch : Run ℕ → Bool → (ℕ → Option (Run ℕ)) → Option (Run ℕ)
after_batch (err error, calls) is_short more = some (err error, calls)
after_batch (ok purged, calls) true more = some (ok purged, calls)
after_batch (ok purged, calls) false more = Option.map (λ r. after calls r) (more purged)

-- The loop that purges, on fuel.
unfoldable pub purge_all : Ports → ℕ → ℕ → ℕ → ℕ → Option (Run ℕ)
purge_all ports limit zero round purged = none
purge_all ports limit (suc fuel) round purged = elim (ports.claim_failed_purges round) [
  | none ↦ some (call (claims round) (err cleanup_failed))
  | some claimed ↦
      after_batch (after (claims round ∷ []) (purge_batch ports claimed purged))
        (ltb (length claimed) limit) (λ n. purge_all ports limit fuel (suc round) n)
]

-- What a kind of job does under a cursor, with the numbers of what is expired and purged.
unfoldable pub drain : Ports → JobKind → ℕ → ℕ → Option (Run (ℕ × ℕ))
drain ports JobKind.expire_uploads_and_reservations limit fuel =
    Option.map (λ r. r >>= λ n. (ok (n, 0), [])) (expire_all ports limit fuel 0 0)
drain ports JobKind.purge_failed_uploads limit fuel =
    Option.map (λ r. r >>= λ n. (ok (0, n), [])) (purge_all ports limit fuel 0 0)
drain ports JobKind.collect_blobs_later limit fuel = some (ok (0, 0), [])
drain ports JobKind.import_epub limit fuel = some (err cleanup_failed, [])

-- The end of `run_kind`.
unfoldable pub close_pass : Ports → JobKind → ℕ × ℕ → Run CleanupOutcome
close_pass ports kind (expired, purged) =
    ask (asks_pending kind) (ports.has_pending kind) >>= λ pending.
    if pending
    then (err cleanup_failed, [])
    else (ask (completes_pass kind) (ports.complete_pass kind) >>= λ done.
        (ok (record { expired = expired; purged = purged; stable = true }), []))

-- `CleanupImports::run_kind`, on fuel for its loops.
unfoldable pub run_kind : Ports → JobKind → ℕ → Option (Run CleanupOutcome)
run_kind ports kind fuel = elim (ports.begin_pass kind) [
  | none ↦ some (call (begins_pass kind) (err cleanup_failed))
  | some limit ↦
      Option.map (λ r. after (begins_pass kind ∷ []) (r >>= λ counts. close_pass ports kind counts))
        (drain ports kind limit fuel)
]
