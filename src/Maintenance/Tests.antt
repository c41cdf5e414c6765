-- ===== src/Maintenance/Tests.antt =====
-- Runs of the three services, and instances of the theorems.
use folioharbor.Prelude.{
  All, List, [], arith, false, if◌then◌else◌, length, none, refl, some, suc, true, zero, ℕ, ◌==◌,
  ◌↔◌, ◌∷◌, ◌≡◌, ◌≤◌,
}
use folioharbor.Prelude.Result.{ok}
use folioharbor.Text.Chars.{codes}
use folioharbor.Domain.Codes.{JobKind}
use folioharbor.Maintenance.Recovery as Recovery
use folioharbor.Maintenance.Recovery.Laws.{IsOrdered, reconcile-IsOrdered}
use folioharbor.Maintenance.Garbage as Garbage
use folioharbor.Maintenance.Garbage.Laws.{IsPurged, collect_garbage_iff, purges}
use folioharbor.Maintenance.Cleanup as Cleanup
use folioharbor.Maintenance.Cleanup.Laws.{count_of, expire_all-ends, expired_before}

abbrev upload : Recovery.UploadCleanup
upload = record { staging_key = codes "s"; final_key = some (codes "f"); final_owned = true }

-- One claim, and no more after it.
abbrev recovery : Recovery.Ports
recovery = record {
  expire_worker = ok tt;
  claim_cleanup = λ round. if round == 0 then ok (some upload) else ok none;
  delete = λ key. true;
  abandon = λ cleanup. ok tt;
  complete = λ cleanup. ok true;
}

recovers : (Recovery.reconcile recovery 5).0 ≡ ok 1
unfolding Recovery.reconcile Recovery.recover Recovery.clean_claim Recovery.clean_final
recovers = refl

reconcile-IsOrdered_example : IsOrdered recovery [] (Recovery.reconcile recovery 5).1
reconcile-IsOrdered_example = reconcile-IsOrdered recovery 5

abbrev blob : Garbage.BlobPurgeClaim
blob = record { blob_id = 1; storage_key = codes "b" }

abbrev garbage : Garbage.Ports
garbage = record {
  prepare = λ limit. some 2;
  claim = λ limit. some (blob ∷ []);
  delete = λ key. true;
  release = λ claimed. true;
  complete = λ claimed. some true;
}

abbrev collected : Garbage.GarbageCollectionOutcome
collected = record { purged_items = 2; purged_blobs = 1 }

abbrev made : List Garbage.Call
made = Garbage.Call.prepares 9 ∷ Garbage.Call.claims 9 ∷ purges garbage (blob ∷ [])

collects : Garbage.collect_garbage garbage 9 ≡ (ok collected, made)
unfolding Garbage.collect_garbage Garbage.purge_claims
collects = refl

collect_garbage_iff_example :
    (Garbage.collect_garbage garbage 9 ≡ (ok collected, made))
    ↔ (items : ℕ) × (claimed : List Garbage.BlobPurgeClaim) × (garbage.prepare 9 ≡ some items)
      × (garbage.claim 9 ≡ some claimed)
      × All (IsPurged garbage) claimed
      × (collected ≡ record { purged_items = items; purged_blobs = length claimed })
      × (made ≡ Garbage.Call.prepares 9 ∷ Garbage.Call.claims 9 ∷ purges garbage claimed)
collect_garbage_iff_example = collect_garbage_iff garbage 9 collected made

-- Two uploads are expired in the first round, and none later.
abbrev cleanup : Cleanup.Ports
cleanup = record {
  begin_pass = λ kind. some 2;
  expire_abandoned = λ round. if round == 0 then some 2 else some 0;
  claim_failed_purges = λ round. some [];
  delete = λ key. true;
  release = λ claimed. true;
  complete = λ claimed. some true;
  has_pending = λ kind. some false;
  complete_pass = λ kind. some tt;
}

few : (n : ℕ) → expired_before cleanup n ≤ 2
few zero = omega arith
few (suc zero) = omega arith
few (suc (suc n)) =
    let rest = few (suc n) in
    let none_later : count_of (cleanup.expire_abandoned (suc n)) ≡ 0 = ground arith in
    omega (arith, rest)

expire_all-ends_example : (r : Cleanup.Run ℕ) × (Cleanup.expire_all cleanup 2 3 0 0 ≡ some r)
expire_all-ends_example = expire_all-ends cleanup 2 2 (omega arith) few

abbrev passed : Cleanup.CleanupOutcome
passed = record { expired = 2; purged = 0; stable = true }

abbrev kind : JobKind
kind = JobKind.expire_uploads_and_reservations

abbrev pass_calls : List Cleanup.Call
pass_calls =
    Cleanup.Call.begins_pass kind
    ∷ Cleanup.Call.expires 0
    ∷ Cleanup.Call.expires 1
    ∷ Cleanup.Call.asks_pending kind
    ∷ Cleanup.Call.completes_pass kind
    ∷ []
