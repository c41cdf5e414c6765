-- ===== src/Maintenance/Garbage/Laws.antt =====
-- When a batch is collected, and what it has called then.
use mathlib.Core.List.{append-nil}
use native.Mathlib.Nat.{zero-add}
use folioharbor.Prelude.{
  All, Bool-cases, List, Option-cases, [], ap, ap₂, arith, false, inl, inr, length, refl, some, suc,
  true, ℕ, ◌+◌, ◌↔◌, ◌∙◌, ◌∷◌, ◌≡◌,
}
use folioharbor.Prelude.Result.{ok}
use folioharbor.Maintenance.Calls.{>>=-traced-ok}
use folioharbor.Maintenance.Garbage.{
  BlobPurgeClaim, Call, GarbageCollectionOutcome, Ports, claims, collect_garbage, completes,
  deletes, prepares, purge_claims, release_claim,
}

module _ (ports : Ports) where
  -- The blob of a claim is deleted, and the repository then completes the claim.
  pub record IsPurged (claimed : BlobPurgeClaim) : Type 0 where
    pub removed : ports.delete claimed.storage_key ≡ true
    pub completed : ports.complete claimed ≡ some true

  -- The calls that purge some claims.
  abbrev pub purges : List BlobPurgeClaim → List Call
  purges [] = []
  purges (claimed ∷ rest) = deletes claimed.storage_key ∷ completes claimed ∷ purges rest

  purge_claims-ok :
      (claimed : List BlobPurgeClaim) (before : ℕ) {n : ℕ}
      → (purge_claims ports claimed before).0 ≡ ok n
      → All IsPurged claimed
        × (n ≡ before + length claimed)
        × ((purge_claims ports claimed before).1 ≡ purges claimed)
  unfolding purge_claims release_claim
  purge_claims-ok [] before {n} e = (tt, ground arith, refl)
  purge_claims-ok (claimed ∷ rest) before {n} e =
      elim (Bool-cases (ports.delete claimed.storage_key)) [
        | inr kept ↦ absurd (ground arith)
        | inl removed ↦ elim (Option-cases (ports.complete claimed)) [
          | inl failed ↦ absurd (ground arith)
          | inr (false, lost) ↦ absurd (ground arith)
          | inr (true, completed) ↦
              let e' = rw (removed, completed) at e in
              let (h, counted, called) = purge_claims-ok rest (before + 1) e' in
              (
                (record { removed = removed; completed = completed }, h),
                omega arith,
                rw (removed, completed, called) refl,
              )
        ]
      ]

  purge_claims-done :
      (claimed : List BlobPurgeClaim) (before : ℕ)
      → All IsPurged claimed
      → (purge_claims ports claimed before).0 ≡ ok (before + length claimed)
  unfolding purge_claims
  purge_claims-done [] before h = ground arith
  purge_claims-done (claimed ∷ rest) before (p, h) =
      let done = purge_claims-done rest (before + 1) h in
      let sum : before + 1 + length rest ≡ before + suc (length rest) = omega arith in
      rw (p.removed, p.completed) (done ∙ ap ok sum)

  purge_claims-run :
      (claimed : List BlobPurgeClaim) (before : ℕ)
      → All IsPurged claimed
      → purge_claims ports claimed before ≡ (ok (before + length claimed), purges claimed)
  purge_claims-run claimed before h =
      let done = purge_claims-done claimed before h in
      let (_, _, called) = purge_claims-ok claimed before done in
      ap₂ (λ result calls. (result, calls)) done called

  collect_garbage-ok :
      (limit : ℕ) (outcome : GarbageCollectionOutcome) (calls : List Call)
      → collect_garbage ports limit ≡ (ok outcome, calls)
      → (items : ℕ) × (claimed : List BlobPurgeClaim) × (ports.prepare limit ≡ some items)
        × (ports.claim limit ≡ some claimed)
        × All IsPurged claimed
        × (outcome ≡ record { purged_items = items; purged_blobs = length claimed })
        × (calls ≡ prepares limit ∷ claims limit ∷ purges claimed)
  unfolding collect_garbage
  collect_garbage-ok limit outcome calls e = elim (Option-cases (ports.prepare limit)) [
    | inl failed ↦ absurd (ground arith)
    | inr (items, prepared) ↦ elim (Option-cases (ports.claim limit)) [
      | inl failed ↦ absurd (ground arith)
      | inr (claimed, found) ↦
          let done = rw (prepared, found) at e in
          let (n, p, _, _) = >>=-traced-ok (purge_claims ports claimed 0) _ (ap (λ r. r.0) done) in
          let (h, counted, called) = purge_claims-ok claimed 0 p in
          let done' = rw (purge_claims-run claimed 0 h, append-nil) at done in
          (items, claimed, prepared, found, h, ground arith, ground arith)
    ]
  ]

  -- A batch is collected exactly when the repository prepares it and claims its blobs, and each of
  -- them is deleted and then completed; it then counts those blobs, and has called the ports for the
  -- deletion and the completion of each, in the order of the claims, and for nothing else.
  pub collect_garbage_iff :
      (limit : ℕ) (outcome : GarbageCollectionOutcome) (calls : List Call)
      → (collect_garbage ports limit ≡ (ok outcome, calls))
        ↔ (items : ℕ) × (claimed : List BlobPurgeClaim) × (ports.prepare limit ≡ some items)
          × (ports.claim limit ≡ some claimed)
          × All IsPurged claimed
          × (outcome ≡ record { purged_items = items; purged_blobs = length claimed })
          × (calls ≡ prepares limit ∷ claims limit ∷ purges claimed)
  unfolding collect_garbage
  collect_garbage_iff limit outcome calls = (
    collect_garbage-ok limit outcome calls,
    λ (items, claimed, prepared, found, h, counted, called).
        rw (counted, called, prepared, found, purge_claims-run claimed 0 h, zero-add, append-nil)
          refl,
  )
