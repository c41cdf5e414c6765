-- ===== src/Maintenance/Cleanup/Drained.antt =====
-- The calls of a cleanup between the beginning of a pass and its end, `run_kind` of
-- crates/application/src/imports/cleanup.rs.
use mathlib.Core.Option
use folioharbor.Prelude.{
  All, All-append, Bool, Bool-cases, List, Option, Option-cases, [], arith, false, if◌then◌else◌,
  inl, inr, length, ltb, none, not, refl, some, suc, true, zero, ℕ, ◌++◌, ◌+◌, ◌∷◌, ◌≡◌,
}
use folioharbor.Prelude.Result.{ok, err}
use folioharbor.Text.Chars.{Text}
use folioharbor.Domain.Codes.{JobKind}
use folioharbor.Maintenance.Calls.{after, call, ◌>>=◌}
use folioharbor.Maintenance.Cleanup.{
  Call, FailedPurgeClaim, Ports, Run, after_batch, ask, asks_pending, begins_pass, claims,
  cleanup_failed, completes, completes_pass, count_change, deletes, drain, expire_all, expires,
  purge_all, purge_batch, releases,
}

-- A call between the beginning of a pass and its end.
abbrev pub IsDrain : Call → Type 0
IsDrain (begins_pass _) = ⊥
IsDrain (completes_pass _) = ⊥
IsDrain (asks_pending _) = ⊥
IsDrain _ = Unit

module _ (ports : Ports) where
  expire_all-IsDrain :
      (limit fuel round expired : ℕ) {r : Run ℕ}
      → expire_all ports limit fuel round expired ≡ some r
      → All IsDrain r.1
  unfolding expire_all
  expire_all-IsDrain limit zero round expired e = cc
  expire_all-IsDrain limit (suc fuel) round expired {r} e =
      elim (Option-cases (ports.expire_abandoned round)) [
        | inl failed ↦
            let same : call (expires round) (err cleanup_failed) ≡ r = ground arith in
            rw (← same) (tt, tt)
        | inr (count, answered) ↦ elim (Bool-cases (ltb count limit)) [
          | inl short ↦
              let same : call (expires round) (ok (expired + count)) ≡ r = ground arith in
              rw (← same) (tt, tt)
          | inr long ↦
              elim (Option-cases (expire_all ports limit fuel (suc round) (expired + count))) [
                | inl endless ↦ absurd (ground arith)
                | inr (rest, ended) ↦
                    let same : after (expires round ∷ []) rest ≡ r = ground arith in
                    rw (← same)
                      (tt, expire_all-IsDrain limit fuel (suc round) (expired + count) ended)
              ]
        ]
      ]

  completed-IsDrain :
      (claimed : FailedPurgeClaim) (rest : Bool → Run ℕ)
      → ((changed : Bool) → All IsDrain (rest changed).1)
      → All IsDrain (ask (completes claimed) (ports.complete claimed) >>= rest).1
  completed-IsDrain claimed rest h = elim (Option-cases (ports.complete claimed)) [
    | inl failed ↦ rw failed (tt, tt)
    | inr (changed, answered) ↦ rw answered (tt, h changed)
  ]

  chosen-IsDrain :
      (has_file deleted : Bool) (key : Text) (completed released : Run ℕ)
      → All IsDrain completed.1
      → All IsDrain released.1
      → All IsDrain
          (if not has_file
            then completed
            else after (deletes key ∷ []) (if deleted then completed else released)).1
  chosen-IsDrain false deleted key completed released h k = h
  chosen-IsDrain true true key completed released h k = (tt, h)
  chosen-IsDrain true false key completed released h k = (tt, k)

  purge_batch-IsDrain :
      (claims' : List FailedPurgeClaim) (purged : ℕ)
      → All IsDrain (purge_batch ports claims' purged).1
  unfolding purge_batch
  purge_batch-IsDrain [] purged = tt
  purge_batch-IsDrain (claimed ∷ rest) purged =
      let completed =
        completed-IsDrain claimed (λ changed. purge_batch ports rest (count_change changed purged))
          (λ changed. purge_batch-IsDrain rest (count_change changed purged)) in
      chosen-IsDrain claimed.delete_file (ports.delete claimed.storage_key) claimed.storage_key _
        (call (releases claimed) (err cleanup_failed)) completed (tt, tt)

  after_batch-IsDrain :
      (batch : Run ℕ) (is_short : Bool) (more : ℕ → Option (Run ℕ)) {r : Run ℕ}
      → All IsDrain batch.1
      → ((n : ℕ) (rest : Run ℕ) → more n ≡ some rest → All IsDrain rest.1)
      → after_batch batch is_short more ≡ some r
      → All IsDrain r.1
  unfolding after_batch
  after_batch-IsDrain (err error, calls) is_short more {r} h k e =
      let same : (err error, calls) ≡ r = ground arith in rw (← same) h
  after_batch-IsDrain (ok purged, calls) true more {r} h k e =
      let same : (ok purged, calls) ≡ r = ground arith in rw (← same) h
  after_batch-IsDrain (ok purged, calls) false more {r} h k e = elim (Option-cases (more purged)) [
    | inl endless ↦ absurd (ground arith)
    | inr (rest, ended) ↦
        let same : after calls rest ≡ r = ground arith in
        rw (← same) (All-append IsDrain calls rest.1 h (k purged rest ended))
  ]

  purge_all-IsDrain :
      (limit fuel round purged : ℕ) {r : Run ℕ}
      → purge_all ports limit fuel round purged ≡ some r
      → All IsDrain r.1
  unfolding purge_all
  purge_all-IsDrain limit zero round purged e = cc
  purge_all-IsDrain limit (suc fuel) round purged {r} e =
      elim (Option-cases (ports.claim_failed_purges round)) [
        | inl failed ↦
            let same : call (claims round) (err cleanup_failed) ≡ r = ground arith in
            rw (← same) (tt, tt)
        | inr (claimed, answered) ↦
            after_batch-IsDrain (after (claims round ∷ []) (purge_batch ports claimed purged))
              (ltb (length claimed) limit) (λ n. purge_all ports limit fuel (suc round) n) {r = r}
              (tt, purge_batch-IsDrain claimed purged)
              (λ n rest ended. purge_all-IsDrain limit fuel (suc round) n {r = rest} ended)
              (rw (answered, purge_all) at e)
      ]

  mapped-IsDrain :
      (loop : Option (Run ℕ)) (counts : ℕ → ℕ × ℕ) {r : Run (ℕ × ℕ)}
      → ((rest : Run ℕ) → loop ≡ some rest → All IsDrain rest.1)
      → Option.map (λ (m : Run ℕ). m >>= λ n. (ok (counts n), [])) loop ≡ some r
      → All IsDrain r.1
  mapped-IsDrain none counts h e = cc
  mapped-IsDrain (some (err error, calls)) counts {r} h e =
      let same : (err error, calls) ≡ r = ground arith in rw (← same) (h _ refl)
  mapped-IsDrain (some (ok n, calls)) counts {r} h e =
      let same : (ok (counts n), calls ++ []) ≡ r = ground arith in
      rw (← same) (All-append IsDrain calls [] (h _ refl) tt)

  pub drain-IsDrain :
      (kind : JobKind) (limit fuel : ℕ) {r : Run (ℕ × ℕ)}
      → drain ports kind limit fuel ≡ some r
      → All IsDrain r.1
  unfolding drain
  drain-IsDrain JobKind.expire_uploads_and_reservations limit fuel {r} e =
      mapped-IsDrain (expire_all ports limit fuel 0 0) (λ n. (n, 0)) {r = r}
        (λ rest ended. expire_all-IsDrain limit fuel 0 0 {r = rest} ended) e
  drain-IsDrain JobKind.purge_failed_uploads limit fuel {r} e =
      mapped-IsDrain (purge_all ports limit fuel 0 0) (λ n. (0, n)) {r = r}
        (λ rest ended. purge_all-IsDrain limit fuel 0 0 {r = rest} ended) e
  drain-IsDrain JobKind.collect_blobs_later limit fuel {r} e =
      let same : (ok (0, 0), []) ≡ r = ground arith in rw (← same) tt
  drain-IsDrain JobKind.import_epub limit fuel {r} e =
      let same : (err cleanup_failed, []) ≡ r = ground arith in rw (← same) tt
