-- ===== src/Imports/Worker/Laws.antt =====
-- What the worker reports of a job, and what a round returns.
use folioharbor.Prelude.{
  All, Bool, List, [], ap, arith, false, if◌then◌else◌, is_empty, leb, length, map, none, pow_le,
  pow_pos, refl, some, suc, sym, true, ℕ, ◌↔◌, ◌∙◌, ◌∷◌, ◌≡◌, ◌≢◌, ◌≤◌,
}
use folioharbor.Prelude.Result.{Result, err, ok}
use folioharbor.Domain.Codes.{JobKind, import_epub}
use folioharbor.Text.Chars.{Text}
use folioharbor.Imports.Retry.{JobFailure, permanent, transient, operator_required}
use folioharbor.Imports.Worker.{
  Queue, Report, end_round, fails, first_error, keep_lease, operator_report, pauses_import,
  report_of, requires_operator, retries, run_leased, run_once, sleep_millis, succeeds,
}

keep_lease_iff :
    (beats : List (Queue Bool)) → (keep_lease beats ≡ ok tt) ↔ All (λ beat. beat ≡ ok true) beats
unfolding keep_lease
keep_lease_iff [] = ground arith
keep_lease_iff (err error ∷ beats) = (λ e. cc, λ h. cc)
keep_lease_iff (ok false ∷ beats) = (λ e. cc, λ h. cc)
keep_lease_iff (ok true ∷ beats) =
    (λ e. (refl, (keep_lease_iff beats).0 e), λ h. (keep_lease_iff beats).1 h.1)

-- The report that a job's result calls for: success, a retry at the instant of a transient failure, a
-- failure for good, and a wait for an operator, which pauses the upload of an import.
pub data IsReport : JobKind → Result (Unit {0}) JobFailure → Report → Type 0 where
  on_success : (kind : JobKind) → IsReport kind (ok tt) succeeds
  on_transient :
      (kind : JobKind) (code : Text) (retry_at : ℕ)
      → IsReport kind (err (transient code retry_at)) (retries code retry_at)
  on_permanent :
      (kind : JobKind) (code summary : Text)
      → IsReport kind (err (permanent code summary)) (fails code summary)
  on_paused :
      (code summary : Text)
      → IsReport import_epub (err (operator_required code summary)) (pauses_import code summary)
  on_operator :
      (kind : JobKind) (code summary : Text)
      → kind ≢ import_epub
      → IsReport kind (err (operator_required code summary)) (requires_operator code summary)

operator_report-IsReport :
    (kind : JobKind) (code summary : Text)
    → IsReport kind (err (operator_required code summary)) (operator_report kind code summary)
operator_report-IsReport import_epub code summary = on_paused code summary
operator_report-IsReport JobKind.expire_uploads_and_reservations code summary =
    on_operator _ code summary (λ e. cc)
operator_report-IsReport JobKind.purge_failed_uploads code summary =
    on_operator _ code summary (λ e. cc)
operator_report-IsReport JobKind.collect_blobs_later code summary =
    on_operator _ code summary (λ e. cc)

report_of-IsReport :
    (kind : JobKind) (result : Result (Unit {0}) JobFailure)
    → IsReport kind result (report_of kind result)
unfolding report_of
report_of-IsReport kind (ok _) = on_success kind
report_of-IsReport kind (err (transient code retry_at)) = on_transient kind code retry_at
report_of-IsReport kind (err (permanent code summary)) = on_permanent kind code summary
report_of-IsReport kind (err (operator_required code summary)) =
    operator_report-IsReport kind code summary

operator_report-other :
    (kind : JobKind) (code summary : Text)
    → kind ≢ import_epub
    → operator_report kind code summary ≡ requires_operator code summary
operator_report-other import_epub code summary other = absurd (other refl)
operator_report-other JobKind.expire_uploads_and_reservations code summary other = refl
operator_report-other JobKind.purge_failed_uploads code summary other = refl
operator_report-other JobKind.collect_blobs_later code summary other = refl

IsReport-report_of :
    {kind : JobKind} {result : Result (Unit {0}) JobFailure} {report : Report}
    → IsReport kind result report
    → report_of kind result ≡ report
unfolding report_of
IsReport-report_of (on_success kind) = refl
IsReport-report_of (on_transient kind code retry_at) = refl
IsReport-report_of (on_permanent kind code summary) = refl
IsReport-report_of (on_paused code summary) = refl
IsReport-report_of (on_operator kind code summary other) =
    operator_report-other kind code summary other

-- A lease ends well exactly when every heartbeat found it alive and the repository takes the report
-- that the job's result calls for. A report is made exactly when every heartbeat found the lease alive
-- and the job's result calls for it; if some heartbeat did not, none is made.
pub run_leased_iff :
    (kind : JobKind) (beats : List (Queue Bool)) (result : Result (Unit {0}) JobFailure)
    (change : Report → Queue Bool) (report : Report)
    → (((run_leased kind beats result change).0 ≡ ok tt)
        ↔ (called_for : Report) × All (λ beat. beat ≡ ok true) beats
          × IsReport kind result called_for
          × (change called_for ≡ ok true))
      × (((run_leased kind beats result change).1 ≡ report ∷ [])
          ↔ (All (λ beat. beat ≡ ok true) beats × IsReport kind result report))
      × (((run_leased kind beats result change).1 ≡ []) ↔ (¬ All (λ beat. beat ≡ ok true) beats))
unfolding run_leased
run_leased_iff kind beats result change report =
    let made = report_of-IsReport kind result in
    (
      (
        λ e. (
          report_of kind result,
          ground (arith, keep_lease_iff beats),
          made,
          ground (arith, keep_lease_iff beats),
        ),
        λ (called_for, kept, called, taken).
            let same = IsReport-report_of called in ground (arith, keep_lease_iff beats, same),
      ),
      (
        λ e.
            let same : report_of kind result ≡ report = ground (arith, keep_lease_iff beats) in
            (ground (arith, keep_lease_iff beats), rw same at made),
        λ (kept, called).
            let same = IsReport-report_of called in ground (arith, keep_lease_iff beats, same),
      ),
      ground (arith, keep_lease_iff beats),
    )

first_error_iff :
    (results : List (Queue (Unit {0})))
    → (first_error results ≡ none) ↔ All (λ r. r ≡ ok tt) results
unfolding first_error
first_error_iff [] = ground arith
first_error_iff (ok _ ∷ results) =
    (λ e. (refl, (first_error_iff results).0 e), λ h. (first_error_iff results).1 h.1)
first_error_iff (err error ∷ results) = (λ e. cc, λ h. cc)

length-map {ℓ κ} :
    {A : Type ℓ} {B : Type κ} (f : A → B) (xs : List A) → length (map f xs) ≡ length xs
length-map f [] = refl
length-map f (x ∷ xs) = ap suc (length-map f xs)

length_of_is_empty {ℓ} : {A : Type ℓ} (xs : List A) → is_empty xs ≡ true → length xs ≡ 0
length_of_is_empty [] e = refl
length_of_is_empty (x ∷ xs) e = absurd (ground arith)

end_round_iff :
    (polls : ℕ) (results : List (Queue (Unit {0}))) (count : ℕ)
    → ((end_round polls results).result ≡ ok count)
      ↔ ((count ≡ length results) × All (λ r. r ≡ ok tt) results)
unfolding end_round
end_round_iff polls results count =
    ground (arith, first_error_iff results, length_of_is_empty results)

sleep_range : (polls : ℕ) → (100 ≤ sleep_millis polls) × (sleep_millis polls ≤ 6400)
unfolding sleep_millis
sleep_range polls =
    let exponent = if leb polls 6 then polls else 6 in
    let small : exponent ≤ 6 = ground arith in
    let pos = pow_pos exponent in
    let most = pow_le exponent 6 small in (omega (arith, pos), omega (arith, most))

end_round_sleep :
    (polls : ℕ) (results : List (Queue (Unit {0}))) {millis : ℕ}
    → (end_round polls results).slept ≡ some millis
    → (length results ≡ 0) × (millis ≡ sleep_millis polls)
unfolding end_round
end_round_sleep polls results e = ground (arith, length_of_is_empty results)

-- A round with leased jobs returns a number exactly when every one of the jobs ends well, and the
-- number is theirs.
pub run_once_iff {ℓ} :
    {Job : Type ℓ} (jobs : List Job) (run : Job → Queue (Unit {0})) (polls count : ℕ)
    → ((run_once (ok tt) (ok jobs) run polls).result ≡ ok count)
      ↔ ((count ≡ length jobs) × All (λ r. r ≡ ok tt) (map run jobs))
unfolding run_once
run_once_iff jobs run polls count =
    rw (← length-map run jobs) (end_round_iff polls (map run jobs) count)

-- The worker sleeps only after a round that leased no jobs, and then for 100 to 6400 milliseconds.
pub run_once-sleep {ℓ} :
    {Job : Type ℓ} (jobs : List Job) (run : Job → Queue (Unit {0})) (polls : ℕ) {millis : ℕ}
    → (run_once (ok tt) (ok jobs) run polls).slept ≡ some millis
    → (length jobs ≡ 0) × (100 ≤ millis) × (millis ≤ 6400)
unfolding run_once
run_once-sleep jobs run polls e =
    let (none_leased, time) = end_round_sleep polls (map run jobs) e in
    let (least, most) = sleep_range polls in
    (sym (length-map run jobs) ∙ none_leased, rw time least, rw time most)
