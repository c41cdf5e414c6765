-- ===== src/Imports/Process/Laws.antt =====
-- What an import reports, and what it has recorded by then.
use folioharbor.Prelude.{
  All, Bool-cases, [], arith, false, inl, inr, is_empty, ltb, refl, true, ℕ, ◌||◌, ◌↔◌, ◌∷◌, ◌≡◌,
  ◌≤◌, ◌⊎◌,
}
use folioharbor.Prelude.Result.{Result, Result-cases, err, ok}
use folioharbor.Text.Chars.{Text}
use folioharbor.Text.Utf8.{byte_len}
use folioharbor.App.{AppError}
use folioharbor.Domain.Upload.{UploadState, can_transition_to}
use folioharbor.Imports.Retry.{
  JobFailure, JobOutcome, LeasedJob, RetrySchedule, permanent, succeeded, transient_failure,
}
use folioharbor.Imports.Process.{
  Call, ImportReconciliation, ImportRepositoryError, Ports, PublicationParserError, Run,
  after_begin, after_parse, after_reconcile, begins_catalog, capacity, catalog_failure, complete,
  configuration, encrypted_content, execute, finalize_catalog, finalizes, finish_import,
  invalid_navigation, is_import_job, is_invalid, malformed, needs_operator, parser_failure,
  parser_unavailable, parses, reconciles, record_and_fail, records_failure, repository_failure,
  terminal_failure, work,
}

-- The result of the import is the failure that is recorded with the upload: a permanent one for the
-- state `failed`, one that is tried again, at the time of the schedule, for `retry_wait`.
abbrev pub IsFailureOf :
    RetrySchedule → LeasedJob → ℕ → UploadState → Text → Result JobOutcome JobFailure → Type 0
IsFailureOf retries job now state code result =
    ((state ≡ UploadState.failed) × ((summary : Text) × (result ≡ err (permanent code summary))))
    ⊎ ((state ≡ UploadState.retry_wait) × (result ≡ err (transient_failure retries job now code)))

-- A record of a failure is one that both states of an import in progress can go to, and either the
-- repository takes it and the result is that failure, or the result is the repository's failure.
abbrev pub IsRecorded :
    Ports → RetrySchedule → LeasedJob → ℕ → Result JobOutcome JobFailure → Call → Type 0
IsRecorded ports retries job now result (records_failure state code) =
    (can_transition_to UploadState.validating state ≡ true)
    × (can_transition_to UploadState.importing state ≡ true)
    × (((ports.record_failure state code ≡ ok tt) × IsFailureOf retries job now state code result)
        ⊎ ((error : ImportRepositoryError) × (ports.record_failure state code ≡ err error)
            × (result ≡ err (repository_failure retries job now error))))
IsRecorded ports retries job now result _ = Unit

module _ (ports : Ports) (retries : RetrySchedule) (job : LeasedJob) (now : ℕ) where
  abbrev IsRun : Run → Type 0
  IsRun (result, calls) = All (IsRecorded ports retries job now result) calls

  failed-IsRun :
      (code summary : Text)
      → IsRun
          (record_and_fail ports retries job now UploadState.failed code (permanent code summary))
  unfolding record_and_fail can_transition_to
  failed-IsRun code summary = elim (Result-cases (ports.record_failure UploadState.failed code)) [
    | inl (_, taken) ↦
        rw (taken, record_and_fail) ((refl, refl, inl (taken, inl (refl, (summary, refl)))), tt)
    | inr (error, refused) ↦
        rw (refused, record_and_fail) ((refl, refl, inr (error, refused, refl)), tt)
  ]

  waits-IsRun :
      (code : Text)
      → IsRun (
          record_and_fail ports retries job now UploadState.retry_wait code
            (transient_failure retries job now code))
  unfolding record_and_fail can_transition_to
  waits-IsRun code = elim (Result-cases (ports.record_failure UploadState.retry_wait code)) [
    | inl (_, taken) ↦ rw (taken, record_and_fail) ((refl, refl, inl (taken, inr (refl, refl))), tt)
    | inr (error, refused) ↦
        rw (refused, record_and_fail) ((refl, refl, inr (error, refused, refl)), tt)
  ]

  parser_failure-IsRun :
      (error : PublicationParserError) → IsRun (parser_failure ports retries job now error)
  unfolding parser_failure
  parser_failure-IsRun encrypted_content = failed-IsRun _ _
  parser_failure-IsRun invalid_navigation = failed-IsRun _ _
  parser_failure-IsRun malformed = failed-IsRun _ _
  parser_failure-IsRun parser_unavailable = waits-IsRun _
  parser_failure-IsRun configuration = tt
  parser_failure-IsRun capacity = tt

  catalog_failure-IsRun : (error : AppError) → IsRun (catalog_failure ports retries job now error)
  unfolding catalog_failure
  catalog_failure-IsRun error = elim (Bool-cases (is_invalid error)) [
    | inl bad ↦ rw (bad, catalog_failure) (failed-IsRun _ _)
    | inr other ↦ rw (other, catalog_failure) (waits-IsRun _)
  ]

  finish_import-IsRun : IsRun (finish_import ports retries job now (finalize_catalog ports))
  unfolding finish_import finalize_catalog
  finish_import-IsRun =
      elim (Bool-cases
        (is_empty ports.profile_version || ltb 128 (byte_len ports.profile_version))) [
          | inl bad ↦ rw (bad, finish_import, finalize_catalog) (catalog_failure-IsRun _)
          | inr good ↦ elim (Result-cases ports.finalize) [
            | inl (_, done) ↦ rw (good, done, finish_import, finalize_catalog) (tt, tt)
            | inr (error, failed) ↦
                rw (good, failed, finish_import, finalize_catalog) (tt, catalog_failure-IsRun error)
          ]
        ]

  after_begin-IsRun :
      (answer : Result (Unit {0}) ImportRepositoryError)
      → IsRun (after_begin ports retries job now answer)
  unfolding after_begin
  after_begin-IsRun (err error) = tt
  after_begin-IsRun (ok _) = finish_import-IsRun

  after_parse-IsRun :
      (answer : Result (Unit {0}) PublicationParserError)
      → IsRun (after_parse ports retries job now answer)
  unfolding after_parse
  after_parse-IsRun (err error) = parser_failure-IsRun error
  after_parse-IsRun (ok _) = (tt, after_begin-IsRun ports.begin_catalog)

  after_reconcile-IsRun :
      (answer : Result ImportReconciliation ImportRepositoryError)
      → IsRun (after_reconcile ports retries job now answer)
  unfolding after_reconcile
  after_reconcile-IsRun (err error) = tt
  after_reconcile-IsRun (ok work) = (tt, after_parse-IsRun ports.parse)
  after_reconcile-IsRun (ok complete) = tt
  after_reconcile-IsRun (ok (needs_operator code)) = tt
  after_reconcile-IsRun (ok (terminal_failure code)) = tt

  -- Every failure that an import records with its upload is recorded as a state that both stages
  -- of an import can go to. If the repository takes the record, the job reports that failure: a
  -- permanent one with the same code for `failed`, a later attempt, as the schedule has it, for
  -- `retry_wait`; if it does not, the job reports the failure of the repository.
  pub execute-IsRecorded :
      All
        (IsRecorded ports retries job now (execute ports retries job now).0)
        (execute ports retries job now).1
  unfolding execute
  execute-IsRecorded = elim (Bool-cases (is_import_job ports job)) [
    | inl good ↦ rw (good, execute) (tt, after_reconcile-IsRun ports.reconcile)
    | inr bad ↦ rw (bad, execute) tt
  ]

  -- An import succeeds exactly when its job is one of an import, there is work to do, the parser
  -- accepts the publication, the catalog can begin, the profile has 1 to 128 bytes and the catalog
  -- takes the publication; its calls are then made once each, in this order.
  pub execute_succeeds_iff : ((execute ports retries job now).0 ≡ ok succeeded) ↔ (
      (is_import_job ports job ≡ true)
      × (ports.reconcile ≡ ok work)
      × (ports.parse ≡ ok tt)
      × (ports.begin_catalog ≡ ok tt)
      × (is_empty ports.profile_version ≡ false)
      × (byte_len ports.profile_version ≤ 128)
      × (ports.finalize ≡ ok tt)
      × ((execute ports retries job now).1 ≡ reconciles ∷ parses ∷ begins_catalog ∷ finalizes ∷ []))
  unfolding execute after_reconcile after_parse after_begin finish_import finalize_catalog
      parser_failure catalog_failure record_and_fail
  execute_succeeds_iff = ground arith
