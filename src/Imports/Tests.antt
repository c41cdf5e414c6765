-- ===== src/Imports/Tests.antt =====
-- Runs of an import and of the worker, and instances of their theorems.
use folioharbor.Prelude.{
  All, Bool, List, [], false, if◌then◌else◌, is_empty, refl, some, true, ℕ, ◌+◌, ◌==◌, ◌↔◌, ◌∷◌,
  ◌≡◌, ◌≤◌,
}
use folioharbor.Prelude.Result.{Result, ok, err}
use folioharbor.Text.Chars.{codes}
use folioharbor.Text.Utf8.{byte_len}
use folioharbor.App.{conflict}
use folioharbor.Domain.Codes.{import_epub}
use folioharbor.Domain.Upload.{UploadState}
use folioharbor.Imports.Retry.{
  JobFailure, LeasedJob, default_schedule, delay, import_epub_v1, next, operator_required,
  permanent, succeeded,
}
use folioharbor.Imports.Process.{
  Ports, after_begin, after_parse, after_reconcile, begins_catalog, catalog_failure, execute,
  finalize_catalog, finalizes, finish_import, is_import_job, parses, reconciles, record_and_fail,
  records_failure, work,
}
use folioharbor.Imports.Process.Laws.{IsRecorded, execute-IsRecorded, execute_succeeds_iff}
use folioharbor.Imports.Worker.{
  Queue, Report, end_round, first_error, job_repository_error, report_of, run_leased, run_once,
  sleep_millis,
}
use folioharbor.Imports.Worker.Laws.{IsReport, run_leased_iff}

next_runs :
    (next default_schedule 5_000 128 3 ≡ 5_000 + 8_500) × (next default_schedule 0 255 40 ≡ 256_996)
unfolding next delay
next_runs = (refl, refl)

abbrev import_job : LeasedJob
import_job = record {
  job_id_last_byte = 9;
  library_id = some 1;
  kind = import_epub;
  input = import_epub_v1 (codes "u");
  attempt = 2;
}

abbrev conflicting : Ports
conflicting = record {
  is_uuid = λ text. true;
  reconcile = ok work;
  parse = ok tt;
  begin_catalog = ok tt;
  profile_version = codes "p1";
  finalize = err (conflict (codes "c"));
  record_failure = λ state code. ok tt;
}

import_runs : execute conflicting default_schedule import_job 0 ≡ (
  err (permanent (codes "catalog_import_invalid") (codes "catalog import is not valid")),
  reconciles
      ∷ parses
      ∷ begins_catalog
      ∷ finalizes
      ∷ records_failure UploadState.failed (codes "catalog_import_invalid")
      ∷ [],
)
unfolding execute after_reconcile after_parse after_begin finish_import finalize_catalog
    catalog_failure record_and_fail byte_len
import_runs = refl

execute-IsRecorded_example :
    All
      (IsRecorded conflicting default_schedule import_job 0
        (execute conflicting default_schedule import_job 0).0)
      (execute conflicting default_schedule import_job 0).1
execute-IsRecorded_example = execute-IsRecorded conflicting default_schedule import_job 0

execute_succeeds_iff_example :
    ((execute conflicting default_schedule import_job 0).0 ≡ ok succeeded) ↔ (
      (is_import_job conflicting import_job ≡ true)
      × (conflicting.reconcile ≡ ok work)
      × (conflicting.parse ≡ ok tt)
      × (conflicting.begin_catalog ≡ ok tt)
      × (is_empty conflicting.profile_version ≡ false)
      × (byte_len conflicting.profile_version ≤ 128)
      × (conflicting.finalize ≡ ok tt)
      × ((execute conflicting default_schedule import_job 0).1
          ≡ reconciles ∷ parses ∷ begins_catalog ∷ finalizes ∷ []))
execute_succeeds_iff_example = execute_succeeds_iff conflicting default_schedule import_job 0

abbrev taken : Report → Queue Bool
taken report = ok true

abbrev alive : List (Queue Bool)
alive = ok true ∷ ok true ∷ []

abbrev broken : Result (Unit {0}) JobFailure
broken = err (operator_required (codes "c") (codes "s"))

run_leased_iff_example :
    (((run_leased import_epub alive broken taken).0 ≡ ok tt)
      ↔ (called_for : Report) × All (λ beat. beat ≡ ok true) alive
        × IsReport import_epub broken called_for
        × (taken called_for ≡ ok true))
    × (((run_leased import_epub alive broken taken).1 ≡ report_of import_epub broken ∷ []) ↔ (
        All (λ beat. beat ≡ ok true) alive
        × IsReport import_epub broken (report_of import_epub broken)))
    × (((run_leased import_epub alive broken taken).1 ≡ [])
        ↔ (¬ All (λ beat. beat ≡ ok true) alive))
run_leased_iff_example =
    run_leased_iff import_epub alive broken taken (report_of import_epub broken)

abbrev ends_well : ℕ → Queue (Unit {0})
ends_well job = if job == 3 then err job_repository_error else ok tt

abbrev two_jobs : List ℕ
two_jobs = 1 ∷ 3 ∷ []

abbrev no_jobs : List ℕ
no_jobs = []

no_jobs_sleep : (run_once (ok tt) (ok no_jobs) ends_well 9).slept ≡ some 6_400
unfolding run_once end_round first_error sleep_millis
no_jobs_sleep = refl
