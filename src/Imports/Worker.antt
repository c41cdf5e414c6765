-- ===== src/Imports/Worker.antt =====
-- The worker's runner: `run_leased`, `run_once` and `RunnerConfig::new` of
-- apps/worker/src/runner.rs. The answers of the job repository and of the dispatcher are
-- parameters; spans and metrics are left out. A task that panics has an error as its result.
pub mod Laws
use folioharbor.Prelude.{
  Bool, List, Option, [], false, if◌then◌else◌, is_empty, leb, length, map, none, some, true, ℕ,
  ◌%◌, ◌*◌, ◌+◌, ◌==◌, ◌^◌, ◌∷◌,
}
use folioharbor.Prelude.Result.{Result, ok, err, ◌>>=◌}
use folioharbor.Text.Chars.{Text, codes}
use folioharbor.Domain.Codes.{JobKind, import_epub}
use folioharbor.Imports.Retry.{JobFailure, permanent, transient, operator_required}

pub data JobRepositoryError : Type 0 where
  job_repository_error : JobRepositoryError

abbrev pub Queue {ℓ} : Type ℓ → Type ℓ
Queue A = Result A JobRepositoryError

-- `RunnerConfig::new`
unfoldable pub new_config : ℕ → Option ℕ
new_config concurrency = if concurrency == 0 then none else some concurrency

-- The calls of the repository that end a lease.
pub data Report : Type 0 where
  succeeds : Report
  retries : Text → ℕ → Report
  fails pauses_import requires_operator : Text → Text → Report

abbrev pub operator_report : JobKind → Text → Text → Report
operator_report import_epub code summary = pauses_import code summary
operator_report _ code summary = requires_operator code summary

unfoldable pub report_of : JobKind → Result (Unit {0}) JobFailure → Report
report_of kind (ok _) = succeeds
report_of kind (err (transient code retry_at)) = retries code retry_at
report_of kind (err (permanent code summary)) = fails code summary
report_of kind (err (operator_required code summary)) = operator_report kind code summary

-- The loop of the heartbeats while the job runs, by their answers.
unfoldable pub keep_lease : List (Queue Bool) → Queue (Unit {0})
keep_lease [] = ok tt
keep_lease (err error ∷ beats) = err error
keep_lease (ok false ∷ beats) = err job_repository_error
keep_lease (ok true ∷ beats) = keep_lease beats

abbrev pub changed : Queue Bool → Queue (Unit {0})
changed (err error) = err error
changed (ok false) = err job_repository_error
changed (ok true) = ok tt

-- The end of a lease that was kept, with the call made.
abbrev pub end_lease :
    JobKind
    → Result (Unit {0}) JobFailure
    → (Report → Queue Bool)
    → Queue (Unit {0})
    → Queue (Unit {0}) × List Report
end_lease kind result change (err error) = (err error, [])
end_lease kind result change (ok _) =
    (changed (change (report_of kind result)), report_of kind result ∷ [])

unfoldable pub run_leased :
    JobKind
    → List (Queue Bool)
    → Result (Unit {0}) JobFailure
    → (Report → Queue Bool)
    → Queue (Unit {0}) × List Report
run_leased kind beats result change = end_lease kind result change (keep_lease beats)

-- The first error of the tasks; all of them are awaited.
unfoldable pub first_error : List (Queue (Unit {0})) → Option JobRepositoryError
first_error [] = none
first_error (ok _ ∷ results) = first_error results
first_error (err error ∷ results) = some error

abbrev pub u32_range : ℕ
u32_range = 2 ^ 32

-- The milliseconds of a sleep after `polls` polls without a job: `100 << polls.min(6)`.
unfoldable pub sleep_millis : ℕ → ℕ
sleep_millis polls = 100 * 2 ^ (if leb polls 6 then polls else 6)

-- What a round leaves: its result, the count of empty polls, and its sleep.
pub record Round : Type 0 where
  pub result : Queue ℕ
  pub empty_polls : ℕ
  pub slept : Option ℕ

-- The end of a round whose tasks have these results.
unfoldable pub end_round : ℕ → List (Queue (Unit {0})) → Round
end_round polls results = elim (first_error results) [
  | some error ↦ record { result = err error; empty_polls = polls; slept = none }
  | none ↦
      if is_empty results
      then record {
        result = ok 0;
        empty_polls = (polls + 1) % u32_range;
        slept = some (sleep_millis polls);
      }
      else record { result = ok (length results); empty_polls = 0; slept = none }
]

-- A round: the backlog, the lease of jobs, and a task for each of them.
unfoldable pub run_once {ℓ} :
    {Job : Type ℓ} → Queue (Unit {0}) → Queue (List Job) → (Job → Queue (Unit {0})) → ℕ → Round
run_once (err error) leased run polls = record {
  result = err error;
  empty_polls = polls;
  slept = none;
}
run_once (ok _) (err error) run polls = record {
  result = err error;
  empty_polls = polls;
  slept = none;
}
run_once (ok _) (ok jobs) run polls = end_round polls (map run jobs)
