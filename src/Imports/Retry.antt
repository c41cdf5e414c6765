-- ===== src/Imports/Retry.antt =====
-- How a job fails and when it is tried again: `JobFailure`, `RetrySchedule` and the three
-- constructors of failures of crates/application/src/imports/process_import.rs, with `JobInput` and
-- `LeasedJob` of crates/domain/src/imports/job.rs. Instants and durations are milliseconds.
pub mod Laws
use folioharbor.Prelude.{Option, if◌then◌else◌, leb, ℕ, ◌*◌, ◌+◌, ◌/◌, ◌^◌}
use folioharbor.Text.Chars.{Text}
use folioharbor.Domain.Codes.{JobKind}

pub data JobOutcome : Type 0 where
  succeeded already_complete : JobOutcome

pub data JobFailure : Type 0 where
  permanent : Text → Text → JobFailure
  transient : Text → ℕ → JobFailure
  operator_required : Text → Text → JobFailure

pub data JobInput : Type 0 where
  import_epub_v1 : Text → JobInput
  cleanup_v1 : JobInput

-- Of the job's identifier, a UUID, only the last byte is read.
pub record LeasedJob : Type 0 where
  pub job_id_last_byte : ℕ
  pub library_id : Option ℕ
  pub kind : JobKind
  pub input : JobInput
  pub attempt : ℕ

pub record RetrySchedule : Type 0 where
  pub maximum : ℕ

abbrev pub default_schedule : RetrySchedule
default_schedule = record { maximum = 15 * 60 * 1000 }

abbrev pub min : ℕ → ℕ → ℕ
min m n = if leb m n then m else n

-- `i64::from(byte) * 1_000 / 256`
abbrev pub jitter_millis : ℕ → ℕ
jitter_millis byte = byte * 1000 / 256

unfoldable pub delay : ℕ → ℕ → ℕ
delay byte attempt = 2 ^ min attempt 8 * 1000 + jitter_millis byte

unfoldable pub next : RetrySchedule → ℕ → ℕ → ℕ → ℕ
next schedule now byte attempt = now + min (delay byte attempt) schedule.maximum

abbrev pub transient_failure : RetrySchedule → LeasedJob → ℕ → Text → JobFailure
transient_failure retries job now code =
    transient code (next retries now job.job_id_last_byte job.attempt)
