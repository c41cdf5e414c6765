-- ===== src/Imports/Process.antt =====
-- The import of an uploaded publication: `ProcessImportJob` of
-- crates/application/src/imports/process_import.rs, with `ImportPublicationCatalog::execute` of
-- crates/application/src/catalog/import_publication.rs and the errors of its ports. The answers of
-- the ports are a record of parameters, and a run gives its result with the calls it has made. What
-- one port gives and the next one takes (the work, the publication) is left out.
pub mod Laws
use folioharbor.Prelude.{
  Bool, List, [], false, if◌then◌else◌, is_empty, is_some, ltb, true, ℕ, ◌&&◌, ◌++◌, ◌||◌, ◌∷◌,
}
use folioharbor.Prelude.Result.{Result, ok, err}
use folioharbor.Text.Chars.{Text, codes, text_eq}
use folioharbor.Text.Utf8.{byte_len}
use folioharbor.App.{App, AppError, conflict, invalid}
use folioharbor.Domain.Codes.{JobKind, import_epub}
use folioharbor.Domain.Upload.{UploadState}
use folioharbor.Imports.Retry.{
  JobFailure, JobOutcome, LeasedJob, RetrySchedule, already_complete, cleanup_v1, import_epub_v1,
  operator_required, permanent, succeeded, transient_failure,
}

pub data ImportRepositoryError : Type 0 where
  invalid_state unavailable schema : ImportRepositoryError

pub data PublicationParserError : Type 0 where
  encrypted_content invalid_navigation malformed : PublicationParserError
  parser_unavailable configuration capacity : PublicationParserError

-- `ImportReconciliation`; the record of the work is handed on to the ports and not read.
pub data ImportReconciliation : Type 0 where
  work complete : ImportReconciliation
  needs_operator terminal_failure : Text → ImportReconciliation

-- What the ports answer: the parsing of an identifier, the repository, the parser with its profile,
-- and the catalog.
pub record Ports : Type 0 where
  pub is_uuid : Text → Bool
  pub reconcile : Result ImportReconciliation ImportRepositoryError
  pub parse : Result (Unit {0}) PublicationParserError
  pub begin_catalog : Result (Unit {0}) ImportRepositoryError
  pub profile_version : Text
  pub finalize : App (Unit {0})
  pub record_failure : UploadState → Text → Result (Unit {0}) ImportRepositoryError

pub data Call : Type 0 where
  reconciles parses begins_catalog finalizes : Call
  records_failure : UploadState → Text → Call

abbrev pub Run : Type 0
Run = Result JobOutcome JobFailure × List Call

-- A call before a run.
abbrev pub after_call : Call → Run → Run
after_call call (result, calls) = (result, call ∷ calls)

abbrev pub invalid_job_input : JobFailure
invalid_job_input = permanent (codes "invalid_job_input") (codes "job payload failed validation")

unfoldable pub repository_failure :
    RetrySchedule → LeasedJob → ℕ → ImportRepositoryError → JobFailure
repository_failure retries job now invalid_state =
    permanent (codes "import_state_invalid") (codes "upload is not importable")
repository_failure retries job now unavailable =
    transient_failure retries job now (codes "database_unavailable")
repository_failure retries job now schema =
    operator_required (codes "schema_incompatible")
      (codes "database schema requires operator action")

-- The failure that a stored code stands for.
unfoldable pub reconciled_failure : Text → JobFailure
reconciled_failure code =
    let operator = codes "persisted import requires operator action" in
    if text_eq code (codes "parser_configuration_invalid")
    then operator_required (codes "parser_configuration_invalid") operator
    else if text_eq code (codes "storage_capacity_exhausted")
    then operator_required (codes "storage_capacity_exhausted") operator
    else if text_eq code (codes "schema_incompatible")
    then operator_required (codes "schema_incompatible") operator
    else if text_eq code (codes "encrypted_epub_unsupported")
    then permanent (codes "encrypted_epub_unsupported")
        (codes "encrypted EPUB files are not supported")
    else if text_eq code (codes "invalid_epub_navigation")
    then permanent (codes "invalid_epub_navigation") (codes "publication navigation is invalid")
    else if text_eq code (codes "invalid_epub")
    then permanent (codes "invalid_epub") (codes "persisted import failure: " ++ code)
    else if text_eq code (codes "catalog_import_invalid")
    then permanent (codes "catalog_import_invalid") (codes "persisted import failure: " ++ code)
    else permanent (codes "import_failed") (codes "persisted import failure: " ++ code)

-- A failure that is recorded with the upload first: its state, its code, and what it is then.
unfoldable pub record_and_fail :
    Ports → RetrySchedule → LeasedJob → ℕ → UploadState → Text → JobFailure → Run
record_and_fail ports retries job now state code failure = elim (ports.record_failure state code) [
  | ok _ ↦ (err failure, records_failure state code ∷ [])
  | err error ↦ (err (repository_failure retries job now error), records_failure state code ∷ [])
]

unfoldable pub parser_failure : Ports → RetrySchedule → LeasedJob → ℕ → PublicationParserError → Run
parser_failure ports retries job now encrypted_content =
    record_and_fail ports retries job now UploadState.failed (codes "encrypted_epub_unsupported") (
      permanent (codes "encrypted_epub_unsupported")
        (codes "encrypted EPUB files are not supported"))
parser_failure ports retries job now invalid_navigation =
    record_and_fail ports retries job now UploadState.failed (codes "invalid_epub_navigation")
      (permanent (codes "invalid_epub_navigation") (codes "publication navigation is invalid"))
parser_failure ports retries job now malformed =
    record_and_fail ports retries job now UploadState.failed (codes "invalid_epub")
      (permanent (codes "invalid_epub") (codes "publication is malformed"))
parser_failure ports retries job now parser_unavailable =
    record_and_fail ports retries job now UploadState.retry_wait (codes "blob_io_unavailable")
      (transient_failure retries job now (codes "blob_io_unavailable"))
parser_failure ports retries job now configuration = (
  err (
      operator_required (codes "parser_configuration_invalid")
        (codes "parser configuration requires operator action")),
  [],
)
parser_failure ports retries job now capacity = (
  err (
      operator_required (codes "storage_capacity_exhausted")
        (codes "storage requires operator action")),
  [],
)

-- `ImportPublicationCatalog::execute`, with the calls made.
unfoldable pub finalize_catalog : Ports → App (Unit {0}) × List Call
finalize_catalog ports =
    if is_empty ports.profile_version || ltb 128 (byte_len ports.profile_version)
    then (err (invalid (codes "invalid_parser_profile")), [])
    else (ports.finalize, finalizes ∷ [])

abbrev pub is_invalid : AppError → Bool
is_invalid (conflict code) = true
is_invalid (invalid code) = true
is_invalid _ = false

unfoldable pub catalog_failure : Ports → RetrySchedule → LeasedJob → ℕ → AppError → Run
catalog_failure ports retries job now error =
    if is_invalid error
    then record_and_fail ports retries job now UploadState.failed (codes "catalog_import_invalid")
        (permanent (codes "catalog_import_invalid") (codes "catalog import is not valid"))
    else record_and_fail ports retries job now UploadState.retry_wait (codes "catalog_unavailable")
        (transient_failure retries job now (codes "catalog_unavailable"))

-- What follows the calls of the catalog.
unfoldable pub finish_import :
    Ports → RetrySchedule → LeasedJob → ℕ → App (Unit {0}) × List Call → Run
finish_import ports retries job now (ok _, calls) = (ok succeeded, calls)
finish_import ports retries job now (err error, calls) =
    let (result, recorded) = catalog_failure ports retries job now error in
    (result, calls ++ recorded)

-- The answer of `begin_catalog`.
unfoldable pub after_begin :
    Ports → RetrySchedule → LeasedJob → ℕ → Result (Unit {0}) ImportRepositoryError → Run
after_begin ports retries job now (err error) = (err (repository_failure retries job now error), [])
after_begin ports retries job now (ok _) =
    finish_import ports retries job now (finalize_catalog ports)

-- The answer of the parser.
unfoldable pub after_parse :
    Ports → RetrySchedule → LeasedJob → ℕ → Result (Unit {0}) PublicationParserError → Run
after_parse ports retries job now (err error) = parser_failure ports retries job now error
after_parse ports retries job now (ok _) =
    after_call begins_catalog (after_begin ports retries job now ports.begin_catalog)

-- The answer of `reconcile`.
unfoldable pub after_reconcile :
    Ports → RetrySchedule → LeasedJob → ℕ → Result ImportReconciliation ImportRepositoryError → Run
after_reconcile ports retries job now (err error) =
    (err (repository_failure retries job now error), [])
after_reconcile ports retries job now (ok complete) = (ok already_complete, [])
after_reconcile ports retries job now (ok (needs_operator code)) =
    (err (reconciled_failure code), [])
after_reconcile ports retries job now (ok (terminal_failure code)) =
    (err (reconciled_failure code), [])
after_reconcile ports retries job now (ok work) =
    after_call parses (after_parse ports retries job now ports.parse)

-- The checks of the job: its kind, its input, its library and the identifier of its upload.
abbrev pub is_import_job : Ports → LeasedJob → Bool
is_import_job ports job = elim job.kind [
  | import_epub ↦ elim job.input [
    | import_epub_v1 upload_id ↦ is_some job.library_id && ports.is_uuid upload_id
    | cleanup_v1 ↦ false
  ]
  | _ ↦ false
]

unfoldable pub execute : Ports → RetrySchedule → LeasedJob → ℕ → Run
execute ports retries job now =
    if is_import_job ports job
    then after_call reconciles (after_reconcile ports retries job now ports.reconcile)
    else (err invalid_job_input, [])
