-- ===== src/App.antt =====
-- The errors of the application layer: `AppError` of crates/application/src/error.rs. A `code` is
-- the text that an error carries; the fields of a violation and the delay of a limit are left out.
use folioharbor.Prelude.Result.{Result}
use folioharbor.Text.Chars.{Text}

pub data AppError : Type 0 where
  unauthenticated payload_too_large rate_limited storage_exhausted internal : AppError
  forbidden not_found conflict bad_request invalid dependency_unavailable : Text → AppError

abbrev pub App {ℓ} : Type ℓ → Type ℓ
App A = Result A AppError
