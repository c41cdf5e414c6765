-- ===== src/Identity/Login.antt =====
-- The login with a password: `Login::execute` of crates/application/src/identity/login.rs. What the
-- repositories and the password hasher answer is a record of parameters; the tokens are left out.
use folioharbor.Prelude.{Bool, Option, [], false, none, some, true, ℕ, ◌*◌, ◌+◌, ◌∷◌}
use folioharbor.Prelude.Result.{err, ok}
use folioharbor.Text.Chars.{Text, codes}
use folioharbor.App.{App, AppError, dependency_unavailable, forbidden, internal, unauthenticated}
use folioharbor.Domain.Email as Email
use folioharbor.Uploads.Log.{Logged, call, ◌>>◌}

pub data AccountStatus : Type 0 where
  pending_verification verified disabled : AccountStatus

pub record LoginIdentity : Type 0 where
  pub user_id : ℕ
  pub status : AccountStatus

pub record NewSession : Type 0 where
  pub session_id : ℕ
  pub user_id : ℕ
  pub created_at : ℕ
  pub idle_expires_at : ℕ
  pub absolute_expires_at : ℕ

pub record IssuedSession : Type 0 where
  pub user_id : ℕ
  pub session_id : ℕ

pub data Call : Type 0 where
  finds : Text → Call
  verifies_dummy : Call
  verifies provisions : ℕ → Call
  creates_session : NewSession → Call

-- `find` is `none` where the repository fails, and `some none` where it knows no account. `verify`
-- is for the password of the request and the hash of an account. `provision` is `none` where no
-- library is to be provisioned. The clock shows the same instant throughout.
pub record Ports : Type 0 where
  pub find : Text → Option (Option LoginIdentity)
  pub verify : ℕ → Bool
  pub provision : Option (ℕ → Bool)
  pub create_session : NewSession → Bool
  pub now : ℕ
  pub new_session_id : ℕ

-- Thirty and ninety days in nanoseconds.
abbrev pub session_idle_lifetime : ℕ
session_idle_lifetime = 30 * 24 * 3_600 * 1_000_000_000

abbrev pub session_absolute_lifetime : ℕ
session_absolute_lifetime = 90 * 24 * 3_600 * 1_000_000_000

abbrev pub succeeded_or : Bool → AppError → App (Unit {0})
succeeded_or true error = ok tt
succeeded_or false error = err error

unfoldable pub session_of : Ports → ℕ → NewSession
session_of ports user_id = record {
  session_id = ports.new_session_id;
  user_id = user_id;
  created_at = ports.now;
  idle_expires_at = ports.now + session_idle_lifetime;
  absolute_expires_at = ports.now + session_absolute_lifetime;
}

unfoldable pub provision_for : Option (ℕ → Bool) → ℕ → Logged Call (Unit {0})
provision_for none user_id = (ok tt, [])
provision_for (some provision) user_id = call (provisions user_id) (
    succeeded_or (provision user_id)
      (dependency_unavailable (codes "personal_library_provisioning_failed")))

unfoldable pub store_session : Ports → ℕ → Logged Call IssuedSession
store_session ports user_id =
    call (creates_session (session_of ports user_id))
      (succeeded_or (ports.create_session (session_of ports user_id)) internal)
    >> (ok (record { user_id = user_id; session_id = ports.new_session_id }), [])

-- The end of the login, for an account whose password and status are right.
unfoldable pub issue_session : Ports → ℕ → Logged Call IssuedSession
issue_session ports user_id = provision_for ports.provision user_id >> store_session ports user_id

abbrev pub require_verified : AccountStatus → App (Unit {0})
require_verified verified = ok tt
require_verified _ = err (forbidden (codes "email_verification_required"))

unfoldable pub log_in_as : Ports → LoginIdentity → Logged Call IssuedSession
log_in_as ports identity =
    call (verifies identity.user_id) (succeeded_or (ports.verify identity.user_id) unauthenticated)
    >> ((require_verified identity.status, []) >> issue_session ports identity.user_id)

-- A check of the password against no account.
abbrev pub dummy_login : Logged Call IssuedSession
dummy_login = (err unauthenticated, verifies_dummy ∷ [])

unfoldable pub log_in_email : Ports → Text → Logged Call IssuedSession
log_in_email ports email = elim (ports.find email) [
  | none ↦ (err internal, finds email ∷ [])
  | some none ↦ call (finds email) (ok tt) >> dummy_login
  | some (some identity) ↦ call (finds email) (ok tt) >> log_in_as ports identity
]

unfoldable pub log_in : Ports → Text → Logged Call IssuedSession
log_in ports email = elim (Email.parse email) [
  | err _ ↦ dummy_login
  | ok normalized ↦ log_in_email ports normalized
]
