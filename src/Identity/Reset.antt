-- ===== src/Identity/Reset.antt =====
-- Requests for a new password and registrations: `RequestPasswordReset` and `CompletePasswordReset`
-- of crates/application/src/identity/reset_password.rs, and `RegisterAccount` of register.rs. What
-- the repository, the hasher and the mailer answer is a record of parameters; the tokens are left
-- out.
pub mod Laws
use folioharbor.Prelude.{
  Bool, Option, [], false, if◌then◌else◌, is_empty, none, some, true, ℕ, ◌*◌, ◌+◌,
}
use folioharbor.Prelude.Result.{Result, err, ok}
use folioharbor.Text.Chars.{Text, codes, trim}
use folioharbor.App.{App, internal, invalid}
use folioharbor.Domain.Email as Email
use folioharbor.Uploads.Log.{Logged, call, ◌>>=◌, ◌>>◌}
use folioharbor.Identity.Login.{session_absolute_lifetime, session_idle_lifetime, succeeded_or}

-- Twenty-four hours and one hour in nanoseconds.
abbrev pub verification_lifetime : ℕ
verification_lifetime = 24 * 3_600 * 1_000_000_000

abbrev pub reset_lifetime : ℕ
reset_lifetime = 3_600 * 1_000_000_000

-- The data of `NewAccount` that the request determines.
pub record NewAccount : Type 0 where
  pub normalized_email : Text
  pub display_email : Text
  pub created_at : ℕ
  pub verification_expires_at : ℕ

-- The session that a reset opens.
pub record ResetSession : Type 0 where
  pub session_id : ℕ
  pub created_at : ℕ
  pub idle_expires_at : ℕ
  pub absolute_expires_at : ℕ

pub data Call : Type 0 where
  looks_up : Text → Call
  hashes : Call
  seals : Text → ℕ → Call
  issues_reset : Text → ℕ → Call
  registers : NewAccount → Call
  resets : ResetSession → Call

-- `recipient` is `none` where the repository fails, and else whether there is an account;
-- `reset_password` is `none` where it fails, and else the user whose token it is.
pub record Ports : Type 0 where
  pub recipient : Text → Option Bool
  pub is_hashed : Bool
  pub is_sealed : Bool
  pub issue : Text → Bool
  pub register : NewAccount → Bool
  pub reset_password : ResetSession → Option (Option ℕ)
  pub now : ℕ
  pub new_session_id : ℕ

-- The end of a request, for an account or for none.
unfoldable pub issue_for : Ports → Text → Bool → Logged Call (Unit {0})
issue_for ports email false = (ok tt, [])
issue_for ports email true =
    call (issues_reset email (ports.now + reset_lifetime))
      (succeeded_or (ports.issue email) internal)

unfoldable pub request_for : Ports → Text → Logged Call (Unit {0})
request_for ports email = elim (ports.recipient email) [
  | none ↦ call (looks_up email) (err internal)
  | some known ↦
      call (looks_up email) (ok tt)
      >> (call (seals email (ports.now + reset_lifetime)) (succeeded_or ports.is_sealed internal)
          >> issue_for ports email known)
]

-- `RequestPasswordReset::execute`
unfoldable pub request_password_reset : Ports → Text → Logged Call (Unit {0})
request_password_reset ports email = elim (Email.parse email) [
  | err _ ↦ (ok tt, [])
  | ok normalized ↦ request_for ports normalized
]

unfoldable pub reset_session : Ports → ResetSession
reset_session ports = record {
  session_id = ports.new_session_id;
  created_at = ports.now;
  idle_expires_at = ports.now + session_idle_lifetime;
  absolute_expires_at = ports.now + session_absolute_lifetime;
}

abbrev pub reset_answer : Option (Option ℕ) → App ℕ
reset_answer none = err internal
reset_answer (some none) = err (invalid (codes "invalid_or_expired_password_reset_token"))
reset_answer (some (some user_id)) = ok user_id

-- `CompletePasswordReset::execute`: the user whose password is new.
unfoldable pub complete_password_reset : Ports → Text → Logged Call ℕ
complete_password_reset ports new_password =
    if is_empty new_password
    then (err (invalid (codes "invalid_password")), [])
    else (call hashes (succeeded_or ports.is_hashed internal)
        >> call (resets (reset_session ports))
            (reset_answer (ports.reset_password (reset_session ports))))

unfoldable pub account_of : Ports → Text → Text → NewAccount
account_of ports normalized email = record {
  normalized_email = normalized;
  display_email = trim email;
  created_at = ports.now;
  verification_expires_at = ports.now + verification_lifetime;
}

unfoldable pub register_with : Ports → Text → Text → Logged Call (Unit {0})
register_with ports normalized email =
    let account = account_of ports normalized email in
    call hashes (succeeded_or ports.is_hashed internal)
    >> (call (seals normalized (ports.now + verification_lifetime))
          (succeeded_or ports.is_sealed internal)
        >> call (registers account) (succeeded_or (ports.register account) internal))

-- `RegisterAccount::execute`: the answer is the same whether the address is known or not.
unfoldable pub register_account : Ports → Text → Text → Logged Call (Unit {0})
register_account ports email password = elim (Email.parse email) [
  | err _ ↦ (err (invalid (codes "invalid_registration")), [])
  | ok normalized ↦
      if is_empty password
      then (err (invalid (codes "invalid_registration")), [])
      else register_with ports normalized email
]
