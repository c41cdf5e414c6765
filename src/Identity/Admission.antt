-- ===== src/Identity/Admission.antt =====
-- When a login succeeds.
use folioharbor.Prelude.{
  Bool, Bool-cases, Option, Option-cases, [], arith, false, inl, inr, none, refl, some, true, ℕ,
  ◌↔◌, ◌≡◌,
}
use folioharbor.Prelude.Result.{Result-cases, err, ok}
use folioharbor.Text.Chars.{Text}
use folioharbor.App.{AppError, unauthenticated}
use folioharbor.Domain.Email as Email
use folioharbor.Uploads.Log.{>>-logged-ok, Logged, call, ◌>>◌}
use folioharbor.Identity.Login.{
  AccountStatus, Call, IssuedSession, LoginIdentity, Ports, disabled, issue_session, log_in,
  log_in_as, log_in_email, pending_verification, provision_for, require_verified, session_of,
  store_session, succeeded_or, verified, verifies,
}

module _ (ports : Ports) where
  abbrev pub IsProvisioned : Option (ℕ → Bool) → ℕ → Type 0
  IsProvisioned none user_id = Unit
  IsProvisioned (some provision) user_id = provision user_id ≡ true

  -- An account whose password is right and whose address is verified, its library provisioned if one
  -- is to be, and its session stored.
  pub record IsAdmitted (identity : LoginIdentity) : Type 0 where
    pub password : ports.verify identity.user_id ≡ true
    pub address : identity.status ≡ verified
    pub provisioned : IsProvisioned ports.provision identity.user_id
    pub stored : ports.create_session (session_of ports identity.user_id) ≡ true

  provision_for-ok :
      (provision : Option (ℕ → Bool)) (user_id : ℕ)
      → (provision_for provision user_id).0 ≡ ok tt
      → IsProvisioned provision user_id
  unfolding provision_for
  provision_for-ok none user_id e = tt
  provision_for-ok (some provision) user_id e = ground arith

  provision_for-done :
      (provision : Option (ℕ → Bool)) (user_id : ℕ)
      → IsProvisioned provision user_id
      → (provision_for provision user_id).0 ≡ ok tt
  unfolding provision_for
  provision_for-done none user_id h = refl
  provision_for-done (some provision) user_id h = rw h refl

  require_verified-ok :
      (status : AccountStatus) → require_verified status ≡ ok tt → status ≡ verified
  require_verified-ok pending_verification e = cc
  require_verified-ok verified e = refl
  require_verified-ok disabled e = cc

  abbrev pub issued_to : ℕ → IssuedSession
  issued_to user_id = record { user_id = user_id; session_id = ports.new_session_id }

  store_session-ok :
      (user_id : ℕ) {issued : IssuedSession}
      → (store_session ports user_id).0 ≡ ok issued
      → (ports.create_session (session_of ports user_id) ≡ true) × (issued ≡ issued_to user_id)
  unfolding store_session
  store_session-ok user_id {issued} e =
      elim (Bool-cases (ports.create_session (session_of ports user_id))) [
        | inl stored ↦ (stored, ground arith)
        | inr failed ↦ absurd (ground arith)
      ]

  store_session-done :
      (user_id : ℕ)
      → ports.create_session (session_of ports user_id) ≡ true
      → (store_session ports user_id).0 ≡ ok (issued_to user_id)
  unfolding store_session
  store_session-done user_id stored = rw stored refl

  succeeded_or-ok : (b : Bool) (error : AppError) → succeeded_or b error ≡ ok tt → b ≡ true
  succeeded_or-ok true error e = refl
  succeeded_or-ok false error e = cc

  -- The calls after a first part that succeeds.
  then-done :
      (first : Logged Call (Unit {0})) (rest : Logged Call IssuedSession) {issued : IssuedSession}
      → first.0 ≡ ok tt
      → rest.0 ≡ ok issued
      → (first >> rest).0 ≡ ok issued
  then-done (err error, calls) rest h k = cc
  then-done (ok _, calls) rest h k = k

  log_in_as-ok :
      (identity : LoginIdentity) {issued : IssuedSession}
      → (log_in_as ports identity).0 ≡ ok issued
      → IsAdmitted identity × (issued ≡ issued_to identity.user_id)
  unfolding log_in_as issue_session
  log_in_as-ok identity {issued} e =
      let user_id = identity.user_id in
      let ending = provision_for ports.provision user_id >> store_session ports user_id in
      let checked : Logged Call (Unit {0}) = (require_verified identity.status, []) in
      let (p, e, _) =
        >>-logged-ok (call (verifies user_id) (succeeded_or (ports.verify user_id) unauthenticated))
          (checked >> ending) {value = issued} e in
      let (a, e, _) = >>-logged-ok checked ending {value = issued} e in
      let (l, e, _) =
        >>-logged-ok (provision_for ports.provision user_id) (store_session ports user_id)
          {value = issued} e in
      let (stored, same) = store_session-ok user_id e in
      (
        record {
          password = succeeded_or-ok (ports.verify user_id) unauthenticated p;
          address = require_verified-ok identity.status a;
          provisioned = provision_for-ok ports.provision user_id l;
          stored = stored;
        },
        same,
      )

  log_in_as-done :
      (identity : LoginIdentity)
      → IsAdmitted identity
      → (log_in_as ports identity).0 ≡ ok (issued_to identity.user_id)
  unfolding log_in_as issue_session
  log_in_as-done identity h =
      let user_id = identity.user_id in
      then-done (call (verifies user_id) (succeeded_or (ports.verify user_id) unauthenticated)) _
        (rw h.password refl)
        (then-done (require_verified identity.status, []) _ (rw h.address refl)
          (then-done (provision_for ports.provision user_id) (store_session ports user_id)
            (provision_for-done ports.provision user_id h.provisioned)
            (store_session-done user_id h.stored)))

  log_in-ok :
      (email : Text) (issued : IssuedSession)
      → (log_in ports email).0 ≡ ok issued
      → (normalized : Text) × (identity : LoginIdentity) × (Email.parse email ≡ ok normalized)
        × (ports.find normalized ≡ some (some identity))
        × IsAdmitted identity
        × (issued ≡ issued_to identity.user_id)
  unfolding log_in log_in_email
  log_in-ok email issued e = elim (Result-cases (Email.parse email)) [
    | inr (error, bad) ↦ absurd (ground arith)
    | inl (normalized, parsed) ↦ elim (Option-cases (ports.find normalized)) [
      | inl failed ↦ absurd (ground arith)
      | inr (none, unknown) ↦ absurd (ground arith)
      | inr (some identity, found) ↦
          let (admitted, same) =
            log_in_as-ok identity (rw (parsed, found, log_in, log_in_email) at e) in
          (normalized, identity, parsed, found, admitted, same)
    ]
  ]

  -- A login succeeds exactly when the address is one of an account, the password is the account's, its
  -- address is verified, its library is provisioned if one is to be, and its session is stored; the
  -- session is then of that account.
  pub log_in_iff :
      (email : Text) (issued : IssuedSession)
      → ((log_in ports email).0 ≡ ok issued)
        ↔ (normalized : Text) × (identity : LoginIdentity) × (Email.parse email ≡ ok normalized)
          × (ports.find normalized ≡ some (some identity))
          × IsAdmitted identity
          × (issued ≡ issued_to identity.user_id)
  unfolding log_in log_in_email
  log_in_iff email issued = (
    log_in-ok email issued,
    λ (normalized, identity, parsed, found, admitted, same).
        rw (same, parsed, found, log_in, log_in_email) (log_in_as-done identity admitted),
  )
