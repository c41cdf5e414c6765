-- ===== src/Identity/Laws.antt =====
-- What a login costs.
use folioharbor.Prelude.{
  Bool, Bool-cases, List, Option, Option-cases, [], arith, inl, inr, none, refl, some, suc, ℕ, ◌++◌,
  ◌+◌, ◌∷◌, ◌≡◌, ◌≢◌,
}
use folioharbor.Prelude.Result.{Result-cases, err, ok}
use folioharbor.Text.Chars.{Text}
use folioharbor.App.{App, unauthenticated}
use folioharbor.Domain.Email as Email
use folioharbor.Uploads.Log.{Logged, call, ◌>>◌}
use folioharbor.Identity.Login.{
  Call, IssuedSession, LoginIdentity, Ports, creates_session, finds, issue_session, log_in,
  log_in_as, log_in_email, provision_for, provisions, require_verified, session_of, store_session,
  succeeded_or, verifies, verifies_dummy,
}

-- The number of checks of a password among some calls.
abbrev pub checks : List Call → ℕ
checks [] = 0
checks (verifies_dummy ∷ calls) = suc (checks calls)
checks (verifies _ ∷ calls) = suc (checks calls)
checks (finds _ ∷ calls) = checks calls
checks (provisions _ ∷ calls) = checks calls
checks (creates_session _ ∷ calls) = checks calls

checks-append : (calls more : List Call) → checks (calls ++ more) ≡ checks calls + checks more
checks-append [] more = omega arith
checks-append (verifies_dummy ∷ calls) more = omega (arith, checks-append calls more)
checks-append (verifies _ ∷ calls) more = omega (arith, checks-append calls more)
checks-append (finds _ ∷ calls) more = checks-append calls more
checks-append (provisions _ ∷ calls) more = checks-append calls more
checks-append (creates_session _ ∷ calls) more = checks-append calls more

module _ (ports : Ports) where
  provision_for-checks :
      (provision : Option (ℕ → Bool)) (user_id : ℕ) → checks (provision_for provision user_id).1 ≡ 0
  unfolding provision_for
  provision_for-checks none user_id = refl
  provision_for-checks (some provision) user_id = refl

  then-checks :
      (first : Logged Call (Unit {0})) (rest : Logged Call IssuedSession)
      → checks first.1 ≡ 0
      → checks rest.1 ≡ 0
      → checks (first >> rest).1 ≡ 0
  then-checks (err error, calls) rest h k = h
  then-checks (ok _, calls) rest h k = omega (arith, checks-append calls rest.1, h, k)

  store_session-checks : (user_id : ℕ) → checks (store_session ports user_id).1 ≡ 0
  unfolding store_session
  store_session-checks user_id =
      elim (Bool-cases (ports.create_session (session_of ports user_id))) [
        | inl stored ↦ rw stored refl
        | inr failed ↦ rw failed refl
      ]

  issue_session-checks : (user_id : ℕ) → checks (issue_session ports user_id).1 ≡ 0
  unfolding issue_session
  issue_session-checks user_id =
      then-checks (provision_for ports.provision user_id) (store_session ports user_id)
        (provision_for-checks ports.provision user_id) (store_session-checks user_id)

  -- A check of the password before calls that make none.
  verified-checks :
      (user_id : ℕ) (answer : App (Unit {0})) (rest : Logged Call IssuedSession)
      → checks rest.1 ≡ 0
      → checks (call (verifies user_id) answer >> rest).1 ≡ 1
  verified-checks user_id (err error) rest h = refl
  verified-checks user_id (ok _) rest h = omega (arith, h)

  log_in_as-checks : (identity : LoginIdentity) → checks (log_in_as ports identity).1 ≡ 1
  unfolding log_in_as
  log_in_as-checks identity =
      verified-checks identity.user_id
        (succeeded_or (ports.verify identity.user_id) unauthenticated)
        ((require_verified identity.status, []) >> issue_session ports identity.user_id)
        (then-checks (require_verified identity.status, []) (issue_session ports identity.user_id)
          refl (issue_session-checks identity.user_id))

  -- However a login ends, it has checked exactly one password, against the account or against none,
  -- unless the repository fails to look the account up: the work does not tell whether it exists.
  pub log_in-checks :
      (email : Text)
      → ((normalized : Text) → ports.find normalized ≢ none)
      → checks (log_in ports email).1 ≡ 1
  unfolding log_in log_in_email
  log_in-checks email lasting = elim (Result-cases (Email.parse email)) [
    | inr (error, bad) ↦ rw (bad, log_in) refl
    | inl (normalized, parsed) ↦ elim (Option-cases (ports.find normalized)) [
      | inl failed ↦ absurd (lasting normalized failed)
      | inr (none, unknown) ↦ rw (parsed, unknown, log_in, log_in_email) refl
      | inr (some identity, found) ↦
          rw (parsed, found, log_in, log_in_email) (log_in_as-checks identity)
    ]
  ]
