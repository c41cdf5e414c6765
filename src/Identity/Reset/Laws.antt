-- ===== src/Identity/Reset/Laws.antt =====
-- A request for a new password does not tell whether the account exists.
use folioharbor.Prelude.{
  Bool, Bool-cases, List, Option, Option-cases, [], inl, inr, none, refl, sym, true, ℕ, ◌+◌, ◌∙◌,
  ◌∷◌, ◌≡◌, ◌≢◌,
}
use folioharbor.Prelude.Result.{Result-cases}
use folioharbor.Text.Chars.{Text}
use folioharbor.App.{internal}
use folioharbor.Domain.Email as Email
use folioharbor.Identity.Login.{succeeded_or}
use folioharbor.Identity.Reset.{
  Call, Ports, hashes, issue_for, issues_reset, looks_up, registers, request_for,
  request_password_reset, reset_lifetime, resets, seals,
}

-- The mails that some calls seal: their addresses and ends.
abbrev pub sealed : List Call → List (Text × ℕ)
sealed [] = []
sealed (seals email expires ∷ calls) = (email, expires) ∷ sealed calls
sealed (looks_up _ ∷ calls) = sealed calls
sealed (hashes ∷ calls) = sealed calls
sealed (issues_reset _ _ ∷ calls) = sealed calls
sealed (registers _ ∷ calls) = sealed calls
sealed (resets _ ∷ calls) = sealed calls

-- What a request answers where the look-up of the account does not fail, and what it seals.
request_for-same :
    (ports : Ports) (email : Text)
    → ports.recipient email ≢ none
    → ports.issue email ≡ true
    → ((request_for ports email).0 ≡ succeeded_or ports.is_sealed internal)
      × (sealed (request_for ports email).1 ≡ (email, ports.now + reset_lifetime) ∷ [])
unfolding request_for issue_for
request_for-same ports email known issued = elim (Option-cases (ports.recipient email)) [
  | inl failed ↦ absurd (known failed)
  | inr (is_known, found) ↦ elim (Bool-cases ports.is_sealed) [
    | inr unsealed ↦ rw (found, unsealed, request_for) (refl, refl)
    | inl is_sealed ↦ elim (Bool-cases is_known) [
      | inl present ↦ rw (found, is_sealed, present, issued, request_for, issue_for) (refl, refl)
      | inr missing ↦ rw (found, is_sealed, missing, request_for, issue_for) (refl, refl)
    ]
  ]
]

module _ (ports : Ports) (recipient : Text → Option Bool) where
  -- The same ports, but for the accounts that exist.
  abbrev pub elsewhere : Ports
  elsewhere = record ports { recipient = recipient }

  -- The answer to a request for a new password, and the address and the end of the mail that it
  -- seals, are the same whatever accounts exist, if the look-ups do not fail and a reset that is issued
  -- succeeds.
  pub request_password_reset-hides :
      (email : Text)
      → ((normalized : Text) → ports.recipient normalized ≢ none)
      → ((normalized : Text) → recipient normalized ≢ none)
      → ((normalized : Text) → ports.issue normalized ≡ true)
      → ((request_password_reset ports email).0 ≡ (request_password_reset elsewhere email).0)
        × (sealed (request_password_reset ports email).1
            ≡ sealed (request_password_reset elsewhere email).1)
  unfolding request_password_reset
  request_password_reset-hides email known known' issued = elim (Result-cases (Email.parse email)) [
    | inr (error, bad) ↦ rw (bad, request_password_reset) (refl, refl)
    | inl (normalized, parsed) ↦
        let (answer, mails) =
          request_for-same ports normalized (known normalized) (issued normalized) in
        let (answer', mails') =
          request_for-same elsewhere normalized (known' normalized) (issued normalized) in
        rw (parsed, request_password_reset) (answer ∙ sym answer', mails ∙ sym mails')
  ]
