-- ===== src/Libraries/Sending.antt =====
-- When an invitation is sent, and what it holds.
use folioharbor.Prelude.{
  Bool-cases, Option-cases, ap, arith, false, inl, inr, refl, some, true, ℕ, ◌+◌, ◌↔◌, ◌∙◌, ◌≡◌,
}
use folioharbor.Prelude.Result.{Result-cases, ok}
use folioharbor.Text.Chars.{Text}
use folioharbor.Domain.Codes.{RoleCode}
use folioharbor.Domain.Email as Email
use folioharbor.Access.{AuthorizationGrant, allowed, invitation_ref, invite_member, require}
use folioharbor.Uploads.Log.{>>-logged-ok, >>=-logged-ok, call}
use folioharbor.Libraries.Members.{
  Call, LibraryMutationOutcome, Ports, applied, authorized, creates_invitation, invitation_lifetime,
  invite, is_owner, last_owner, missing, mutate_with, mutation_result, refused, seals,
  send_invitation,
}

module _ (ports : Ports) (actor library invitation request : ℕ) where
  -- The call that stores an invitation.
  abbrev pub stores : AuthorizationGrant → Text → RoleCode → Call
  stores grant email role =
      creates_invitation grant
        (allowed actor invite_member (invitation_ref library invitation) request ports.now)
        invitation email role ports.now (ports.now + invitation_lifetime)

  mutation_result-ok :
      (outcome : LibraryMutationOutcome) → mutation_result outcome ≡ ok tt → outcome ≡ applied
  unfolding mutation_result
  mutation_result-ok applied e = refl
  mutation_result-ok refused e = cc
  mutation_result-ok missing e = cc
  mutation_result-ok last_owner e = cc

  mutate_with-applied :
      (made : Call) → (mutate_with ports made).0 ≡ ok tt → ports.mutate made ≡ some applied
  unfolding mutate_with
  mutate_with-applied made e = elim (Option-cases (ports.mutate made)) [
    | inl failed ↦ absurd (ground arith)
    | inr (outcome, answered) ↦
        answered ∙ ap some (mutation_result-ok outcome (rw (answered, mutate_with) at e))
  ]

  invite-ok :
      (email : Text) (role : RoleCode)
      → (invite ports actor library invitation email role request).0 ≡ ok tt
      → (is_owner role ≡ false)
        × (normalized : Text) × (grant : AuthorizationGrant) × (Email.parse email ≡ ok normalized)
        × (require ports.resolve actor invite_member (invitation_ref library invitation) ≡ ok grant)
        × (ports.is_sealed ≡ true)
        × (ports.mutate (stores grant normalized role) ≡ some applied)
  unfolding invite send_invitation authorized
  invite-ok email role e = elim (Bool-cases (is_owner role)) [
    | inl owned ↦ absurd (ground arith)
    | inr lesser ↦ elim (Result-cases (Email.parse email)) [
      | inr (error, bad) ↦ absurd (ground arith)
      | inl (normalized, parsed) ↦
          let resource = invitation_ref library invitation in
          let (grant, granted, e, _) =
            >>=-logged-ok (authorized ports actor invite_member resource) _
              (rw (lesser, parsed, send_invitation) at e) in
          let (s, m, _) =
            >>-logged-ok (call (seals normalized ports.now (ports.now + invitation_lifetime)) _) _
              e in
          let sealed : ports.is_sealed ≡ true = ground arith in
          (lesser, normalized, grant, parsed, granted, sealed, mutate_with-applied _ m)
    ]
  ]

  -- An invitation is sent exactly when its role is not that of an owner, its address is one, the
  -- actor is granted the invitation of a member, the mail is sealed, and the repository applies it,
  -- with the normalised address and an end seven days after its beginning.
  pub invite_iff :
      (email : Text) (role : RoleCode)
      → ((invite ports actor library invitation email role request).0 ≡ ok tt)
        ↔ (is_owner role ≡ false)
          × (normalized : Text) × (grant : AuthorizationGrant) × (Email.parse email ≡ ok normalized)
          × (require ports.resolve actor invite_member (invitation_ref library invitation)
              ≡ ok grant)
          × (ports.is_sealed ≡ true)
          × (ports.mutate (stores grant normalized role) ≡ some applied)
  unfolding invite send_invitation authorized mutate_with mutation_result
  invite_iff email role = (
    invite-ok email role,
    λ (lesser, normalized, grant, parsed, granted, sealed, taken). ground arith,
  )
