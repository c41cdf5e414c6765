-- ===== src/Libraries/Laws.antt =====
-- Nothing of a library changes without a grant.
use folioharbor.Prelude.{
  All, Bool, Bool-cases, Option, Option-cases, inl, inr, is_empty, refl, ℕ, ◌+◌, ◌≡◌,
}
use folioharbor.Prelude.Result.{Result-cases, err, ok}
use folioharbor.Text.Chars.{Text, trim}
use folioharbor.App.{App}
use folioharbor.Domain.Codes.{RoleCode}
use folioharbor.Domain.Email as Email
use folioharbor.Access.{
  Action, AuditEvent, AuthorizationGrant, ResourceRef, change_member_role, denied, invitation_ref,
  invite_member, library_ref, manage_library, membership_ref, remove_member, require,
}
use folioharbor.Access.Laws.{IsLicensed}
use folioharbor.Uploads.Log.{Logged, call, ◌>>=◌, ◌>>◌}
use folioharbor.Libraries.Members.{
  Call, Ports, authorized, change_member_role_of, changes_role, creates_invitation,
  invitation_lifetime, invite, is_owner, mutate_with, remove_member_of, removes_member, seals,
  send_invitation, update_settings, updates_settings,
}

module _ (ports : Ports) (actor library request : ℕ) where
  abbrev Licence : Action → ResourceRef → AuthorizationGrant → AuditEvent → Type 0
  Licence action resource grant audit =
      IsLicensed ports.resolve actor action resource request ports.now grant audit

  -- Each call of the repository has a licence for its own action on its own part of the library.
  -- The mailer is called for an invitation only when some invitation is granted.
  abbrev pub Licensed : Call → Type 0
  Licensed (changes_role grant audit member role) =
      Licence change_member_role (membership_ref library member) grant audit
  Licensed (removes_member grant audit member) =
      Licence remove_member (membership_ref library member) grant audit
  Licensed (updates_settings grant audit name enabled) =
      Licence manage_library (library_ref library) grant audit
  Licensed (creates_invitation grant audit invitation email role issued expires) =
      Licence invite_member (invitation_ref library invitation) grant audit
  Licensed (seals email issued expires) =
      (invitation : ℕ) × (grant : AuthorizationGrant) × (require ports.resolve actor invite_member
          (invitation_ref library invitation)
        ≡ ok grant)

  authorized-Licensed :
      (action : Action) (resource : ResourceRef)
      (rest : AuthorizationGrant → Logged Call (Unit {0}))
      → ((grant : AuthorizationGrant)
          → require ports.resolve actor action resource ≡ ok grant
          → All Licensed (rest grant).1)
      → All Licensed (authorized ports actor action resource >>= rest).1
  unfolding authorized
  authorized-Licensed action resource rest h =
      elim (Result-cases (require ports.resolve actor action resource)) [
        | inl (grant, granted) ↦ rw granted (h grant granted)
        | inr (error, denied) ↦ rw denied tt
      ]

  mutate_with-Licensed : (made : Call) → Licensed made → All Licensed (mutate_with ports made).1
  unfolding mutate_with
  mutate_with-Licensed made h = elim (Option-cases (ports.mutate made)) [
    | inl failed ↦ rw (failed, mutate_with) (h, tt)
    | inr (outcome, answered) ↦ rw (answered, mutate_with) (h, tt)
  ]

  called-Licensed :
      (made : Call) (answer : App (Unit {0})) (rest : Logged Call (Unit {0}))
      → Licensed made
      → All Licensed rest.1
      → All Licensed (call made answer >> rest).1
  called-Licensed made (err error) rest h k = (h, tt)
  called-Licensed made (ok _) rest h k = (h, k)

  change_member_role-Licensed :
      (member : ℕ) (role : RoleCode)
      → All Licensed (change_member_role_of ports actor library member role request).1
  unfolding change_member_role_of
  change_member_role-Licensed member role =
      authorized-Licensed change_member_role (membership_ref library member) _
        (λ grant granted. mutate_with-Licensed _ (record { granted = granted; recorded = refl }))

  remove_member-Licensed :
      (member : ℕ) → All Licensed (remove_member_of ports actor library member request).1
  unfolding remove_member_of
  remove_member-Licensed member =
      authorized-Licensed remove_member (membership_ref library member) _
        (λ grant granted. mutate_with-Licensed _ (record { granted = granted; recorded = refl }))

  update_settings-Licensed :
      (name : Text) (enabled : Option Bool)
      → All Licensed (update_settings ports actor library name enabled request).1
  unfolding update_settings
  update_settings-Licensed name enabled = elim (Bool-cases (is_empty (trim name))) [
    | inl blank ↦ rw blank tt
    | inr named ↦ rw named (
        authorized-Licensed manage_library (library_ref library) _
          (λ grant granted. mutate_with-Licensed _ (record { granted = granted; recorded = refl })))
  ]

  send_invitation-Licensed :
      (invitation : ℕ) (email : Text) (role : RoleCode)
      → All Licensed (send_invitation ports actor library invitation email role request).1
  unfolding send_invitation
  send_invitation-Licensed invitation email role =
      authorized-Licensed invite_member (invitation_ref library invitation) _ (λ grant granted.
        called-Licensed (seals email ports.now (ports.now + invitation_lifetime)) _ _
          (invitation, grant, granted)
          (mutate_with-Licensed _ (record { granted = granted; recorded = refl })))

  invite-Licensed :
      (invitation : ℕ) (email : Text) (role : RoleCode)
      → All Licensed (invite ports actor library invitation email role request).1
  unfolding invite
  invite-Licensed invitation email role = elim (Bool-cases (is_owner role)) [
    | inl owned ↦ rw owned tt
    | inr lesser ↦ elim (Result-cases (Email.parse email)) [
      | inl (normalized, parsed) ↦
          rw (lesser, parsed) (send_invitation-Licensed invitation normalized role)
      | inr (error, bad) ↦ rw (lesser, bad) tt
    ]
  ]

  -- A role, a membership, the settings and an invitation change only by a call that carries the grant
  -- of the actor for that very action and part of the library, with the record of it for the audit;
  -- and no invitation is sealed for the mail before an invitation is granted.
  pub members-Licensed :
      (member invitation : ℕ) (role : RoleCode) (name email : Text) (enabled : Option Bool)
      → All Licensed (change_member_role_of ports actor library member role request).1
        × All Licensed (remove_member_of ports actor library member request).1
        × All Licensed (update_settings ports actor library name enabled request).1
        × All Licensed (invite ports actor library invitation email role request).1
  members-Licensed member invitation role name email enabled = (
    change_member_role-Licensed member role,
    remove_member-Licensed member,
    update_settings-Licensed name enabled,
    invite-Licensed invitation email role,
  )
