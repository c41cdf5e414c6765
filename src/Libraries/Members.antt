-- ===== src/Libraries/Members.antt =====
-- The use cases of a library's owner: change_role.rs, remove_member.rs, settings.rs and
-- invite_member.rs of crates/application/src/libraries, and `mutation_result` of their mod.rs. What
-- the ports answer is a record of parameters; the token of an invitation is left out.
use folioharbor.Prelude.{
  Bool, Option, [], false, if◌then◌else◌, is_empty, none, some, true, ℕ, ◌*◌, ◌+◌,
}
use folioharbor.Prelude.Result.{err, ok}
use folioharbor.Text.Chars.{Text, codes, trim}
use folioharbor.App.{App, AppError, conflict, dependency_unavailable, forbidden, invalid, not_found}
use folioharbor.Domain.Codes.{RoleCode}
use folioharbor.Domain.Email as Email
use folioharbor.Access.{
  Action, AuditEvent, AuthorizationGrant, Resolve, ResourceRef, allowed, change_member_role,
  invitation_ref, invite_member, library_ref, manage_library, membership_ref, remove_member,
  require,
}
use folioharbor.Uploads.Log.{Logged, call, ◌>>=◌, ◌>>◌}

pub data LibraryMutationOutcome : Type 0 where
  applied refused missing last_owner : LibraryMutationOutcome

-- The calls of the repository and of the mailer.
pub data Call : Type 0 where
  changes_role : AuthorizationGrant → AuditEvent → ℕ → RoleCode → Call
  removes_member : AuthorizationGrant → AuditEvent → ℕ → Call
  updates_settings : AuthorizationGrant → AuditEvent → Text → Option Bool → Call
  seals : Text → ℕ → ℕ → Call
  creates_invitation : AuthorizationGrant → AuditEvent → ℕ → Text → RoleCode → ℕ → ℕ → Call

-- `mutate` is `none` where the repository fails.
pub record Ports : Type 0 where
  pub resolve : Resolve
  pub now : ℕ
  pub mutate : Call → Option LibraryMutationOutcome
  pub is_sealed : Bool

unfoldable pub mutation_result : LibraryMutationOutcome → App (Unit {0})
mutation_result applied = ok tt
mutation_result refused = err (forbidden (codes "library_owner_required"))
mutation_result missing = err (not_found (codes "membership_not_found"))
mutation_result last_owner = err (conflict (codes "library_requires_owner"))

abbrev pub unavailable : AppError
unavailable = dependency_unavailable (codes "library_repository_unavailable")

-- A call that changes the library, with what becomes of its answer.
unfoldable pub mutate_with : Ports → Call → Logged Call (Unit {0})
mutate_with ports made = elim (ports.mutate made) [
  | none ↦ call made (err unavailable)
  | some outcome ↦ call made (mutation_result outcome)
]

-- Authorization, which calls no other port.
unfoldable pub authorized : Ports → ℕ → Action → ResourceRef → Logged Call AuthorizationGrant
authorized ports actor action resource = (require ports.resolve actor action resource, [])

-- `ChangeMemberRole::execute`
unfoldable pub change_member_role_of : Ports → ℕ → ℕ → ℕ → RoleCode → ℕ → Logged Call (Unit {0})
change_member_role_of ports actor library member role request =
    let resource = membership_ref library member in
    authorized ports actor change_member_role resource >>= λ grant.
    mutate_with ports
      (changes_role grant (allowed actor change_member_role resource request ports.now) member role)

-- `RemoveMember::execute`
unfoldable pub remove_member_of : Ports → ℕ → ℕ → ℕ → ℕ → Logged Call (Unit {0})
remove_member_of ports actor library member request =
    let resource = membership_ref library member in
    authorized ports actor remove_member resource >>= λ grant.
    mutate_with ports
      (removes_member grant (allowed actor remove_member resource request ports.now) member)

-- `UpdateLibrarySettings::execute`
unfoldable pub update_settings : Ports → ℕ → ℕ → Text → Option Bool → ℕ → Logged Call (Unit {0})
update_settings ports actor library name reader_download_enabled request =
    let resource = library_ref library in
    if is_empty (trim name)
    then (err (invalid (codes "invalid_library_settings")), [])
    else (authorized ports actor manage_library resource >>= λ grant. mutate_with ports (
        updates_settings grant (allowed actor manage_library resource request ports.now) name
          reader_download_enabled))

abbrev pub is_owner : RoleCode → Bool
is_owner RoleCode.owner = true
is_owner _ = false

-- Seven days in nanoseconds.
abbrev pub invitation_lifetime : ℕ
invitation_lifetime = 7 * 24 * 3_600 * 1_000_000_000

-- `InviteMember::execute` behind the checks of its input; `invitation` is the new identifier.
unfoldable pub send_invitation : Ports → ℕ → ℕ → ℕ → Text → RoleCode → ℕ → Logged Call (Unit {0})
send_invitation ports actor library invitation email role request =
    let resource = invitation_ref library invitation in
    authorized ports actor invite_member resource >>= λ grant.
    call (seals email ports.now (ports.now + invitation_lifetime)) (
      if ports.is_sealed
      then ok tt
      else err (dependency_unavailable (codes "mail_delivery_unavailable")))
    >> mutate_with ports (
        creates_invitation grant (allowed actor invite_member resource request ports.now) invitation
          email role ports.now (ports.now + invitation_lifetime))

-- `InviteMember::execute`
unfoldable pub invite : Ports → ℕ → ℕ → ℕ → Text → RoleCode → ℕ → Logged Call (Unit {0})
invite ports actor library invitation email role request =
    if is_owner role
    then (err (invalid (codes "invalid_invitation_role")), [])
    else elim (Email.parse email) [
      | err _ ↦ (err (invalid (codes "invalid_invitation")), [])
      | ok normalized ↦ send_invitation ports actor library invitation normalized role request
    ]
