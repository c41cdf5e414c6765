-- ===== src/Access.antt =====
-- Authorization: crates/application/src/authorization.rs and audit.rs. The repository's answer is
-- an argument. An identifier is a number.
pub mod Laws
use folioharbor.Prelude.{Bool, List, Option, if◌then◌else◌, none, not, some, ℕ, ◌==◌, ◌||◌}
use folioharbor.Prelude.Result.{err, ok}
use folioharbor.Text.Chars.{Text, codes}
use folioharbor.App.{App, dependency_unavailable, forbidden, not_found}
use folioharbor.Domain.Codes.{
  PermissionCode, RoleCode, holding_edit, holding_view, item_download, library_manage,
  member_invite,
}

pub data Action : Type 0 where
  view_library manage_library invite_member change_member_role remove_member : Action
  create_upload inspect_upload import_publication : Action
  download_item delete_item restore_item : Action

-- `Action::as_str`
unfoldable pub action_as_str : Action → Text
action_as_str view_library = codes "library.view"
action_as_str manage_library = codes "library.manage"
action_as_str invite_member = codes "member.invite"
action_as_str change_member_role = codes "member.role.change"
action_as_str remove_member = codes "member.remove"
action_as_str create_upload = codes "upload.create"
action_as_str inspect_upload = codes "upload.inspect"
action_as_str import_publication = codes "publication.import"
action_as_str download_item = codes "item.download"
action_as_str delete_item = codes "item.delete"
action_as_str restore_item = codes "item.restore"

unfoldable pub required_permission : Action → PermissionCode
required_permission view_library = holding_view
required_permission create_upload = holding_edit
required_permission inspect_upload = holding_edit
required_permission import_publication = holding_edit
required_permission delete_item = holding_edit
required_permission restore_item = holding_edit
required_permission download_item = PermissionCode.item_download
required_permission invite_member = member_invite
required_permission manage_library = library_manage
required_permission change_member_role = library_manage
required_permission remove_member = library_manage

-- A library, or a part of one: its library first.
pub data ResourceRef : Type 0 where
  library_ref : ℕ → ResourceRef
  membership_ref invitation_ref upload_ref item_ref : ℕ → ℕ → ResourceRef

-- `ResourceRef::library_id`
unfoldable pub library_of : ResourceRef → ℕ
library_of (library_ref id) = id
library_of (membership_ref id _) = id
library_of (invitation_ref id _) = id
library_of (upload_ref id _) = id
library_of (item_ref id _) = id

unfoldable pub resource_type : ResourceRef → Text
resource_type (library_ref _) = codes "library"
resource_type (membership_ref _ _) = codes "membership"
resource_type (invitation_ref _ _) = codes "invitation"
resource_type (upload_ref _ _) = codes "upload"
resource_type (item_ref _ _) = codes "item"

pub record AuthorizationFact : Type 0 where
  pub library_id : ℕ
  pub role : RoleCode
  pub membership_version : ℕ
  pub discoverable : Bool
  pub permitted : Bool

pub record AuthorizationGrant : Type 0 where
  pub actor : ℕ
  pub library_id : ℕ
  pub role : RoleCode
  pub action : Action
  pub resource : ResourceRef
  pub membership_version : ℕ

-- What the repository resolves: `none` is its failure, `some none` a resource that it does not know.
abbrev pub Resolve : Type 0
Resolve = ℕ → Action → ResourceRef → Option (Option AuthorizationFact)

unfoldable pub decide_fact : ℕ → Action → ResourceRef → AuthorizationFact → App AuthorizationGrant
decide_fact actor action resource fact =
    if not fact.discoverable || not (fact.library_id == library_of resource)
    then err (not_found (codes "library_not_found"))
    else if not fact.permitted
    then err (forbidden (codes "library_action_forbidden"))
    else ok (record {
      actor = actor;
      library_id = fact.library_id;
      role = fact.role;
      action = action;
      resource = resource;
      membership_version = fact.membership_version;
    })

-- `Authorization::require`
unfoldable pub require : Resolve → ℕ → Action → ResourceRef → App AuthorizationGrant
require resolve actor action resource = elim (resolve actor action resource) [
  | none ↦ err (dependency_unavailable (codes "authorization_repository_unavailable"))
  | some none ↦ err (not_found (codes "library_not_found"))
  | some (some fact) ↦ decide_fact actor action resource fact
]

pub data AuditDecision : Type 0 where
  audit_allowed audit_denied : AuditDecision

pub data AuditSource : Type 0 where
  api worker : AuditSource

pub record AuditEvent : Type 0 where
  pub actor : Option ℕ
  pub effective_actor : Option ℕ
  pub library_id : ℕ
  pub action : Action
  pub resource : ResourceRef
  pub decision : AuditDecision
  pub reason_code : Option Text
  pub request_id : ℕ
  pub source : AuditSource
  pub occurred_at : ℕ
  pub network_hmac : Option (List ℕ)

-- `AuditEvent::allowed`
unfoldable pub allowed : ℕ → Action → ResourceRef → ℕ → ℕ → AuditEvent
allowed actor action resource request_id occurred_at = record {
  actor = some actor;
  effective_actor = some actor;
  library_id = library_of resource;
  action = action;
  resource = resource;
  decision = audit_allowed;
  reason_code = none;
  request_id = request_id;
  source = api;
  occurred_at = occurred_at;
  network_hmac = none;
}

-- `AuditEvent::denied`
unfoldable pub denied : ℕ → Action → ResourceRef → Text → ℕ → ℕ → AuditEvent
unfolding allowed
denied actor action resource reason_code request_id occurred_at =
    record (allowed actor action resource request_id occurred_at) {
      decision = audit_denied;
      reason_code = some reason_code;
    }
