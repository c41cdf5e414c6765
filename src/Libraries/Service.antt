-- ===== src/Libraries/Service.antt =====
-- The service over the use cases of libraries: `LibraryService` of
-- crates/application/src/libraries/api.rs, with its record of denials. What the query repository and
-- the audit sink answer is a record of parameters.
pub mod Laws
use folioharbor.Prelude.{
  Bool, List, Option, [], false, if◌then◌else◌, map, none, some, true, ℕ, ◌++◌,
}
use folioharbor.Prelude.Result.{err, ok, ok_or}
use folioharbor.Text.Chars.{Text, codes}
use folioharbor.App.{App, AppError, conflict, dependency_unavailable, forbidden, invalid, not_found}
use folioharbor.Domain.Codes.{RoleCode}
use folioharbor.Access.{
  Action, AuditEvent, AuthorizationGrant, ResourceRef, change_member_role, denied, invite_member,
  library_ref, manage_library, membership_ref, remove_member, require, view_library,
}
use folioharbor.Libraries.Members as Members
use folioharbor.Uploads.Log.{Logged, call, ◌>>=◌, ◌>>◌}

pub record LibraryCapabilities : Type 0 where
  pub can_upload : Bool
  pub can_invite_members : Bool
  pub can_manage_members : Bool
  pub can_manage_settings : Bool

pub record LibraryView : Type 0 where
  pub library_id : ℕ
  pub name : Text
  pub role : RoleCode
  pub reader_download_enabled : Bool
  pub capabilities : LibraryCapabilities

pub record LibraryMemberView : Type 0 where
  pub user_id : ℕ
  pub role : RoleCode

-- The calls: those of the use cases, those of the query repository and the records of denials.
pub data Call : Type 0 where
  makes : Members.Call → Call
  lists_visible : ℕ → Call
  gets_library lists_members : AuthorizationGrant → ℕ → Call
  records_denial : AuditEvent → Call

-- `none` is a failure of the query repository, and `false` one of the audit sink.
pub record Ports : Type 0 where
  pub use_case : Members.Ports
  pub visible : ℕ → Option (List LibraryView)
  pub library : AuthorizationGrant → ℕ → Option (Option LibraryView)
  pub members : AuthorizationGrant → ℕ → Option (List LibraryMemberView)
  pub record_denial : AuditEvent → Bool

unfoldable pub error_code : AppError → Text
error_code (forbidden code) = code
error_code (not_found code) = code
error_code (conflict code) = code
error_code (invalid code) = code
error_code (dependency_unavailable code) = code
error_code _ = codes "request_denied"

-- A denial that is recorded before the error is answered.
unfoldable pub deny {ℓ} : {A : Type ℓ} → Ports → AppError → AuditEvent → Logged Call A
deny ports error event = call (records_denial event) (
    if ports.record_denial event
    then err error
    else err (dependency_unavailable (codes "audit_repository_unavailable")))

-- `LibraryService::grant`: any error of the authorization is recorded.
unfoldable pub grant : Ports → ℕ → ℕ → Action → ResourceRef → Logged Call AuthorizationGrant
grant ports actor request action resource =
    elim (require ports.use_case.resolve actor action resource) [
      | ok granted ↦ (ok granted, [])
      | err error ↦
          deny ports error
            (denied actor action resource (error_code error) request ports.use_case.now)
    ]

unfoldable pub list_libraries : Ports → ℕ → Logged Call (List LibraryView)
list_libraries ports actor =
    call (lists_visible actor) (ok_or (ports.visible actor) Members.unavailable)

-- The library that the query repository knows, if it answers and knows one.
abbrev pub found_library : Option (Option LibraryView) → App LibraryView
found_library none = err Members.unavailable
found_library (some none) = err (not_found (codes "library_not_found"))
found_library (some (some view)) = ok view

unfoldable pub get_library : Ports → ℕ → ℕ → ℕ → Logged Call LibraryView
get_library ports actor request library =
    grant ports actor request view_library (library_ref library) >>= λ granted.
    call (gets_library granted library) (found_library (ports.library granted library))

unfoldable pub list_members : Ports → ℕ → ℕ → ℕ → Logged Call (List LibraryMemberView)
list_members ports actor request library =
    grant ports actor request view_library (library_ref library) >>= λ granted.
    call (lists_members granted library) (ok_or (ports.members granted library) Members.unavailable)

-- `AppError::Forbidden` and `AppError::NotFound`
abbrev pub is_denial : AppError → Bool
is_denial (forbidden _) = true
is_denial (not_found _) = true
is_denial _ = false

-- The end of `audit_if_denied`, for a use case that answers an error.
unfoldable pub audit_error :
    Ports → ℕ → ℕ → Action → ResourceRef → AppError → Logged Call (Unit {0})
audit_error ports actor request action resource error =
    if is_denial error
    then deny ports error
        (denied actor action resource (error_code error) request ports.use_case.now)
    else (err error, [])

-- `audit_if_denied`, after the calls of the use case.
unfoldable pub audit_if_denied :
    Ports → Logged Members.Call (Unit {0}) → ℕ → ℕ → Action → ResourceRef → Logged Call (Unit {0})
audit_if_denied ports (ok _, calls) actor request action resource = (ok tt, map makes calls)
audit_if_denied ports (err error, calls) actor request action resource =
    let (answer, more) = audit_error ports actor request action resource error in
    (answer, map makes calls ++ more)

-- `LibraryService::update_settings`
unfoldable pub settings : Ports → ℕ → ℕ → ℕ → Text → Option Bool → Logged Call (Unit {0})
settings ports actor request library name reader_download_enabled =
    audit_if_denied ports
      (Members.update_settings ports.use_case actor library name reader_download_enabled request)
      actor request manage_library (library_ref library)

-- `LibraryService::invite_member`; `invitation` is the new identifier.
unfoldable pub invite_to : Ports → ℕ → ℕ → ℕ → ℕ → Text → RoleCode → Logged Call (Unit {0})
invite_to ports actor request library invitation email role =
    audit_if_denied ports
      (Members.invite ports.use_case actor library invitation email role request) actor request
      invite_member (library_ref library)

-- `LibraryService::change_member`
unfoldable pub change_member : Ports → ℕ → ℕ → ℕ → ℕ → RoleCode → Logged Call (Unit {0})
change_member ports actor request library member role =
    audit_if_denied ports
      (Members.change_member_role_of ports.use_case actor library member role request) actor request
      change_member_role (membership_ref library member)

-- `LibraryService::remove_member`
unfoldable pub remove_from : Ports → ℕ → ℕ → ℕ → ℕ → Logged Call (Unit {0})
remove_from ports actor request library member =
    audit_if_denied ports (Members.remove_member_of ports.use_case actor library member request)
      actor request remove_member (membership_ref library member)
