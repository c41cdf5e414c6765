-- ===== src/Libraries/Tests.antt =====
-- A library with an owner, and instances of the theorems.
use folioharbor.Prelude.{All, [], false, map, none, refl, some, true, ◌↔◌, ◌≡◌}
use folioharbor.Prelude.Result.{err, ok}
use folioharbor.Text.Chars.{Text, codes}
use folioharbor.App.{dependency_unavailable, forbidden, not_found}
use folioharbor.Domain.Codes.{RoleCode}
use folioharbor.Domain.Email as Email
use folioharbor.Access.{
  Action, AuthorizationFact, AuthorizationGrant, invitation_ref, invite_member, library_ref,
  manage_library, membership_ref, require, view_library,
}
use folioharbor.Access.Laws.{IsHidden, IsKnown, grant_of_fact, require_error_iff, require_iff}
use folioharbor.Libraries.Members.{
  Ports, applied, change_member_role_of, invite, is_owner, remove_member_of, update_settings,
}
use folioharbor.Libraries.Service as Service
use folioharbor.Libraries.Service.Laws.{IsAudited, causes, denial, denials, service-IsAudited}
use folioharbor.Libraries.Laws.{Licensed, members-Licensed}
use folioharbor.Libraries.Sending.{invite_iff, stores}
use folioharbor.Libraries.Invitations.{mask_email}
use folioharbor.Text.Split.{rsplit_once}

abbrev fact : AuthorizationFact
fact = record {
  library_id = 7;
  role = RoleCode.owner;
  membership_version = 1;
  discoverable = true;
  permitted = true;
}

abbrev ports : Ports
ports = record {
  resolve = λ actor action resource. some (some fact);
  now = 5;
  mutate = λ made. some applied;
  is_sealed = true;
}

masks : mask_email (codes "ada@example.org") ≡ codes "a***@example.org"
unfolding mask_email rsplit_once
masks = refl

require_iff_example :
    (require ports.resolve 1 manage_library (library_ref 7)
      ≡ ok (grant_of_fact ports.resolve 1 manage_library (library_ref 7) fact))
    ↔ (f : AuthorizationFact) × IsKnown ports.resolve 1 manage_library (library_ref 7) f
      × (f.permitted ≡ true)
      × (grant_of_fact ports.resolve 1 manage_library (library_ref 7) fact
          ≡ grant_of_fact ports.resolve 1 manage_library (library_ref 7) f)
require_iff_example =
    require_iff ports.resolve 1 manage_library (library_ref 7)
      (grant_of_fact ports.resolve 1 manage_library (library_ref 7) fact)

require_error_iff_example :
    ((require ports.resolve 1 manage_library (library_ref 7)
        ≡ err (forbidden (codes "library_action_forbidden")))
      ↔ (f : AuthorizationFact) × IsKnown ports.resolve 1 manage_library (library_ref 7) f
        × (f.permitted ≡ false))
    × ((require ports.resolve 1 manage_library (library_ref 7)
          ≡ err (not_found (codes "library_not_found")))
        ↔ IsHidden ports.resolve 1 manage_library (library_ref 7))
    × ((require ports.resolve 1 manage_library (library_ref 7)
          ≡ err (dependency_unavailable (codes "authorization_repository_unavailable")))
        ↔ (ports.resolve 1 manage_library (library_ref 7) ≡ none))
require_error_iff_example = require_error_iff ports.resolve 1 manage_library (library_ref 7)

members-Licensed_example :
    All (Licensed ports 1 7 9) (change_member_role_of ports 1 7 2 RoleCode.editor 9).1
    × All (Licensed ports 1 7 9) (remove_member_of ports 1 7 2 9).1
    × All (Licensed ports 1 7 9) (update_settings ports 1 7 (codes "Home") none 9).1
    × All (Licensed ports 1 7 9) (invite ports 1 7 3 (codes "ada@example.org") RoleCode.editor 9).1
members-Licensed_example =
    members-Licensed ports 1 7 9 2 3 RoleCode.editor (codes "Home") (codes "ada@example.org") none

invite_iff_example :
    ((invite ports 1 7 3 (codes "ada@example.org") RoleCode.editor 9).0 ≡ ok tt)
    ↔ (is_owner RoleCode.editor ≡ false)
      × (normalized : Text) × (grant : AuthorizationGrant) × (Email.parse (codes "ada@example.org")
          ≡ ok normalized)
      × (require ports.resolve 1 invite_member (invitation_ref 7 3) ≡ ok grant)
      × (ports.is_sealed ≡ true)
      × (ports.mutate (stores ports 1 7 3 9 grant normalized RoleCode.editor) ≡ some applied)
invite_iff_example = invite_iff ports 1 7 3 9 (codes "ada@example.org") RoleCode.editor

-- The service over the library.
abbrev served : Service.Ports
served = record {
  use_case = ports;
  visible = λ actor. some [];
  library = λ granted library. some none;
  members = λ granted library. some [];
  record_denial = λ event. true;
}

service-IsAudited_example :
    IsAudited served 1 9 7
      (update_settings ports 1 7 (codes "Home") none 9)
      manage_library
      (library_ref 7)
      (Service.settings served 1 9 7 (codes "Home") none)
    × IsAudited served 1 9 7
        (change_member_role_of ports 1 7 2 RoleCode.editor 9)
        Action.change_member_role
        (membership_ref 7 2)
        (Service.change_member served 1 9 7 2 RoleCode.editor)
    × IsAudited served 1 9 7
        (remove_member_of ports 1 7 2 9)
        Action.remove_member
        (membership_ref 7 2)
        (Service.remove_from served 1 9 7 2)
    × IsAudited served 1 9 7
        (invite ports 1 7 3 (codes "ada@example.org") RoleCode.editor 9)
        invite_member
        (library_ref 7)
        (Service.invite_to served 1 9 7 3 (codes "ada@example.org") RoleCode.editor)
    × (denials (Service.get_library served 1 9 7).1
        ≡ map
            (denial served 1 9 7 view_library (library_ref 7))
            (causes 7 (ports.resolve 1 view_library (library_ref 7))))
    × (denials (Service.list_members served 1 9 7).1
        ≡ map
            (denial served 1 9 7 view_library (library_ref 7))
            (causes 7 (ports.resolve 1 view_library (library_ref 7))))
service-IsAudited_example =
    service-IsAudited served 1 9 7 (λ event. refl) 3 2 (codes "Home") (codes "ada@example.org") none
      RoleCode.editor
