-- ===== src/Libraries/Service/Laws.antt =====
-- What the service records of its requests, and what it answers.
use mathlib.Core.List.{append-nil}
use folioharbor.Prelude.{
  Bool, List, Option, Option-cases, [], ap, arith, false, if◌then◌else◌, inl, inr, map, none, refl,
  some, sym, true, ℕ, ◌&&◌, ◌++◌, ◌==◌, ◌∙◌, ◌∷◌, ◌≡◌,
}
use folioharbor.Prelude.Result.{Result-cases, err, ok, ok_or}
use folioharbor.Text.Chars.{Text, codes}
use folioharbor.App.{App, AppError, forbidden, not_found}
use folioharbor.Domain.Codes.{RoleCode}
use folioharbor.Access.{
  Action, AuditEvent, AuthorizationFact, AuthorizationGrant, Resolve, ResourceRef, allowed, api,
  audit_denied, change_member_role, decide_fact, denied, invite_member, library_of, library_ref,
  manage_library, membership_ref, remove_member, require, view_library,
}
use folioharbor.Libraries.Members as Members
use folioharbor.Libraries.Service.{
  Call, Ports, audit_error, audit_if_denied, change_member, deny, error_code, found_library,
  get_library, gets_library, grant, invite_to, list_members, lists_members, makes, records_denial,
  remove_from, settings,
}
use folioharbor.Uploads.Log.{Logged, call, ◌>>=◌}

-- The reasons that are recorded of an answer to a change: an answer that something is forbidden or not
-- found has one, and no other answer has any.
abbrev pub refusals : App (Unit {0}) → List Text
refusals (err (forbidden code)) = code ∷ []
refusals (err (not_found code)) = code ∷ []
refusals _ = []

-- The reasons that are recorded of a request to view a library, by what the repository resolves.
abbrev pub causes : ℕ → Option (Option AuthorizationFact) → List Text
causes library none = codes "authorization_repository_unavailable" ∷ []
causes library (some none) = codes "library_not_found" ∷ []
causes library (some (some fact)) =
    if fact.discoverable && fact.library_id == library
    then (if fact.permitted then [] else codes "library_action_forbidden" ∷ [])
    else codes "library_not_found" ∷ []

-- The denials that some calls record.
abbrev pub denials : List Call → List AuditEvent
denials [] = []
denials (records_denial event ∷ calls) = event ∷ denials calls
denials (_ ∷ calls) = denials calls

require-causes :
    (resolve : Resolve) (actor library : ℕ) (grant : AuthorizationGrant)
    → require resolve actor view_library (library_ref library) ≡ ok grant
    → causes library (resolve actor view_library (library_ref library)) ≡ []
unfolding require decide_fact library_of
require-causes resolve actor library grant e =
    elim (Option-cases (resolve actor view_library (library_ref library))) [
      | inl failed ↦ absurd (ground arith)
      | inr (none, unknown) ↦ absurd (ground arith)
      | inr (some fact, known) ↦ rw known (ground (arith, rw (known, require) at e))
    ]

require-cause :
    (resolve : Resolve) (actor library : ℕ) (error : AppError)
    → require resolve actor view_library (library_ref library) ≡ err error
    → causes library (resolve actor view_library (library_ref library)) ≡ error_code error ∷ []
unfolding require decide_fact library_of error_code
require-cause resolve actor library error e =
    elim (Option-cases (resolve actor view_library (library_ref library))) [
      | inl failed ↦ rw failed (ground (arith, rw (failed, require) at e))
      | inr (none, unknown) ↦ rw unknown (ground (arith, rw (unknown, require) at e))
      | inr (some fact, known) ↦ rw known (ground (arith, rw (known, require) at e))
    ]

-- A denial ends the request, whether it is recorded or not.
ended-denials :
    {A : Type 0} (is_recorded : Bool) (error failure : AppError) (event : AuditEvent)
    (rest : AuthorizationGrant → Logged Call A)
    → denials
        (call (records_denial event) (if is_recorded then err error else err failure) >>= rest).1
      ≡ event ∷ []
ended-denials true error failure event rest = refl
ended-denials false error failure event rest = refl

module _ (ports : Ports) (actor request library : ℕ) where
  -- The record of a denial.
  abbrev pub denial : Action → ResourceRef → Text → AuditEvent
  denial action resource code = record {
    actor = some actor;
    effective_actor = some actor;
    library_id = library;
    action = action;
    resource = resource;
    decision = audit_denied;
    reason_code = some code;
    request_id = request;
    source = api;
    occurred_at = ports.use_case.now;
    network_hmac = none;
  }

  -- The request answers as the use case does and makes the same calls; after them, the reason is
  -- recorded if it is one.
  abbrev pub IsAudited :
      Logged Members.Call (Unit {0}) → Action → ResourceRef → Logged Call (Unit {0}) → Type 0
  IsAudited use_case action resource run =
      (run.0 ≡ use_case.0)
      × (run.1
          ≡ map makes use_case.1
            ++ map (λ code. records_denial (denial action resource code)) (refusals use_case.0))

  denied-denial :
      (action : Action) (resource : ResourceRef) (code : Text)
      → library_of resource ≡ library
      → denied actor action resource code request ports.use_case.now ≡ denial action resource code
  unfolding denied allowed
  denied-denial action resource code e = rw e refl

  grant-denials :
      (calls : AuthorizationGrant → Call)
      → ((granted : AuthorizationGrant) → denials (calls granted ∷ []) ≡ [])
      → {A : Type 0} (answer : AuthorizationGrant → App A)
      → denials
          (grant ports actor request view_library (library_ref library) >>= λ granted.
            call (calls granted) (answer granted)).1
        ≡ map
            (denial view_library (library_ref library))
            (causes library (ports.use_case.resolve actor view_library (library_ref library)))
  unfolding grant deny library_of
  grant-denials calls silent answer =
      let resolve = ports.use_case.resolve in
      let resource = library_ref library in
      elim (Result-cases (require resolve actor view_library resource)) [
        | inl (granted, e) ↦
            rw (grant, e, require-causes resolve actor library granted e) (silent granted)
        | inr (error, e) ↦
            rw (grant, e, deny, require-cause resolve actor library error e)
              (ended-denials _ error _ _ (λ granted. call (calls granted) (answer granted))
                ∙ ap (λ event. event ∷ [])
                    (denied-denial view_library resource (error_code error) refl))
      ]

  module _ (recorded : (event : AuditEvent) → ports.record_denial event ≡ true) where
    audit_if_denied-IsAudited :
        (use_case : Logged Members.Call (Unit {0})) (action : Action) (resource : ResourceRef)
        → library_of resource ≡ library
        → IsAudited use_case action resource
            (audit_if_denied ports use_case actor request action resource)
    unfolding audit_if_denied audit_error deny error_code
    audit_if_denied-IsAudited (ok _, calls) action resource e =
        (refl, sym (append-nil (map makes calls)))
    audit_if_denied-IsAudited (err (forbidden code), calls) action resource e =
        let same = denied-denial action resource code e in
        (
          rw (recorded (denied actor action resource code request ports.use_case.now)) refl,
          rw same refl,
        )
    audit_if_denied-IsAudited (err (not_found code), calls) action resource e =
        let same = denied-denial action resource code e in
        (
          rw (recorded (denied actor action resource code request ports.use_case.now)) refl,
          rw same refl,
        )
    audit_if_denied-IsAudited (err _, calls) action resource e = (refl, refl)

    -- If the audit sink records what it is given, each change through the service (of settings, of a
    -- role, a removal and an invitation) answers as its use case and makes its calls, and records one
    -- denial after them if the answer is that something is forbidden or not found, with the code of the
    -- answer as its reason, and none otherwise; and a view of the library or of its members records one
    -- denial, with its cause, exactly where the repository fails, does not know the library, knows it
    -- hidden or as another one, or does not permit the view.
    pub service-IsAudited :
        (invitation member : ℕ) (name email : Text) (reader_download_enabled : Option Bool)
        (role : RoleCode)
        → IsAudited
            (Members.update_settings ports.use_case actor library name reader_download_enabled
              request)
            manage_library
            (library_ref library)
            (settings ports actor request library name reader_download_enabled)
          × IsAudited
              (Members.change_member_role_of ports.use_case actor library member role request)
              change_member_role
              (membership_ref library member)
              (change_member ports actor request library member role)
          × IsAudited
              (Members.remove_member_of ports.use_case actor library member request)
              remove_member
              (membership_ref library member)
              (remove_from ports actor request library member)
          × IsAudited
              (Members.invite ports.use_case actor library invitation email role request)
              invite_member
              (library_ref library)
              (invite_to ports actor request library invitation email role)
          × (denials (get_library ports actor request library).1
              ≡ map (denial view_library (library_ref library)) (
                  causes library (ports.use_case.resolve actor view_library (library_ref library))))
          × (denials (list_members ports actor request library).1
              ≡ map (denial view_library (library_ref library)) (
                  causes library (ports.use_case.resolve actor view_library (library_ref library))))
    unfolding get_library list_members settings change_member remove_from invite_to library_of
    service-IsAudited invitation member name email reader_download_enabled role = (
      audit_if_denied-IsAudited _ manage_library (library_ref library) refl,
      audit_if_denied-IsAudited _ change_member_role (membership_ref library member) refl,
      audit_if_denied-IsAudited _ remove_member (membership_ref library member) refl,
      audit_if_denied-IsAudited _ invite_member (library_ref library) refl,
      grant-denials (λ granted. gets_library granted library) (λ granted. refl)
          (λ granted. found_library (ports.library granted library)),
      grant-denials (λ granted. lists_members granted library) (λ granted. refl)
          (λ granted. ok_or (ports.members granted library) Members.unavailable),
    )
