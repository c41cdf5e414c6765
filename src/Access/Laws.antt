-- ===== src/Access/Laws.antt =====
-- When an action is granted, and what a refusal tells.
use folioharbor.Prelude.{
  Bool-cases, Option-cases, arith, false, inl, inr, none, refl, some, true, ℕ, ◌↔◌, ◌≡◌, ◌≢◌, ◌⊎◌,
}
use folioharbor.Prelude.Result.{err, ok}
use folioharbor.Text.Chars.{codes}
use folioharbor.App.{dependency_unavailable, forbidden, not_found}
use folioharbor.Access.{
  Action, AuditEvent, AuthorizationFact, AuthorizationGrant, Resolve, ResourceRef, allowed,
  decide_fact, library_of, require,
}

module _ (resolve : Resolve) (actor : ℕ) (action : Action) (resource : ResourceRef) where
  -- The repository knows the resource, the actor may know of it, and it is of the library that the
  -- request names.
  pub record IsKnown (fact : AuthorizationFact) : Type 0 where
    pub resolved : resolve actor action resource ≡ some (some fact)
    pub discoverable : fact.discoverable ≡ true
    pub same_library : fact.library_id ≡ library_of resource

  abbrev pub grant_of_fact : AuthorizationFact → AuthorizationGrant
  grant_of_fact fact = record {
    actor = actor;
    library_id = fact.library_id;
    role = fact.role;
    action = action;
    resource = resource;
    membership_version = fact.membership_version;
  }

  decide_fact-ok :
      (fact : AuthorizationFact) {grant : AuthorizationGrant}
      → decide_fact actor action resource fact ≡ ok grant
      → (fact.discoverable ≡ true)
        × (fact.library_id ≡ library_of resource)
        × (fact.permitted ≡ true)
        × (grant ≡ grant_of_fact fact)
  unfolding decide_fact
  decide_fact-ok fact e = ground arith

  require-ok :
      {grant : AuthorizationGrant}
      → require resolve actor action resource ≡ ok grant
      → (fact : AuthorizationFact) × IsKnown fact
        × (fact.permitted ≡ true)
        × (grant ≡ grant_of_fact fact)
  unfolding require
  require-ok e = elim (Option-cases (resolve actor action resource)) [
    | inl failed ↦ absurd (ground arith)
    | inr (none, unknown) ↦ absurd (ground arith)
    | inr (some fact, resolved) ↦
        let (discoverable, same_library, permitted, made) =
          decide_fact-ok fact (rw (resolved, require) at e) in
        (
          fact,
          record { resolved = resolved; discoverable = discoverable; same_library = same_library },
          permitted,
          made,
        )
  ]

  -- An action is granted exactly when the repository resolves it to a fact of the library that the
  -- resource is in, which the actor may discover and which permits the action; the grant is then for
  -- that actor, action and resource, with the role and version of the fact.
  pub require_iff :
      (grant : AuthorizationGrant)
      → (require resolve actor action resource ≡ ok grant)
        ↔ (fact : AuthorizationFact) × IsKnown fact
          × (fact.permitted ≡ true)
          × (grant ≡ grant_of_fact fact)
  unfolding require decide_fact
  require_iff grant = (
    require-ok,
    λ (fact, known, permitted, same).
        rw same (ground (arith, known.resolved, known.discoverable, known.same_library)),
  )

  decide_fact-forbidden :
      (fact : AuthorizationFact)
      → decide_fact actor action resource fact ≡ err (forbidden (codes "library_action_forbidden"))
      → (fact.discoverable ≡ true)
        × (fact.library_id ≡ library_of resource)
        × (fact.permitted ≡ false)
  unfolding decide_fact
  decide_fact-forbidden fact e = ground arith

  decide_fact-lasting :
      (fact : AuthorizationFact)
      → decide_fact actor action resource fact
        ≢ err (dependency_unavailable (codes "authorization_repository_unavailable"))
  unfolding decide_fact
  decide_fact-lasting fact = ground arith

  require-forbidden :
      require resolve actor action resource ≡ err (forbidden (codes "library_action_forbidden"))
      → (fact : AuthorizationFact) × IsKnown fact × (fact.permitted ≡ false)
  unfolding require
  require-forbidden e = elim (Option-cases (resolve actor action resource)) [
    | inl failed ↦ absurd (ground arith)
    | inr (none, unknown) ↦ absurd (ground arith)
    | inr (some fact, resolved) ↦
        let (discoverable, same_library, refused) =
          decide_fact-forbidden fact (rw (resolved, require) at e) in
        (
          fact,
          record { resolved = resolved; discoverable = discoverable; same_library = same_library },
          refused,
        )
  ]

  require-unavailable :
      require resolve actor action resource
        ≡ err (dependency_unavailable (codes "authorization_repository_unavailable"))
      → resolve actor action resource ≡ none
  unfolding require
  require-unavailable e = elim (Option-cases (resolve actor action resource)) [
    | inl failed ↦ failed
    | inr (none, unknown) ↦ absurd (ground arith)
    | inr (some fact, resolved) ↦ absurd (decide_fact-lasting fact (rw (resolved, require) at e))
  ]

  decide_fact-hidden :
      (fact : AuthorizationFact)
      → decide_fact actor action resource fact ≡ err (not_found (codes "library_not_found"))
      → (fact.discoverable ≡ false) ⊎ (fact.library_id ≢ library_of resource)
  unfolding decide_fact
  decide_fact-hidden fact e = elim (Bool-cases fact.discoverable) [
    | inr hidden ↦ inl hidden
    | inl shown ↦ inr (λ same. ground (arith, shown, same))
  ]

  decide_fact-unknown :
      (fact : AuthorizationFact)
      → ((fact.discoverable ≡ false) ⊎ (fact.library_id ≢ library_of resource))
      → decide_fact actor action resource fact ≡ err (not_found (codes "library_not_found"))
  unfolding decide_fact
  decide_fact-unknown fact (inl hidden) = rw hidden refl
  decide_fact-unknown fact (inr foreign) = ground (arith, foreign)

  -- A resource of which the actor is not to know: the repository does not know it, or knows it hidden
  -- from the actor or in another library.
  abbrev pub IsHidden : Type 0
  IsHidden =
      (resolve actor action resource ≡ some none)
      ⊎ ((fact : AuthorizationFact) × (resolve actor action resource ≡ some (some fact))
          × ((fact.discoverable ≡ false) ⊎ (fact.library_id ≢ library_of resource)))

  require-hidden :
      require resolve actor action resource ≡ err (not_found (codes "library_not_found")) → IsHidden
  unfolding require
  require-hidden e = elim (Option-cases (resolve actor action resource)) [
    | inl failed ↦ absurd (ground arith)
    | inr (none, unknown) ↦ inl unknown
    | inr (some fact, resolved) ↦
        inr (fact, resolved, decide_fact-hidden fact (rw (resolved, require) at e))
  ]

  require-unknown :
      IsHidden → require resolve actor action resource ≡ err (not_found (codes "library_not_found"))
  unfolding require
  require-unknown (inl unknown) = rw (unknown, require) refl
  require-unknown (inr (fact, resolved, hidden)) =
      rw (resolved, require) (decide_fact-unknown fact hidden)

  -- Each refusal has its one cause. The action is forbidden exactly where the actor may discover the
  -- resource, in the library of the request, and is not permitted the action; the library is not found
  -- exactly where the repository does not know the resource, or knows it hidden from the actor or in
  -- another library, so that these cases answer alike; and a dependency is unavailable exactly where
  -- the repository fails.
  pub require_error_iff :
      ((require resolve actor action resource ≡ err (forbidden (codes "library_action_forbidden")))
        ↔ (fact : AuthorizationFact) × IsKnown fact × (fact.permitted ≡ false))
      × ((require resolve actor action resource ≡ err (not_found (codes "library_not_found")))
          ↔ IsHidden)
      × ((require resolve actor action resource
            ≡ err (dependency_unavailable (codes "authorization_repository_unavailable")))
          ↔ (resolve actor action resource ≡ none))
  unfolding require decide_fact
  require_error_iff = (
    (
      require-forbidden,
      λ (fact, known, refused).
          ground (arith, known.resolved, known.discoverable, known.same_library),
    ),
    (require-hidden, require-unknown),
    (require-unavailable, λ failed. ground arith),
  )

-- What a call of a repository carries when the action is licensed: the grant that `require` gives
-- for the actor, the action and the resource, and the record of it for the audit.
pub record IsLicensed (resolve : Resolve) (actor : ℕ) (action : Action) (resource : ResourceRef)
    (request now : ℕ) (grant : AuthorizationGrant) (audit : AuditEvent) : Type 0 where
  pub granted : require resolve actor action resource ≡ ok grant
  pub recorded : audit ≡ allowed actor action resource request now
