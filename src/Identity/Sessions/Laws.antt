-- ===== src/Identity/Sessions/Laws.antt =====
-- The list of an actor's sessions and the current one agree.
use folioharbor.Prelude.{
  Bool-cases, List, Option, Option-cases, [], arith, if◌then◌else◌, inl, inr, map, none, refl, some,
  ℕ, ◌==◌, ◌↔◌, ◌∷◌, ◌≡◌,
}
use folioharbor.Prelude.Result.{ok}
use folioharbor.Identity.Sessions.{
  Actor, SafeSession, SessionRecord, current_session, find_session, list_sessions, safe,
}

-- The first session that is marked as the current one.
abbrev pub marked : List SafeSession → Option SafeSession
marked [] = none
marked (s ∷ sessions) = let rest = marked sessions in if s.is_current then some s else rest

abbrev pub shown : Option SessionRecord → ℕ → ℕ → Option SafeSession
shown none current now = none
shown (some r) current now = some (safe r current now)

marked-find_session :
    (id now : ℕ) (records : List SessionRecord)
    → marked (map (λ r. safe r id now) records) ≡ shown (find_session id records) id now
unfolding find_session safe
marked-find_session id now [] = refl
marked-find_session id now (r ∷ records) = elim (Bool-cases (r.session_id == id)) [
  | inl here ↦ ground (arith, here)
  | inr elsewhere ↦ rw elsewhere (marked-find_session id now records)
]

-- The current session is the one that the list of the sessions marks, with the same data: whatever
-- the repository knows, the actor is told of it exactly when the list marks it.
pub current_session_iff :
    (records : List SessionRecord) (actor : Actor) (now : ℕ) (s : SafeSession)
    → (current_session (some records) actor now ≡ ok s)
      ↔ (sessions : List SafeSession) × (list_sessions (some records) actor now ≡ ok sessions)
        × (marked sessions ≡ some s)
unfolding current_session list_sessions
current_session_iff records actor now s =
    let same = marked-find_session actor.session_id now records in
    elim (Option-cases (find_session actor.session_id records)) [
      | inl missing ↦ (λ e. absurd (ground arith), λ (sessions, listed, m). absurd (ground arith))
      | inr (r, found) ↦ (
        λ e. (map (λ r. safe r actor.session_id now) records, refl, ground arith),
        λ (sessions, listed, m). ground arith,
      )
    ]
