-- ===== src/Identity/Sessions.antt =====
-- The sessions of an account: `CurrentSession`, `ListSessions` and `RevokeSession` of
-- crates/application/src/identity/sessions.rs. The repository's answers are arguments, `none` where
-- it fails.
pub mod Laws
use folioharbor.Prelude.{Bool, List, Option, [], if◌then◌else◌, map, none, not, some, ℕ, ◌==◌, ◌∷◌}
use folioharbor.Prelude.Result.{err, ok, ok_or, ◌>>=◌}
use folioharbor.Text.Chars.{codes}
use folioharbor.App.{App, internal, not_found}
use folioharbor.Domain.Session.{SessionStatus, at}

pub record Actor : Type 0 where
  pub user_id : ℕ
  pub session_id : ℕ

pub record SessionRecord : Type 0 where
  pub session_id : ℕ
  pub created_at : ℕ
  pub last_seen_at : ℕ
  pub idle_expires_at : ℕ
  pub absolute_expires_at : ℕ
  pub revoked_at : Option ℕ

pub record SafeSession : Type 0 where
  pub session_id : ℕ
  pub is_current : Bool
  pub status : SessionStatus
  pub created_at : Option ℕ
  pub last_seen_at : Option ℕ
  pub idle_expires_at : Option ℕ
  pub absolute_expires_at : Option ℕ

unfoldable pub safe : SessionRecord → ℕ → ℕ → SafeSession
safe r current now = record {
  session_id = r.session_id;
  is_current = r.session_id == current;
  status = at r.revoked_at r.last_seen_at r.idle_expires_at r.absolute_expires_at now;
  created_at = some r.created_at;
  last_seen_at = some r.last_seen_at;
  idle_expires_at = some r.idle_expires_at;
  absolute_expires_at = some r.absolute_expires_at;
}

-- `find(|record| record.session_id == actor.session_id)`
unfoldable pub find_session : ℕ → List SessionRecord → Option SessionRecord
find_session id [] = none
find_session id (r ∷ records) =
    let rest = find_session id records in if r.session_id == id then some r else rest

-- `CurrentSession::execute`
unfoldable pub current_session : Option (List SessionRecord) → Actor → ℕ → App SafeSession
current_session records actor now = do
  known ← ok_or records internal
  r ← ok_or (find_session actor.session_id known) (not_found (codes "session_not_found"))
  ok (safe r actor.session_id now)

-- `ListSessions::execute`
unfoldable pub list_sessions : Option (List SessionRecord) → Actor → ℕ → App (List SafeSession)
list_sessions records actor now =
    ok_or records internal >>= λ known. ok (map (λ r. safe r actor.session_id now) known)

-- `RevokeSession::execute`: whether the session that is revoked is the actor's own.
unfoldable pub revoke_session : Option Bool → Actor → ℕ → App Bool
revoke_session found actor session_id = ok_or found internal >>= λ revoked.
    if not revoked
    then err (not_found (codes "session_not_found"))
    else ok (session_id == actor.session_id)
