-- ===== src/Domain/Session.antt =====
-- The status of a session: crates/domain/src/identity/session.rs. An instant is a number of
-- nanoseconds.
pub mod Laws
use folioharbor.Prelude.{Option, if◌then◌else◌, is_some, leb, ltb, ℕ, ◌||◌}

pub data SessionStatus : Type 0 where
  active idle_expired absolutely_expired revoked : SessionStatus

-- `SessionStatus::at`
unfoldable pub at : Option ℕ → ℕ → ℕ → ℕ → ℕ → SessionStatus
at revoked_at last_seen_at idle_expires_at absolute_expires_at now =
    if is_some revoked_at
    then revoked
    else if leb absolute_expires_at now
    then absolutely_expired
    else if leb idle_expires_at now || ltb now last_seen_at
    then idle_expired
    else active
