-- ===== src/Domain/Session/Laws.antt =====
-- When a session is good, and that it does not come back.
use folioharbor.Prelude.{Option, arith, none, ℕ, ◌<◌, ◌↔◌, ◌≡◌, ◌≢◌, ◌≤◌}
use folioharbor.Domain.Session.{active, at}

-- A session is active exactly when it is not revoked, it was last seen no later than now, and
-- neither its idle nor its absolute limit is reached.
pub at-active_iff :
    (revoked_at : Option ℕ) (last_seen idle absolute now : ℕ)
    → (at revoked_at last_seen idle absolute now ≡ active)
      ↔ ((revoked_at ≡ none) × (last_seen ≤ now) × (now < idle) × (now < absolute))
unfolding at
at-active_iff revoked_at last_seen idle absolute now = ground arith

-- A session that is not active at an instant after its last use is not active at any later instant,
-- while its limits and its revocation stay as they are.
pub at_stays_out :
    (revoked_at : Option ℕ) (last_seen idle absolute now later : ℕ)
    → last_seen ≤ now
    → now ≤ later
    → at revoked_at last_seen idle absolute now ≢ active
    → at revoked_at last_seen idle absolute later ≢ active
unfolding at
at_stays_out revoked_at last_seen idle absolute now later seen passed out = ground arith
