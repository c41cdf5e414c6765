-- ===== src/Identity/Tests.antt =====
-- An account that logs in, and instances of the theorems.
use folioharbor.Prelude.{Bool, List, Option, [], false, none, refl, some, true, ◌↔◌, ◌∷◌, ◌≡◌, ◌≢◌}
use folioharbor.Prelude.Result.{ok}
use folioharbor.Text.Chars.{Text, codes}
use folioharbor.Domain.Email as Email
use folioharbor.Identity.Login.{IssuedSession, LoginIdentity, Ports, log_in, verified}
use folioharbor.Identity.Laws.{checks, log_in-checks}
use folioharbor.Identity.Admission.{IsAdmitted, issued_to, log_in_iff}
use folioharbor.Identity.Sessions.{
  Actor, SafeSession, SessionRecord, current_session, list_sessions, safe,
}
use folioharbor.Identity.Sessions.Laws.{current_session_iff, marked}
use folioharbor.Identity.Reset as Reset
use folioharbor.Identity.Reset.Laws.{elsewhere, request_password_reset-hides, sealed}

abbrev ada : Text
ada = codes "ada@example.org"

abbrev ports : Ports
ports = record {
  find = λ email. some (some (record { user_id = 1; status = verified }));
  verify = λ user_id. true;
  provision = some (λ user_id. true);
  create_session = λ session. true;
  now = 5;
  new_session_id = 9;
}

lasting : (normalized : Text) → ports.find normalized ≢ none
lasting normalized e = cc

log_in-checks_example : checks (log_in ports ada).1 ≡ 1
log_in-checks_example = log_in-checks ports ada lasting

abbrev issued : IssuedSession
issued = record { user_id = 1; session_id = 9 }

log_in_iff_example :
    ((log_in ports ada).0 ≡ ok issued)
    ↔ (normalized : Text) × (identity : LoginIdentity) × (Email.parse ada ≡ ok normalized)
      × (ports.find normalized ≡ some (some identity))
      × IsAdmitted ports identity
      × (issued ≡ issued_to ports identity.user_id)
log_in_iff_example = log_in_iff ports ada issued

abbrev kept : SessionRecord
kept = record {
  session_id = 9;
  created_at = 1;
  last_seen_at = 2;
  idle_expires_at = 10;
  absolute_expires_at = 20;
  revoked_at = none;
}

abbrev actor : Actor
actor = record { user_id = 1; session_id = 9 }

current_session_iff_example :
    (current_session (some (kept ∷ [])) actor 5 ≡ ok (safe kept 9 5))
    ↔ (sessions : List SafeSession) × (list_sessions (some (kept ∷ [])) actor 5 ≡ ok sessions)
      × (marked sessions ≡ some (safe kept 9 5))
current_session_iff_example = current_session_iff (kept ∷ []) actor 5 (safe kept 9 5)

abbrev asked : Reset.Ports
asked = record {
  recipient = λ email. some true;
  is_hashed = true;
  is_sealed = true;
  issue = λ email. true;
  register = λ account. true;
  reset_password = λ session. some none;
  now = 5;
  new_session_id = 9;
}

abbrev nobody : Text → Option Bool
nobody email = some false

answers : (normalized : Text) → asked.recipient normalized ≢ none
answers normalized e = cc

answers_nobody : (normalized : Text) → nobody normalized ≢ none
answers_nobody normalized e = cc

request_password_reset-hides_example :
    ((Reset.request_password_reset asked ada).0
      ≡ (Reset.request_password_reset (elsewhere asked nobody) ada).0)
    × (sealed (Reset.request_password_reset asked ada).1
        ≡ sealed (Reset.request_password_reset (elsewhere asked nobody) ada).1)
request_password_reset-hides_example =
    request_password_reset-hides asked nobody ada answers answers_nobody (λ normalized. refl)
