-- ===== src/Libraries/Invitations.antt =====
-- The acceptance of an invitation: crates/application/src/libraries/accept_invitation.rs. The hash of
-- the token is third-party code: the repository's answer is an argument, `none` where it fails.
use folioharbor.Prelude.{Option, [], none, some, ℕ, ◌++◌, ◌∷◌}
use folioharbor.Prelude.Result.{err, ok, ok_or, ◌>>=◌}
use folioharbor.Text.Chars.{Text, codes}
use folioharbor.Text.Split.{rsplit_once}
use folioharbor.App.{App, conflict}
use folioharbor.Libraries.Members.{unavailable}

pub data AcceptInvitationOutcome : Type 0 where
  accepted : ℕ → AcceptInvitationOutcome
  wrong_account : Text → AcceptInvitationOutcome
  unverified expired consumed unknown : AcceptInvitationOutcome

pub data InvitationAcceptance : Type 0 where
  joined : ℕ → InvitationAcceptance
  for_account : Text → InvitationAcceptance
  not_verified too_late already_used not_valid : InvitationAcceptance

-- The first character of a text, as a text.
abbrev pub first_of : Text → Text
first_of [] = []
first_of (c ∷ s) = c ∷ []

unfoldable pub mask_email : Text → Text
mask_email email = elim (rsplit_once b'@' email) [
  | none ↦ codes "***"
  | some (local, domain) ↦ first_of local ++ (codes "***@" ++ domain)
]

unfoldable pub acceptance_of : AcceptInvitationOutcome → InvitationAcceptance
acceptance_of (accepted library) = joined library
acceptance_of (wrong_account invited_email) = for_account (mask_email invited_email)
acceptance_of unverified = not_verified
acceptance_of expired = too_late
acceptance_of consumed = already_used
acceptance_of unknown = not_valid

-- `execute_detailed`
unfoldable pub accept_detailed : Option AcceptInvitationOutcome → App InvitationAcceptance
accept_detailed outcome = ok_or outcome unavailable >>= λ answered. ok (acceptance_of answered)

abbrev pub library_joined : InvitationAcceptance → App ℕ
library_joined (joined library) = ok library
library_joined _ = err (conflict (codes "invitation_invalid"))

-- `execute`
unfoldable pub accept : Option AcceptInvitationOutcome → App ℕ
accept outcome = accept_detailed outcome >>= library_joined
