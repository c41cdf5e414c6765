-- ===== src/Domain/Upload.antt =====
-- The states of an upload: crates/domain/src/imports/upload.rs.
pub mod Laws
use folioharbor.Prelude.{Bool, List, Option, [], false, if◌then◌else◌, none, some, true, ◌∷◌}
use folioharbor.Text.Chars.{Text, codes, text_eq}

pub data UploadState : Type 0 where
  created receiving received queued validating importing ready : UploadState
  duplicate failed expired retry_wait operator_required : UploadState

abbrev pub all_states : List UploadState
all_states =
    created ∷ receiving ∷ received ∷ queued ∷ validating ∷ importing ∷ ready ∷ duplicate ∷ failed
    ∷ expired ∷ retry_wait ∷ operator_required ∷ []

unfoldable pub as_str : UploadState → Text
as_str created = codes "created"
as_str receiving = codes "receiving"
as_str received = codes "received"
as_str queued = codes "queued"
as_str validating = codes "validating"
as_str importing = codes "importing"
as_str ready = codes "ready"
as_str duplicate = codes "duplicate"
as_str failed = codes "failed"
as_str expired = codes "expired"
as_str retry_wait = codes "retry_wait"
as_str operator_required = codes "operator_required"

-- `into_iter().find(…)`
unfoldable pub find_state : Text → List UploadState → Option UploadState
unfolding as_str
find_state value [] = none
find_state value (state ∷ states) =
    let rest = find_state value states in if text_eq (as_str state) value then some state else rest

unfoldable pub parse : Text → Option UploadState
unfolding find_state
parse value = find_state value all_states

unfoldable pub can_transition_to : UploadState → UploadState → Bool
can_transition_to created receiving = true
can_transition_to created expired = true
can_transition_to receiving received = true
can_transition_to receiving failed = true
can_transition_to received queued = true
can_transition_to retry_wait queued = true
can_transition_to operator_required queued = true
can_transition_to queued validating = true
can_transition_to validating importing = true
can_transition_to validating failed = true
can_transition_to validating retry_wait = true
can_transition_to validating operator_required = true
can_transition_to importing ready = true
can_transition_to importing duplicate = true
can_transition_to importing failed = true
can_transition_to importing retry_wait = true
can_transition_to importing operator_required = true
can_transition_to failed receiving = true
can_transition_to _ _ = false
