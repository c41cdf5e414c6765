-- ===== src/Domain/Upload/Laws.antt =====
-- The codes of the upload states, and the ways that an upload can take through them.
use folioharbor.Prelude.{
  Bool, Bool-cases, List, [], arith, false, inl, inr, refl, some, true, ◌↔◌, ◌∷◌, ◌≡◌, ◌⊎◌,
}
use folioharbor.Text.Chars.{Text, text_eq, text_eq-eq}
use folioharbor.Domain.Upload.{
  UploadState, all_states, as_str, can_transition_to, created, duplicate, expired, failed,
  find_state, importing, parse, queued, ready, received, receiving, validating,
}

find_state-as_str :
    (value : Text) (states : List UploadState) {state : UploadState}
    → find_state value states ≡ some state
    → as_str state ≡ value
unfolding find_state
find_state-as_str value [] e = cc
find_state-as_str value (s ∷ states) e = elim (Bool-cases (text_eq (as_str s) value)) [
  | inl same ↦ ground (arith, text_eq-eq (as_str s) value same)
  | inr other ↦ find_state-as_str value states (rw other at e)
]

parse-as_str : (state : UploadState) → parse (as_str state) ≡ some state
unfolding parse
parse-as_str created = refl
parse-as_str _ = refl

-- A text is parsed as a state exactly when it is the state's code.
pub parse_iff :
    (value : Text) (state : UploadState) → (parse value ≡ some state) ↔ (as_str state ≡ value)
unfolding parse
parse_iff value state = (find_state-as_str value all_states, λ e. rw (← e) (parse-as_str state))

-- A way from one state to another, step by step as `can_transition_to` allows.
pub data Way (s : UploadState) : UploadState → Type 0 where
  here : Way s s
  next : {t u : UploadState} → Way s t → can_transition_to t u ≡ true → Way s u

abbrev pub Visits : UploadState → {s t : UploadState} → Way s t → Type 0
Visits x {s} here = x ≡ s
Visits x (next {u = u} way step) = (x ≡ u) ⊎ Visits x way

-- The states that an upload can be in before it has been in `x`, for the five stages of an import.
abbrev before : UploadState → UploadState → Bool
before receiving created = true
before receiving expired = true
before received created = true
before received expired = true
before received receiving = true
before received failed = true
before queued created = true
before queued expired = true
before queued receiving = true
before queued failed = true
before queued received = true
before validating created = true
before validating expired = true
before validating receiving = true
before validating failed = true
before validating received = true
before validating queued = true
before importing ready = false
before importing duplicate = false
before importing importing = false
before importing t = true
before _ _ = false

before-step :
    (x t u : UploadState)
    → before x t ≡ true
    → can_transition_to t u ≡ true
    → (x ≡ u) ⊎ (before x u ≡ true)
unfolding can_transition_to
before-step x t u b step = ground arith

Visits-or-before :
    (x : UploadState) {s t : UploadState} (way : Way s t)
    → before x s ≡ true
    → Visits x way ⊎ (before x t ≡ true)
Visits-or-before x here b = inr b
Visits-or-before x (next {t = t} {u = u} way step) b = elim (Visits-or-before x way b) [
  | inl seen ↦ inl (inr seen)
  | inr still ↦ elim (before-step x t u still step) [
    | inl now ↦ inl (inl now)
    | inr later ↦ inr later
  ]
]

abbrev pub IsImported : UploadState → Type 0
IsImported t = (t ≡ ready) ⊎ (t ≡ duplicate)

IsImported-not-before : (x t : UploadState) → IsImported t → before x t ≡ false
IsImported-not-before x t h = ground arith

stage_on_way :
    (x : UploadState) {t : UploadState} (way : Way created t)
    → before x created ≡ true
    → IsImported t
    → Visits x way
stage_on_way x {t} way b h = elim (Visits-or-before x way b) [
  | inl seen ↦ seen
  | inr still ↦ absurd (ground (arith, IsImported-not-before x t h))
]

-- Every way of a new upload to `ready` or to `duplicate` goes through all of `receiving`,
-- `received`, `queued`, `validating` and `importing`.
pub import_stages :
    {t : UploadState} (way : Way created t)
    → IsImported t
    → Visits receiving way
      × Visits received way
      × Visits queued way
      × Visits validating way
      × Visits importing way
import_stages way h = (
  stage_on_way receiving way refl h,
  stage_on_way received way refl h,
  stage_on_way queued way refl h,
  stage_on_way validating way refl h,
  stage_on_way importing way refl h,
)

abbrev pub IsFinal : UploadState → Type 0
IsFinal s = (s ≡ ready) ⊎ (s ≡ duplicate) ⊎ (s ≡ expired)

-- A state that each of the other states can go to.
abbrev way_out : UploadState → UploadState
way_out created = receiving
way_out receiving = received
way_out queued = validating
way_out validating = importing
way_out importing = ready
way_out failed = receiving
way_out _ = queued

not-way_out : (s : UploadState) → can_transition_to s (way_out s) ≡ false → IsFinal s
unfolding can_transition_to
not-way_out s h = ground arith

closed_of_IsFinal : (s t : UploadState) → IsFinal s → can_transition_to s t ≡ false
unfolding can_transition_to
closed_of_IsFinal s t h = ground arith

no_loop : (s : UploadState) → can_transition_to s s ≡ false
unfolding can_transition_to
no_loop s = ground arith

-- The states with no way out are `ready`, `duplicate` and `expired`; and no state leads to itself.
pub no_way_out_iff :
    (s : UploadState)
    → (((t : UploadState) → can_transition_to s t ≡ false) ↔ IsFinal s)
      × (can_transition_to s s ≡ false)
no_way_out_iff s =
    ((λ shut. not-way_out s (shut (way_out s)), λ h t. closed_of_IsFinal s t h), no_loop s)
