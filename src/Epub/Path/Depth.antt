-- ===== src/Epub/Path/Depth.antt =====
-- When `normalize_path` accepts a path: the normal paths are its fixed points, and a path is
-- refused when its components climb above the archive's root or end at it.
use mathlib.Core.List.{reverse, reverse-reverse, reverse_aux}
use folioharbor.Prelude.{
  ℕ, zero, suc, ◌≡◌, refl, ap, ◌∙◌, ◌↔◌, ◌⊎◌, inl, inr, true, false, ◌||◌, Option, none, some, List,
  [], ◌∷◌, arith, ◌==◌, if◌then◌else◌, Bool-cases, Option-cases, All, is_empty, length,
  reverse_aux-cons,
}
use folioharbor.Prelude.Result.{ok, err}
use folioharbor.Text.Chars.{Text, codes, contains, starts_with, text_eq}
use folioharbor.Text.Split.{split, join}
use folioharbor.Text.Split.Laws.{join-split, split-cons}
use folioharbor.Epub.Error.{EpubErrorCode, unsafe_path}
use folioharbor.Epub.Path.{
  EpubPath, normalize_component, normalize_components, finish_path, has_unsafe_form, normalize_path,
}
use folioharbor.Epub.Path.Laws.{IsSafeText, IsName, IsNormal, normalize_path-IsNormal}

-- Names are only pushed.
normalize_component_of_IsName :
    (stack : List Text) (part : Text)
    → IsName part
    → normalize_component stack part ≡ some (part ∷ stack)
unfolding normalize_component
normalize_component_of_IsName stack part n = ground arith

normalize_components_of_IsName :
    (stack parts : List Text)
    → All IsName parts
    → normalize_components stack parts ≡ some (reverse_aux parts stack)
unfolding normalize_components
normalize_components_of_IsName stack [] h = refl
normalize_components_of_IsName stack (part ∷ parts) (n, h) = ground (
  arith,
  normalize_component_of_IsName stack part n,
  normalize_components_of_IsName (part ∷ stack) parts h,
)

contains_of_IsSafeText :
    (path : Text)
    → IsSafeText path
    → (contains 0x5c path ≡ false) × (contains 0 path ≡ false) × (contains b':' path ≡ false)
contains_of_IsSafeText [] h = (refl, refl, refl)
contains_of_IsSafeText (x ∷ path) h = ground (arith, contains_of_IsSafeText path)

-- A path whose first part is a name starts with no separator.
starts_with_of_IsName : (path : Text) → All IsName (split b'/' path) → starts_with b'/' path ≡ false
unfolding split
starts_with_of_IsName [] h = refl
starts_with_of_IsName (c ∷ path) h = elim (Bool-cases (c == b'/')) [
  | inl e ↦ absurd (cc (rw e at h).0.nonempty)
  | inr e ↦ e
]

has_unsafe_form_of_IsNormal : (path : Text) → IsNormal path → has_unsafe_form path ≡ false
unfolding has_unsafe_form
has_unsafe_form_of_IsNormal [] h = cc h.nonempty
has_unsafe_form_of_IsNormal (c ∷ path) h =
    ground (
      arith,
      starts_with_of_IsName (c ∷ path) h.names,
      contains_of_IsSafeText (c ∷ path) h.safe_text,
    )

finish_path_of_nonempty :
    (stack : List Text)
    → is_empty stack ≡ false
    → finish_path none (some stack) ≡ ok (join b'/' (reverse stack))
finish_path_of_nonempty [] h = cc
finish_path_of_nonempty (part ∷ stack) h = refl

-- A text is put together again from its parts, which the loop leaves in reverse.
finish_path-split : (path : Text) → finish_path none (some (reverse (split b'/' path))) ≡ ok path
finish_path-split path =
    let (p, ps, e) = split-cons b'/' path in
    let (q, qs, e') = reverse_aux-cons ps p [] in
    let nonempty : is_empty (reverse (split b'/' path)) ≡ false = rw (e, e') refl in
    finish_path_of_nonempty (reverse (split b'/' path)) nonempty
    ∙ ap ok (ap (join b'/') (reverse-reverse (split b'/' path)) ∙ join-split b'/' path)

-- A normal path is left as it is.
pub normalize_path_of_IsNormal : (path : Text) → IsNormal path → normalize_path path false ≡ ok path
unfolding normalize_path
normalize_path_of_IsNormal path h = ground (
  arith,
  has_unsafe_form_of_IsNormal path h,
  contains_of_IsSafeText path h.safe_text,
  normalize_components_of_IsName [] (split b'/' path) h.names,
  finish_path-split path,
)

-- The paths that normalisation leaves as they are, are the normal ones.
pub normalize_path_fixed_iff : (path : Text) → (normalize_path path false ≡ ok path) ↔ IsNormal path
normalize_path_fixed_iff path = (normalize_path-IsNormal path, normalize_path_of_IsNormal path)

-- A path that normalisation accepts is accepted again in its result, and stays the same there.
pub normalize_path_idempotent :
    (path : Text) {q : EpubPath} → normalize_path path false ≡ ok q → normalize_path q false ≡ ok q
normalize_path_idempotent path {q} e = normalize_path_of_IsNormal q (normalize_path-IsNormal path e)

-- The depth below the root that a list of components ends at; `none` where it climbs above it.
abbrev pub down : ℕ → Text → Option ℕ
down zero part =
    if is_empty part || text_eq part (codes ".")
    then some 0
    else if text_eq part (codes "..")
    then none
    else some 1
down (suc d) part =
    if is_empty part || text_eq part (codes ".")
    then some (suc d)
    else if text_eq part (codes "..")
    then some d
    else some (suc (suc d))

pub levels : ℕ → List Text → Option ℕ
levels d [] = some d
levels d (part ∷ parts) = elim (down d part) [ none ↦ none | some d' ↦ levels d' parts ]

abbrev pub height : Option (List Text) → Option ℕ
height none = none
height (some stack) = some (length stack)

height-normalize_component :
    (stack : List Text) (part : Text)
    → height (normalize_component stack part) ≡ down (length stack) part
unfolding normalize_component
height-normalize_component [] part = ground arith
height-normalize_component (top ∷ stack) part = ground arith

height-normalize_components :
    (stack parts : List Text)
    → height (normalize_components stack parts) ≡ levels (length stack) parts
unfolding normalize_components levels
height-normalize_components stack [] = refl
height-normalize_components stack (part ∷ parts) =
    elim (Option-cases (normalize_component stack part)) [
      | inl n ↦ ground (arith, height-normalize_component stack part)
      | inr (stack', n) ↦
          ground
            (arith, height-normalize_component stack part, height-normalize_components stack' parts)
    ]

-- The path is refused without a look at its components.
abbrev pub IsRefusedText : Text → Type 0
IsRefusedText path = (has_unsafe_form path || contains b':' path) ≡ true

accepted_by_height :
    (stack : Option (List Text))
    → (finish_path none stack ≡ err unsafe_path) ↔ ((height stack ≡ none) ⊎ (height stack ≡ some 0))
accepted_by_height none = ground arith
accepted_by_height (some []) = ground arith
accepted_by_height (some (part ∷ stack)) = ground arith

-- A path is refused exactly when its text has a forbidden form, or its components, read as moves
-- from the root, climb above the root or come back to it; and there is no other error.
pub normalize_path_error_iff :
    (path : Text) {code : EpubErrorCode}
    → (normalize_path path false ≡ err code) ↔ (
        (code ≡ unsafe_path)
        × (IsRefusedText path
            ⊎ (levels 0 (split b'/' path) ≡ none)
            ⊎ (levels 0 (split b'/' path) ≡ some 0)))
unfolding normalize_path
normalize_path_error_iff path {code} = ground (
  arith,
  accepted_by_height (normalize_components [] (split b'/' path)),
  height-normalize_components [] (split b'/' path),
)
