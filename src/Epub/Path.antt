-- ===== src/Epub/Path.antt =====
-- Paths inside an EPUB: `normalize_path` and `resolve_path` of crates/epub/src/archive.rs, and the
-- `EpubPath` of crates/epub/src/lib.rs, which holds what `normalize_path` returns.
pub mod Laws
pub mod Depth
pub mod Resolve
mod Tests
use mathlib.Core.List.{reverse}
use folioharbor.Prelude.{
  ℕ, Bool, true, false, ◌||◌, Option, none, some, List, [], ◌∷◌, ◌++◌, if◌then◌else◌, is_empty,
  String,
}
use folioharbor.Prelude.Result.{ok, err, ok_or, ◌>>=◌}
use folioharbor.Text.Chars.{Text, codes, contains, starts_with, text_eq}
use folioharbor.Text.Split.{split, split_once, rsplit_once, before, join}
use folioharbor.Epub.Error.{Checked, unsafe_path}

-- `EpubPath(String)`
abbrev pub EpubPath : Type 0
EpubPath = Text

abbrev pub pop : List Text → Option (List Text)
pop [] = none
pop (part ∷ stack) = some stack

-- One round of the loop over the components; the last component pushed stands first.
pub normalize_component : List Text → Text → Option (List Text)
normalize_component stack part =
    if is_empty part || text_eq part (codes ".")
    then some stack
    else if text_eq part (codes "..")
    then pop stack
    else some (part ∷ stack)

pub normalize_components : List Text → List Text → Option (List Text)
normalize_components stack [] = some stack
normalize_components stack (part ∷ parts) = elim (normalize_component stack part) [
  | none ↦ none
  | some stack' ↦ normalize_components stack' parts
]

-- The path and the fragment, if fragments are looked for and there is a '#'.
abbrev pub cut_fragment : Bool → Text → Text × Option Text
cut_fragment false path = (path, none)
cut_fragment true path = elim (split_once b'#' path) [
  | none ↦ (path, none)
  | some (before_hash, fragment) ↦ (before_hash, some fragment)
]

-- `value.push('#'); value.push_str(fragment)`, for a fragment that is not empty.
abbrev pub append_fragment : Text → Option Text → Text
append_fragment value none = value
append_fragment value (some []) = value
append_fragment value (some (c ∷ fragment)) = value ++ (b'#' ∷ c ∷ fragment)

abbrev pub finish_path : Option Text → Option (List Text) → Checked EpubPath
finish_path fragment none = err unsafe_path
finish_path fragment (some []) = err unsafe_path
finish_path fragment (some (part ∷ stack)) =
    ok (append_fragment (join b'/' (reverse (part ∷ stack))) fragment)

pub has_unsafe_form : Text → Bool
has_unsafe_form path =
    is_empty path
    || starts_with b'/' path
    || starts_with 0x5c path
    || contains 0x5c path
    || contains 0 path

pub normalize_cut : Text × Option Text → Checked EpubPath
unfolding normalize_components normalize_component
normalize_cut (path, fragment) =
    if contains b':' path
    then err unsafe_path
    else finish_path fragment (normalize_components [] (split b'/' path))

unfoldable pub normalize_path : Text → Bool → Checked EpubPath
unfolding has_unsafe_form normalize_cut
normalize_path path allow_fragment =
    if has_unsafe_form path
    then err unsafe_path
    else normalize_cut (cut_fragment allow_fragment path)

-- `EpubPath::new`
unfoldable pub new : Text → Checked EpubPath
unfolding normalize_path
new path = normalize_path path false

abbrev pub directory_of : Option (Text × Text) → Text
directory_of none = []
directory_of (some (directory, leaf)) = directory

abbrev pub join_directory : Text → Text → Text
join_directory [] reference = reference
join_directory (c ∷ directory) reference = (c ∷ directory) ++ (b'/' ∷ reference)

unfoldable pub resolve_path : Text → Text → Checked EpubPath
unfolding normalize_path
resolve_path base reference =
    if starts_with b'#' reference
    then normalize_path (before b'#' base ++ reference) true
    else normalize_path (join_directory (directory_of (rsplit_once b'/' base)) reference) true
