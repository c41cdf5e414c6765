-- ===== src/Epub/Path/Resolve.antt =====
-- A reference that is resolved against a document names a normal path and perhaps a fragment.
use folioharbor.Prelude.{
  ℕ, ◌≡◌, refl, ◌↔◌, inl, inr, Bool, true, false, not, ◌&&◌, Option, none, some, [], ◌∷◌, ◌++◌,
  arith, ◌==◌, Bool-cases, Option-cases, all,
}
use folioharbor.Prelude.Result.{ok}
use folioharbor.Text.Chars.{Text, contains, starts_with}
use folioharbor.Text.Split.{split_once, rsplit_once, before}
use folioharbor.Epub.Path.{
  EpubPath, append_fragment, normalize_cut, normalize_path, new, directory_of, join_directory,
  resolve_path,
}
use folioharbor.Epub.Path.Laws.{
  is_safe_char, IsSafeText, safe_of_form, normalize_cut-no_colon, IsNormal, normalize_cut-IsJoined,
}
use folioharbor.Epub.Path.Depth.{normalize_path_of_IsNormal}

split_once-contains : (sep : ℕ) (s : Text) → split_once sep s ≡ none → contains sep s ≡ false
unfolding split_once
split_once-contains sep [] h = refl
split_once-contains sep (c ∷ s) h = ground (arith, split_once-contains sep s)

-- What is cut off before the first separator does not hold it, and is a part of the text.
split_once-some :
    (sep : ℕ) (f : ℕ → Bool) (s : Text) {p : Text × Text}
    → split_once sep s ≡ some p
    → all f s ≡ true
    → (contains sep p.0 ≡ false) × (all f p.0 ≡ true)
unfolding split_once
split_once-some sep f [] e h = cc
split_once-some sep f (c ∷ s) e h = elim (Bool-cases (c == sep)) [
  | inl t ↦ ground arith
  | inr t ↦ elim (Option-cases (split_once sep s)) [
    | inl n ↦ ground arith
    | inr (p, n) ↦ ground (arith, split_once-some sep f s n)
  ]
]

before-append : (sep : ℕ) (p s : Text) → contains sep p ≡ false → before sep (p ++ (sep ∷ s)) ≡ p
unfolding before
before-append sep [] s h = ground arith
before-append sep (c ∷ p) s h = ground (arith, before-append sep p s)

before_of_missing : (sep : ℕ) (p : Text) → contains sep p ≡ false → before sep p ≡ p
unfolding before
before_of_missing sep [] h = refl
before_of_missing sep (c ∷ p) h = ground (arith, before_of_missing sep p)

before-append_fragment :
    (p : Text) (fragment : Option Text)
    → contains b'#' p ≡ false
    → before b'#' (append_fragment p fragment) ≡ p
before-append_fragment p none h = before_of_missing b'#' p h
before-append_fragment p (some []) h = before_of_missing b'#' p h
before-append_fragment p (some (c ∷ fragment)) h = before-append b'#' p (c ∷ fragment) h

-- A safe character that does not begin a fragment.
abbrev is_path_char : ℕ → Bool
is_path_char c = is_safe_char c && not (c == b'#')

all-is_path_char :
    (s : Text) → (all is_path_char s ≡ true) ↔ (IsSafeText s × (contains b'#' s ≡ false))
all-is_path_char [] = ground arith
all-is_path_char (c ∷ s) = ground (arith, all-is_path_char s)

normalize_cut-before :
    (path : Text) (fragment : Option Text) {q : EpubPath}
    → all is_path_char path ≡ true
    → normalize_cut (path, fragment) ≡ ok q
    → IsNormal (before b'#' q)
normalize_cut-before path fragment h e =
    let (p, joined, same) = normalize_cut-IsJoined is_path_char refl path fragment h e in
    let (safe, no_hash) = (all-is_path_char p).0 joined.in_class in
    rw (same, before-append_fragment p fragment no_hash)
      (record { nonempty = joined.nonempty; names = joined.names; safe_text = safe })

abbrev is_plain_char : ℕ → Bool
is_plain_char c = not (c == 0x5c) && not (c == 0)

all-is_plain_char :
    (s : Text) → (all is_plain_char s ≡ true) ↔ ((contains 0x5c s ≡ false) × (contains 0 s ≡ false))
all-is_plain_char [] = ground arith
all-is_plain_char (c ∷ s) = ground (arith, all-is_plain_char s)

-- The text before the fragment passes the tests that the whole text passes.
cut-before :
    (cut : Text × Option Text) {q : EpubPath}
    → contains b'#' cut.0 ≡ false
    → all is_plain_char cut.0 ≡ true
    → normalize_cut cut ≡ ok q
    → IsNormal (before b'#' q)
cut-before cut no_hash plain e =
    let (no_backslash, no_nul) = (all-is_plain_char cut.0).0 plain in
    let safe = safe_of_form cut.0 no_backslash no_nul (normalize_cut-no_colon cut.0 cut.1 e) in
    normalize_cut-before cut.0 cut.1 ((all-is_path_char cut.0).1 (safe, no_hash)) e

normalize_path-before :
    (path : Text) {q : EpubPath} → normalize_path path true ≡ ok q → IsNormal (before b'#' q)
unfolding normalize_path
normalize_path-before path {q} e =
    let plain = (all-is_plain_char path).1 (ground arith, ground arith) in
    elim (Option-cases (split_once b'#' path)) [
      | inl n ↦ cut-before (path, none) (split_once-contains b'#' path n) plain (ground arith)
      | inr (p, n) ↦
          let (no_hash, plain') = split_once-some b'#' is_plain_char path n plain in
          cut-before (p.0, some p.1) no_hash plain' (ground arith)
    ]

-- The file that a resolved reference names, without its fragment, is a normal path.
pub resolve_path-IsNormal :
    (base reference : Text) {q : EpubPath}
    → resolve_path base reference ≡ ok q
    → IsNormal (before b'#' q)
unfolding resolve_path
resolve_path-IsNormal base reference e = elim (Bool-cases (starts_with b'#' reference)) [
  | inl h ↦ normalize_path-before (before b'#' base ++ reference) (rw h at e)
  | inr h ↦
      normalize_path-before (join_directory (directory_of (rsplit_once b'/' base)) reference)
        (rw h at e)
]

-- The file of a resolved reference, what stands before its fragment, is accepted as an `EpubPath`
-- and stays the same there.
pub resolve_path-new :
    (base reference : Text) {q : EpubPath}
    → resolve_path base reference ≡ ok q
    → new (before b'#' q) ≡ ok (before b'#' q)
unfolding new
resolve_path-new base reference {q} e =
    normalize_path_of_IsNormal (before b'#' q) (resolve_path-IsNormal base reference e)
