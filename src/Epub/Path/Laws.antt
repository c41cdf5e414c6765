-- ===== src/Epub/Path/Laws.antt =====
-- What `normalize_path` returns is a relative path that stays inside the archive.
use mathlib.Core.List.{reverse}
use folioharbor.Prelude.{
  ℕ, ◌≡◌, refl, inl, inr, Bool, true, false, not, ◌&&◌, Option, none, some, List, [], ◌∷◌, arith,
  ◌==◌, Bool-cases, Option-cases, All, All-map, All-zip, All-reverse_aux, reverse_aux-cons, all,
  is_empty,
}
use folioharbor.Prelude.Result.{ok}
use folioharbor.Text.Chars.{Text, codes, contains, text_eq}
use folioharbor.Text.Split.{split, join}
use folioharbor.Text.Split.Laws.{
  IsOnePart, is_empty-join, split-all, split-IsOnePart, split-join, join-all,
}
use folioharbor.Epub.Path.{
  EpubPath, normalize_component, normalize_components, append_fragment, finish_path,
  has_unsafe_form, normalize_cut, normalize_path,
}

-- No character with a meaning to a file system or a URL: ':', a backslash or NUL.
abbrev pub is_safe_char : ℕ → Bool
is_safe_char c = not (c == b':') && not (c == 0x5c) && not (c == 0)

abbrev pub IsSafeText : Text → Type 0
IsSafeText s = all is_safe_char s ≡ true

-- A component that names a file or a folder.
pub record IsName (part : Text) : Type 0 where
  pub nonempty : is_empty part ≡ false
  pub not_dot : text_eq part (codes ".") ≡ false
  pub not_dot_dot : text_eq part (codes "..") ≡ false

-- A normal path is a list of names, with '/' between them, at least one.
pub record IsNormal (path : Text) : Type 0 where
  pub nonempty : is_empty path ≡ false
  pub names : All IsName (split b'/' path)
  pub safe_text : IsSafeText path

-- `f` is any class of characters that holds '/'.
module _ (f : ℕ → Bool) where
  record IsComponent (part : Text) : Type 0 where
    name : IsName part
    one_part : IsOnePart b'/' part
    in_class : all f part ≡ true

  abbrev IsPart : Text → Type 0
  IsPart part = IsOnePart b'/' part × (all f part ≡ true)

  normalize_component-IsComponent :
      (stack : List Text) (part : Text) {stack' : List Text}
      → All IsComponent stack
      → IsPart part
      → normalize_component stack part ≡ some stack'
      → All IsComponent stack'
  unfolding normalize_component
  normalize_component-IsComponent [] part h k e = ground arith
  normalize_component-IsComponent (top ∷ stack) part h k e = ground arith

  normalize_components-IsComponent :
      (stack parts : List Text) {out : List Text}
      → All IsComponent stack
      → All IsPart parts
      → normalize_components stack parts ≡ some out
      → All IsComponent out
  unfolding normalize_components
  normalize_components-IsComponent stack [] h k e = ground arith
  normalize_components-IsComponent stack (part ∷ parts) h k e =
      elim (Option-cases (normalize_component stack part)) [
        | inl n ↦ absurd (cc (rw (n, normalize_components) at e))
        | inr (stack', n) ↦
            normalize_components-IsComponent stack' parts
              (normalize_component-IsComponent stack part h k.0 n) k.1 (ground arith)
      ]

  -- What is known of a joined stack.
  pub record IsJoined (path : Text) : Type 0 where
    pub nonempty : is_empty path ≡ false
    pub names : All IsName (split b'/' path)
    pub in_class : all f path ≡ true

  module _ (slash : f b'/' ≡ true) where
    IsJoined-join :
        (p : Text) (ps : List Text) → All IsComponent (p ∷ ps) → IsJoined (join b'/' (p ∷ ps))
    IsJoined-join p ps h = record {
      nonempty = is_empty-join b'/' p ps h.0.name.nonempty;
      names =
          rw (split-join b'/' p ps (All-map (λ q c. c.one_part) (p ∷ ps) h))
            (All-map (λ q c. c.name) (p ∷ ps) h);
      in_class = join-all b'/' f (p ∷ ps) slash (All-map (λ q c. c.in_class) (p ∷ ps) h);
    }

    IsJoined-join-reverse :
        (part : Text) (stack : List Text)
        → All IsComponent (part ∷ stack)
        → IsJoined (join b'/' (reverse (part ∷ stack)))
    IsJoined-join-reverse part stack h =
        let (p, ps, e) = reverse_aux-cons stack part [] in
        rw e (
          IsJoined-join p ps
            (rw e at (All-reverse_aux IsComponent stack (part ∷ []) h.1 (h.0, tt))))

    finish_path-IsJoined :
        (fragment : Option Text) (out : List Text) {q : EpubPath}
        → All IsComponent out
        → finish_path fragment (some out) ≡ ok q
        → (p : Text) × IsJoined p × (q ≡ append_fragment p fragment)
    finish_path-IsJoined fragment [] h e = cc
    finish_path-IsJoined fragment (part ∷ stack) h e =
        (join b'/' (reverse (part ∷ stack)), IsJoined-join-reverse part stack h, cc)

    pub normalize_cut-IsJoined :
        (path : Text) (fragment : Option Text) {q : EpubPath}
        → all f path ≡ true
        → normalize_cut (path, fragment) ≡ ok q
        → (p : Text) × IsJoined p × (q ≡ append_fragment p fragment)
    unfolding normalize_cut
    normalize_cut-IsJoined path fragment h e =
        let parts =
          All-zip (IsOnePart b'/') (λ p. all f p ≡ true) (split b'/' path)
            (split-IsOnePart b'/' path) (split-all b'/' f path h) in
        elim (Bool-cases (contains b':' path)) [
          | inl c ↦ absurd (cc (rw c at e))
          | inr c ↦ elim (Option-cases (normalize_components [] (split b'/' path))) [
            | inl n ↦ absurd (cc (rw (c, n) at e))
            | inr (out, n) ↦
                finish_path-IsJoined fragment out
                  (normalize_components-IsComponent [] (split b'/' path) tt parts n)
                  (rw (c, n) at e)
          ]
        ]

-- The tests on the whole text leave only safe characters.
pub safe_of_form :
    (path : Text)
    → contains 0x5c path ≡ false
    → contains 0 path ≡ false
    → contains b':' path ≡ false
    → IsSafeText path
safe_of_form [] h k c = refl
safe_of_form (x ∷ path) h k c = ground (arith, safe_of_form path)

pub normalize_cut-no_colon :
    (path : Text) (fragment : Option Text) {q : EpubPath}
    → normalize_cut (path, fragment) ≡ ok q
    → contains b':' path ≡ false
unfolding normalize_cut
normalize_cut-no_colon path fragment e = ground arith

-- Whatever path is given: one that is accepted without a fragment is normal.
pub normalize_path-IsNormal :
    (path : Text) {q : EpubPath} → normalize_path path false ≡ ok q → IsNormal q
unfolding normalize_path
normalize_path-IsNormal path {q} e =
    let form : has_unsafe_form path ≡ false = ground arith in
    let cut : normalize_cut (path, none) ≡ ok q = ground arith in
    let safe =
      safe_of_form path (ground arith) (ground arith) (normalize_cut-no_colon path none cut) in
    let (p, joined, same) = normalize_cut-IsJoined is_safe_char refl path none safe cut in
    rw same
      (record { nonempty = joined.nonempty; names = joined.names; safe_text = joined.in_class })
