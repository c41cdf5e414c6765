-- ===== src/Epub/Ncx/Enter.antt =====
-- The start of an element keeps the invariant of the NCX reader: `NcxState::start` and `empty` of
-- crates/epub/src/ncx.rs.
use native.Mathlib.Nat.{add-zero}
use native.Mathlib.Numerals.{add-one}
use folioharbor.Prelude.{
  Bool-cases, List, [], arith, false, if◌then◌else◌, inl, inr, is_some, none, refl, some, true, ℕ,
  ◌+◌, ◌<◌, ◌==◌, ◌∷◌, ◌≡◌,
}
use folioharbor.Prelude.Result.{>>=-eq-ok, Result-cases, ok}
use folioharbor.Text.Chars.{codes}
use folioharbor.Text.Split.{}
use folioharbor.Epub.Error.{invalid_navigation}
use folioharbor.Epub.Path.{EpubPath}
use folioharbor.Epub.Path.Resolve.{}
use folioharbor.Epub.Archive.{BoundedArchive}
use folioharbor.Epub.Xml.{
  Element, Event, start, is_namespace, required_attribute, usize_max, saturating_suc,
}
use folioharbor.Epub.Ncx.State.{
  NavPoint, NcxState, Tag, content, nav_label, nav_map, nav_point, ncx, ncx_ns, other_tag, tag_of,
  text_tag,
}
use folioharbor.Epub.Ncx.Steps.{
  empty_tag, enter, on_empty, on_start, set_target, start_tag, target_of,
}
use folioharbor.Epub.Links.{IsTarget, find_link-IsTarget}
use folioharbor.Epub.Ncx.Invariant.{
  Inv, Inv-Keeps, Inv-head, Keeps, StateInv, start_label-Keeps, start_nav_point-Inv,
  start_text-Keeps,
}

-- The points that an event opens.
abbrev pub opened_by : Tag → ℕ
opened_by nav_point = 1
opened_by _ = 0

abbrev pub opened : Event → ℕ
opened (start element) =
    if is_namespace element.namespace ncx_ns then opened_by (tag_of element.local_name) else 0
opened _ = 0

module _ (archive : BoundedArchive) (ncx_path : EpubPath) where
  target_of-IsTarget :
      (element : Element) {href : EpubPath}
      → target_of archive ncx_path element ≡ ok href
      → IsTarget archive href
  unfolding target_of
  target_of-IsTarget element e =
      let (source, _, linked) =
        >>=-eq-ok (required_attribute invalid_navigation element.attributes (codes "src")) _ e in
      find_link-IsTarget archive invalid_navigation (λ _. invalid_navigation) ncx_path source linked

  set_target-Inv :
      (n : ℕ) (element : Element) (s : NcxState) (points : List NavPoint) {s' : NcxState}
      → Inv archive n points s.toc s.next_order
      → set_target archive ncx_path element s points ≡ ok s'
      → StateInv archive n s'
  unfolding set_target
  set_target-Inv n element s [] h e = cc
  set_target-Inv n element s (point ∷ points) h e =
      elim (Result-cases (target_of archive ncx_path element)) [
        | inl (href, found) ↦
            let point' : NavPoint = record point { href = some href } in
            ground (
              arith,
              found,
              Inv-head archive n point point' points s.toc s.next_order refl
                  (target_of-IsTarget element found) h,
            )
        | inr (code, missing) ↦ ground arith
      ]

  -- Where no point is opened and none closed.
  pub kept :
      (n : ℕ) {s s' : NcxState}
      → Keeps archive s s'
      → StateInv archive n s
      → StateInv archive (n + 0) s'
  kept n k h = rw add-zero (Inv-Keeps archive n k h)

  pub text_start-Keeps :
      (s : NcxState) {s' : NcxState}
      → start_tag archive ncx_path
          (record { namespace = none; local_name = []; attributes = [] })
          s
          text_tag
        ≡ ok s'
      → Keeps archive s s'
  unfolding start_tag
  text_start-Keeps s e = ground (arith, start_text-Keeps archive s s.label)

  pub other_start-Keeps :
      (element : Element) (s : NcxState) {s' : NcxState}
      → start_tag archive ncx_path element s other_tag ≡ ok s'
      → Keeps archive s s'
  unfolding start_tag
  other_start-Keeps element s e = ground arith

  pub nav_map_start-Keeps :
      (element : Element) (s : NcxState) {s' : NcxState}
      → start_tag archive ncx_path element s nav_map ≡ ok s'
      → Keeps archive s s'
  unfolding start_tag
  nav_map_start-Keeps element s e = ground arith

  start_tag-Inv :
      (n : ℕ) (element : Element) (s : NcxState) (tag : Tag) {s' : NcxState}
      → n < usize_max
      → StateInv archive n s
      → start_tag archive ncx_path element s tag ≡ ok s'
      → StateInv archive (n + opened_by tag) s'
  unfolding start_tag
  start_tag-Inv n element s ncx small h e = cc
  start_tag-Inv n element s nav_map small h e = kept n (nav_map_start-Keeps element s e) h
  start_tag-Inv n element s nav_point small h e =
      rw (add-one) (start_nav_point-Inv archive n s small h e)
  start_tag-Inv n element s nav_label small h e =
      kept n (start_label-Keeps archive s s.nav_points e) h
  start_tag-Inv n element s text_tag small h e = kept n (text_start-Keeps s e) h
  start_tag-Inv n element s content small h e =
      rw add-zero (set_target-Inv n element s s.nav_points h e)
  start_tag-Inv n element s other_tag small h e = kept n (other_start-Keeps element s e) h

  pub root-Keeps :
      (element : Element) (s : NcxState) {s' : NcxState}
      → (s.depth == 1) ≡ true
      → enter archive ncx_path element s ≡ ok s'
      → Keeps archive s s' × (opened (start element) ≡ 0)
  unfolding enter
  root-Keeps element s root e = ground arith

  pub foreign-Keeps :
      (element : Element) (s : NcxState) {s' : NcxState}
      → (s.depth == 1) ≡ false
      → is_namespace element.namespace ncx_ns ≡ false
      → enter archive ncx_path element s ≡ ok s'
      → Keeps archive s s'
  unfolding enter
  foreign-Keeps element s inner foreign e = ground arith

  enter-Inv :
      (n : ℕ) (element : Element) (s : NcxState) {s' : NcxState}
      → n < usize_max
      → StateInv archive n s
      → enter archive ncx_path element s ≡ ok s'
      → StateInv archive (n + opened (start element)) s'
  unfolding enter
  enter-Inv n element s {s'} small h e = elim (Bool-cases (s.depth == 1)) [
    | inl root ↦
        let (k, none_opened) = root-Keeps element s {s' = s'} root e in rw none_opened (kept n k h)
    | inr inner ↦ elim (Bool-cases (is_namespace element.namespace ncx_ns)) [
      | inl ours ↦
          rw ours
            (start_tag-Inv n element s (tag_of element.local_name) {s' = s'} small h (ground arith))
      | inr foreign ↦ rw foreign (kept n (foreign-Keeps element s {s' = s'} inner foreign e) h)
    ]
  ]

  pub on_start-Inv :
      (n : ℕ) (elapsed : ℕ) (element : Element) (s : NcxState) {s' : NcxState}
      → n < usize_max
      → StateInv archive n s
      → on_start archive ncx_path elapsed element s ≡ ok s'
      → StateInv archive (n + opened (start element)) s'
  unfolding on_start
  on_start-Inv n elapsed element s {s'} small h e =
      let deeper : NcxState = record s { depth = saturating_suc s.depth } in
      enter-Inv n element deeper {s' = s'} small h (ground arith)

  empty_tag-Inv :
      (n : ℕ) (element : Element) (s : NcxState) (tag : Tag) {s' : NcxState}
      → StateInv archive n s
      → empty_tag archive ncx_path element s tag ≡ ok s'
      → StateInv archive n s'
  unfolding empty_tag
  empty_tag-Inv n element s content h e = set_target-Inv n element s s.nav_points h e
  empty_tag-Inv n element s text_tag h e = ground arith
  empty_tag-Inv n element s other_tag h e = ground arith
  empty_tag-Inv n element s _ h e = cc

  pub on_empty-Inv :
      (n : ℕ) (element : Element) (s : NcxState) {s' : NcxState}
      → StateInv archive n s
      → on_empty archive ncx_path element s ≡ ok s'
      → StateInv archive n s'
  unfolding on_empty
  on_empty-Inv n element s {s'} h e = elim (Bool-cases (is_some s.label)) [
    | inl busy ↦ absurd (cc (rw busy at e))
    | inr quiet ↦ elim (Bool-cases (is_namespace element.namespace ncx_ns)) [
      | inl ours ↦ empty_tag-Inv n element s (tag_of element.local_name) {s' = s'} h (ground arith)
      | inr foreign ↦ ground arith
    ]
  ]
