-- ===== src/Epub/Navigation/Laws.antt =====
-- What holds of the entries that a navigation document gives.
use folioharbor.Prelude.{
  All, All-append, Bool, Bool-cases, List, Option, [], arith, false, inl, inr, is_empty, is_some,
  none, some, true, ℕ, ◌&&◌, ◌++◌, ◌∷◌, ◌≡◌,
}
use folioharbor.Prelude.Result.{>>-eq-ok, >>=-eq-ok, ok, ok_or}
use folioharbor.Text.Chars.{Text, codes, text_eq, trim}
use folioharbor.Epub.Error.{invalid_navigation}
use folioharbor.Epub.Path.{EpubPath}
use folioharbor.Epub.Archive.{BoundedArchive, check_processing}
use folioharbor.Epub.Xml.{
  Attribute, Element, Event, empty, end_of, is_namespace, malformed, required_attribute,
  saturating_suc, start, text,
}
use folioharbor.Epub.Links.{find_link, IsTarget, find_link-IsTarget}
use folioharbor.Epub.Reader.{Document, read_events, read_events-keeps}
use folioharbor.Epub.Ncx.State.{TocEntry}
use folioharbor.Epub.Ncx.Invariant.{IsEntry}
use folioharbor.Epub.Navigation.{
  Anchor, NavigationState, close_anchor, empty_nav, enter, finish, has_toc_type, is_anchor_at,
  leave, new_state, on_empty, on_end, on_event, parse, start_anchor, start_nav, start_tag,
  text_value, xhtml_ns,
}

module _ (archive : BoundedArchive) (nav_path : EpubPath) where
  abbrev HasLink : Option Anchor → Type 0
  HasLink none = Unit
  HasLink (some anchor) = IsTarget archive anchor.href

  -- The entries have a label and a link into the archive, and so has the open anchor a link.
  record IsSound (s : NavigationState) : Type 0 where
    entries : All (IsEntry archive) s.toc
    linked : HasLink s.current_anchor

  -- The entries and the anchor are as they were.
  record Keeps (s s' : NavigationState) : Type 0 where
    entries : s'.toc ≡ s.toc
    linked : s'.current_anchor ≡ s.current_anchor

  IsSound-Keeps : {s s' : NavigationState} → Keeps s s' → IsSound s → IsSound s'
  IsSound-Keeps k h = record { entries = rw k.entries h.entries; linked = rw k.linked h.linked }

  start_nav-Keeps :
      (is_toc : Bool) (s : NavigationState) {s' : NavigationState}
      → start_nav is_toc s ≡ ok s'
      → Keeps s s'
  unfolding start_nav
  start_nav-Keeps is_toc s e = ground arith

  empty_nav-Keeps :
      (is_toc : Bool) (s : NavigationState) {s' : NavigationState}
      → empty_nav is_toc s ≡ ok s'
      → Keeps s s'
  unfolding empty_nav
  empty_nav-Keeps is_toc s e = ground arith

  leave-Keeps :
      (ours : Bool) (local : Text) (s : NavigationState) {s' : NavigationState}
      → leave ours local s ≡ ok s'
      → Keeps s s'
  unfolding leave
  leave-Keeps ours local s e = ground arith

  start_anchor-IsSound :
      (attributes : List Attribute) (s : NavigationState) {s' : NavigationState}
      → IsSound s
      → start_anchor archive nav_path attributes s ≡ ok s'
      → IsSound s'
  unfolding start_anchor
  start_anchor-IsSound attributes s {s'} h e = elim (Bool-cases (is_some s.current_anchor)) [
    | inl open_one ↦ absurd (ground arith)
    | inr free ↦
        let (reference, _, e) =
          >>=-eq-ok (required_attribute invalid_navigation attributes (codes "href")) _
            (rw free at e) in
        let (href, found, e) =
          >>=-eq-ok
            (find_link invalid_navigation (λ code. invalid_navigation) archive nav_path reference) _
            e in
        let target =
          find_link-IsTarget archive invalid_navigation (λ code. invalid_navigation) nav_path
            reference found in
        let anchor : Anchor = record { anchor_depth = s.depth; href = href; label = [] } in
        let same : s' ≡ record s { current_anchor = some anchor } = ground arith in
        rw same (record { entries = h.entries; linked = target })
  ]

  start_tag-IsSound :
      (ours : Bool) (element : Element) (s : NavigationState) {s' : NavigationState}
      → IsSound s
      → start_tag archive nav_path ours element s ≡ ok s'
      → IsSound s'
  unfolding start_tag
  start_tag-IsSound ours element s {s'} h e =
      elim (Bool-cases (ours && text_eq element.local_name (codes "nav"))) [
        | inl nav ↦
            let (is_toc, _, e) = >>=-eq-ok (has_toc_type element.attributes) _ (rw nav at e) in
            IsSound-Keeps (start_nav-Keeps is_toc s {s' = s'} e) h
        | inr unlike ↦
            elim (Bool-cases
              (ours && (text_eq element.local_name (codes "a") && is_some s.toc_depth))) [
                | inl anchor ↦
                    start_anchor-IsSound element.attributes s {s' = s'} h (rw (unlike, anchor) at e)
                | inr plain ↦ let same : s' ≡ s = ground arith in rw same h
              ]
      ]

  enter-IsSound :
      (element : Element) (s : NavigationState) {s' : NavigationState}
      → IsSound s
      → enter archive nav_path element s ≡ ok s'
      → IsSound s'
  unfolding enter
  enter-IsSound element s {s'} h e =
      let ours = is_namespace element.namespace xhtml_ns in
      let root : IsSound (record s { saw_html = true }) = record {
        entries = h.entries;
        linked = h.linked;
      } in
      ground (
        arith,
        start_tag-IsSound ours element (record s { saw_html = true }) {s' = s'} root,
        start_tag-IsSound ours element s {s' = s'} h,
      )

  on_empty-IsSound :
      (element : Element) (s : NavigationState) {s' : NavigationState}
      → IsSound s
      → on_empty element s ≡ ok s'
      → IsSound s'
  unfolding on_empty
  on_empty-IsSound element s {s'} h e =
      let ours = is_namespace element.namespace xhtml_ns in
      elim (Bool-cases (ours && text_eq element.local_name (codes "nav"))) [
        | inl nav ↦
            let (is_toc, _, e) = >>=-eq-ok (has_toc_type element.attributes) _ (rw nav at e) in
            IsSound-Keeps (empty_nav-Keeps is_toc s {s' = s'} e) h
        | inr plain ↦ let same : s' ≡ s = ground arith in rw same h
      ]

  text_value-IsSound :
      (value : Option Text) (anchor : Option Anchor) (s : NavigationState) {s' : NavigationState}
      → HasLink anchor
      → IsSound s
      → text_value value anchor s ≡ ok s'
      → IsSound s'
  unfolding text_value
  text_value-IsSound value none s {s'} l h e = let same : s' ≡ s = ground arith in rw same h
  text_value-IsSound value (some anchor) s {s'} l h e =
      let (decoded, _, e) = >>=-eq-ok (ok_or value invalid_navigation) _ e in
      let longer : Anchor = record anchor { label = anchor.label ++ decoded } in
      let same : s' ≡ record s { current_anchor = some longer } = ground arith in
      rw same (record { entries = h.entries; linked = l })

  close_anchor-IsSound :
      (anchor : Option Anchor) (s : NavigationState) {s' : NavigationState}
      → HasLink anchor
      → IsSound s
      → close_anchor anchor s ≡ ok s'
      → IsSound s'
  unfolding close_anchor
  close_anchor-IsSound none s l h e = cc
  close_anchor-IsSound (some anchor) s {s'} l h e =
      elim (Bool-cases (is_empty (trim anchor.label))) [
        | inl blank ↦ absurd (ground arith)
        | inr visible ↦
            let entry : TocEntry = record { label = trim anchor.label; href = anchor.href } in
            let same : s' ≡ record s { current_anchor = none; toc = s.toc ++ entry ∷ [] } =
              ground arith in
            rw same (record {
              entries =
                  All-append (IsEntry archive) s.toc (entry ∷ []) h.entries
                    (record { labelled = visible; target = l }, tt);
              linked = tt;
            })
      ]

  on_end-IsSound :
      (element : Element) (s : NavigationState) {s' : NavigationState}
      → IsSound s
      → on_end element s ≡ ok s'
      → IsSound s'
  unfolding on_end
  on_end-IsSound element s {s'} h e =
      let ours = is_namespace element.namespace xhtml_ns in
      let local = element.local_name in
      elim (Bool-cases
        (ours && (text_eq local (codes "a") && is_anchor_at s.current_anchor s.depth))) [
          | inl closing ↦
              let (next, closed, e) =
                >>=-eq-ok (close_anchor s.current_anchor s) _ (rw closing at e) in
              IsSound-Keeps (leave-Keeps ours local next {s' = s'} e)
                (close_anchor-IsSound s.current_anchor s {s' = next} h.linked h closed)
          | inr unlike ↦ IsSound-Keeps (leave-Keeps ours local s {s' = s'} (rw unlike at e)) h
        ]

  on_event-IsSound :
      (elapsed : ℕ) (event : Event) (s s' : NavigationState)
      → IsSound s
      → on_event archive nav_path elapsed event s ≡ ok s'
      → IsSound s'
  unfolding on_event
  on_event-IsSound elapsed (start element) s s' h e =
      let deeper = record s { depth = saturating_suc s.depth } in
      let (fine, e) = >>-eq-ok (check_processing archive elapsed deeper.depth) _ e in
      enter-IsSound element deeper {s' = s'} (record { entries = h.entries; linked = h.linked }) e
  on_event-IsSound elapsed (empty element) s s' h e = on_empty-IsSound element s h e
  on_event-IsSound elapsed (text value) s s' h e =
      text_value-IsSound value s.current_anchor s h.linked h e
  on_event-IsSound elapsed (end_of element) s s' h e = on_end-IsSound element s h e
  on_event-IsSound elapsed malformed s s' h e = cc
  on_event-IsSound elapsed _ s s' h e = let same : s' ≡ s = ground arith in rw same h

  -- The contents that a navigation document gives are not empty, and each of its entries has a
  -- label that is not blank and a link to a normal path which is an entry of the archive.
  pub nav_parse-IsEntry :
      (document : Document) {toc : List TocEntry}
      → parse archive document nav_path ≡ ok toc
      → All (IsEntry archive) toc × (is_empty toc ≡ false)
  unfolding parse finish
  nav_parse-IsEntry document {toc} e =
      let reading =
        read_events (λ (s : NavigationState). s.depth) (on_event archive nav_path) archive
          document.readings document.last new_state in
      let (s, ran, e) = >>=-eq-ok reading finish e in
      let start_sound : IsSound new_state =
        unfold new_state in record { entries = tt; linked = tt } in
      let h =
        read_events-keeps (λ (s : NavigationState). s.depth) (on_event archive nav_path) IsSound
          archive document.readings document.last new_state on_event-IsSound start_sound ran in
      ground (arith, h.entries)
