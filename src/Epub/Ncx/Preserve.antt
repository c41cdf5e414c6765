-- ===== src/Epub/Ncx/Preserve.antt =====
-- Every event of the NCX reader keeps the invariant: `NcxState::start`, `empty`, `text_value` and
-- `end` of crates/epub/src/ncx.rs.
use native.Mathlib.Nat.{add-zero}
use folioharbor.Prelude.{
  Bool-cases, List, Option, Option-cases, [], arith, false, inl, inr, is_empty, none, some, true, ℕ,
  ◌+◌, ◌<◌, ◌∷◌, ◌≡◌,
}
use folioharbor.Prelude.Result.{Result-cases, ok}
use folioharbor.Text.Chars.{Text, trim}
use folioharbor.Epub.Path.{EpubPath}
use folioharbor.Epub.Archive.{BoundedArchive}
use folioharbor.Epub.Xml.{
  Element, Event, start, empty, end_of, text, cdata, other, malformed, is_namespace, usize_max,
}
use folioharbor.Epub.Ncx.State.{
  NavPoint, NcxState, Tag, TocEntry, content, nav_label, nav_map, nav_point, ncx, ncx_ns, other_tag,
  tag_of, text_tag,
}
use folioharbor.Epub.Ncx.Run.{end_nav_point, end_tag, on_end, on_event, on_text}
use folioharbor.Epub.Links.{IsTarget}
use folioharbor.Epub.Ncx.Invariant.{
  Inv, Inv-Keeps, Inv-close, Keeps, StateInv, end_label-Inv, end_nav_map-Keeps, end_text-Keeps,
  leave-Keeps, text_value-Keeps,
}
use folioharbor.Epub.Ncx.Enter.{kept, on_empty-Inv, on_start-Inv, opened}

module _ (archive : BoundedArchive) (ncx_path : EpubPath) where
  pub on_text-Keeps :
      (value : Option Text) (s : NcxState) {s' : NcxState}
      → on_text value s ≡ ok s'
      → Keeps archive s s'
  unfolding on_text
  on_text-Keeps none s e = cc
  on_text-Keeps (some value) s e = text_value-Keeps archive value s s.label e

  end_nav_point-Inv :
      (n : ℕ) (s : NcxState) (points : List NavPoint) {s' : NcxState}
      → Inv archive n points s.toc s.next_order
      → end_nav_point s points ≡ ok s'
      → StateInv archive n s'
  unfolding end_nav_point
  end_nav_point-Inv n s [] h e = cc
  end_nav_point-Inv n s (point ∷ points) h e = elim (Option-cases point.label) [
    | inl missing ↦ ground arith
    | inr (label, labelled) ↦ elim (Option-cases point.href) [
      | inl missing ↦ ground arith
      | inr (href, linked) ↦
          let entry : TocEntry = record { label = trim label; href = href } in
          let target : IsTarget archive href = rw linked at h.targets.0 in
          ground (
            arith,
            λ (visible : is_empty (trim label) ≡ false).
                Inv-close archive n point points s.toc s.next_order entry
                  (record { labelled = visible; target = target }) h,
          )
    ]
  ]

  end_tag-Inv :
      (n : ℕ) (s : NcxState) (tag : Tag) {s' : NcxState}
      → StateInv archive n s
      → end_tag s tag ≡ ok s'
      → StateInv archive n s'
  unfolding end_tag
  end_tag-Inv n s text_tag h e = Inv-Keeps archive n (end_text-Keeps archive s s.label e) h
  end_tag-Inv n s nav_label h e = end_label-Inv archive n s s.label h e
  end_tag-Inv n s nav_point h e = end_nav_point-Inv n s s.nav_points h e
  end_tag-Inv n s nav_map h e = Inv-Keeps archive n (end_nav_map-Keeps archive s e) h
  end_tag-Inv n s ncx h e = ground arith
  end_tag-Inv n s content h e = ground arith
  end_tag-Inv n s other_tag h e = ground arith

  on_end-Inv :
      (n : ℕ) (element : Element) (s : NcxState) {s' : NcxState}
      → StateInv archive n s
      → on_end element s ≡ ok s'
      → StateInv archive n s'
  unfolding on_end
  on_end-Inv n element s {s'} h e = elim (Bool-cases (is_namespace element.namespace ncx_ns)) [
    | inl ours ↦ elim (Result-cases (end_tag s (tag_of element.local_name))) [
      | inl (closed, ended) ↦
          Inv-Keeps archive n
            (leave-Keeps archive true element.local_name closed {s' = s'} (ground arith))
            (end_tag-Inv n s (tag_of element.local_name) h ended)
      | inr (code, failed) ↦ ground arith
    ]
    | inr foreign ↦
        Inv-Keeps archive n
          (leave-Keeps archive false element.local_name s {s' = s'} (ground arith)) h
  ]

  -- One event, with the points that it opens.
  pub on_event-Inv :
      (n : ℕ) (elapsed : ℕ) (event : Event) (s : NcxState) {s' : NcxState}
      → n < usize_max
      → StateInv archive n s
      → on_event archive ncx_path elapsed event s ≡ ok s'
      → StateInv archive (n + opened event) s'
  unfolding on_event
  on_event-Inv n elapsed (start element) s small h e =
      on_start-Inv archive ncx_path n elapsed element s small h e
  on_event-Inv n elapsed (empty element) s small h e =
      rw add-zero (on_empty-Inv archive ncx_path n element s h e)
  on_event-Inv n elapsed (end_of element) s small h e = rw add-zero (on_end-Inv n element s h e)
  on_event-Inv n elapsed (text value) s small h e =
      kept archive ncx_path n (on_text-Keeps value s e) h
  on_event-Inv n elapsed (cdata value) s small h e =
      kept archive ncx_path n (on_text-Keeps value s e) h
  on_event-Inv n elapsed other s small h e = rw add-zero (ground arith)
  on_event-Inv n elapsed malformed s small h e = cc
