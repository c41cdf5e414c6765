-- ===== src/Epub/Ncx/Moves/Events.antt =====
-- Each event of the NCX reader opens a point, closes one, or does neither: `NcxState::start`, `empty`
-- and `end` of crates/epub/src/ncx.rs.
use folioharbor.Prelude.{Bool-cases, arith, inl, inr, is_some, refl, true, ℕ, ◌==◌, ◌≡◌, ◌⊎◌, false}
use folioharbor.Prelude.Result.{Result-cases, ok}
use folioharbor.Epub.Path.{EpubPath}
use folioharbor.Epub.Archive.{BoundedArchive}
use folioharbor.Epub.Xml.{
  Element, Event, start, empty, end_of, text, cdata, other, malformed, is_namespace, saturating_suc,
}
use folioharbor.Epub.Ncx.State.{
  NcxState, Tag, content, nav_label, nav_map, nav_point, ncx, ncx_ns, other_tag, tag_of, text_tag,
}
use folioharbor.Epub.Ncx.Steps.{empty_tag, enter, on_empty, on_start, start_tag}
use folioharbor.Epub.Ncx.Run.{end_tag, on_end, on_event}
use folioharbor.Epub.Ncx.Invariant.{
  end_nav_map-Keeps, end_text-Keeps, leave-Keeps, start_label-Keeps,
}
use folioharbor.Epub.Ncx.Enter.{
  foreign-Keeps, nav_map_start-Keeps, opened, opened_by, other_start-Keeps, root-Keeps,
  text_start-Keeps,
}
use folioharbor.Epub.Ncx.Preserve.{on_text-Keeps}
use folioharbor.Epub.Ncx.Moves.{
  Stays, Closes, Moves, still, Keeps-Stays, Closes-Keeps, Stays-Keeps, set_target-Stays,
  end_label-Stays, start_nav_point-Opens, end_nav_point-Closes,
}

module _ (archive : BoundedArchive) (ncx_path : EpubPath) where
  start_tag-Moves :
      (element : Element) (s : NcxState) (tag : Tag) {s' : NcxState}
      → start_tag archive ncx_path element s tag ≡ ok s'
      → Moves (opened_by tag) s s'
  unfolding start_tag
  start_tag-Moves element s ncx e = cc
  start_tag-Moves element s nav_map e =
      still (Keeps-Stays archive ncx_path (nav_map_start-Keeps archive ncx_path element s e))
  start_tag-Moves element s nav_point e = inl (refl, start_nav_point-Opens archive ncx_path s e)
  start_tag-Moves element s nav_label e =
      still (Keeps-Stays archive ncx_path (start_label-Keeps archive s s.nav_points e))
  start_tag-Moves element s text_tag e =
      still (Keeps-Stays archive ncx_path (text_start-Keeps archive ncx_path s e))
  start_tag-Moves element s content e =
      still (set_target-Stays archive ncx_path element s s.nav_points refl e)
  start_tag-Moves element s other_tag e =
      still (Keeps-Stays archive ncx_path (other_start-Keeps archive ncx_path element s e))

  enter-Moves :
      (element : Element) (s : NcxState) {s' : NcxState}
      → enter archive ncx_path element s ≡ ok s'
      → Moves (opened (start element)) s s'
  unfolding enter
  enter-Moves element s {s'} e = elim (Bool-cases (s.depth == 1)) [
    | inl root ↦
        let (k, none_opened) = root-Keeps archive ncx_path element s {s' = s'} root e in
        rw none_opened (still (Keeps-Stays archive ncx_path k))
    | inr inner ↦ elim (Bool-cases (is_namespace element.namespace ncx_ns)) [
      | inl ours ↦
          rw ours (start_tag-Moves element s (tag_of element.local_name) {s' = s'} (ground arith))
      | inr foreign ↦ rw foreign (
          still (
            Keeps-Stays archive ncx_path
              (foreign-Keeps archive ncx_path element s {s' = s'} inner foreign e)))
    ]
  ]

  -- The state with another depth has the same points and entries.
  on_start-Moves :
      (elapsed : ℕ) (element : Element) (s : NcxState) {s' : NcxState}
      → on_start archive ncx_path elapsed element s ≡ ok s'
      → Moves (opened (start element)) s s'
  unfolding on_start
  on_start-Moves elapsed element s {s'} e =
      let deeper : NcxState = record s { depth = saturating_suc s.depth } in
      elim (enter-Moves element deeper {s' = s'} (ground arith)) [
        | inl (one, h) ↦ inl (one, record { points = h.points; entries = h.entries })
        | inr (zero, inl h) ↦
            inr (zero, inl (record { points = h.points; entries = h.entries; counter = h.counter }))
        | inr (zero, inr h) ↦ inr (
          zero,
          inr (record { order = h.order; entry = h.entry; points = h.points; entries = h.entries }),
        )
      ]

  Stays-same : (s s' : NcxState) → s' ≡ s → Stays s s'
  Stays-same s s' e = rw e (record { points = refl; entries = refl; counter = refl })

  empty_tag-Stays :
      (element : Element) (s : NcxState) (tag : Tag) {s' : NcxState}
      → empty_tag archive ncx_path element s tag ≡ ok s'
      → Stays s s'
  unfolding empty_tag
  empty_tag-Stays element s content e =
      set_target-Stays archive ncx_path element s s.nav_points refl e
  empty_tag-Stays element s text_tag {s'} e = Stays-same s s' (ground arith)
  empty_tag-Stays element s other_tag {s'} e = Stays-same s s' (ground arith)
  empty_tag-Stays element s _ e = cc

  on_empty-Stays :
      (element : Element) (s : NcxState) {s' : NcxState}
      → on_empty archive ncx_path element s ≡ ok s'
      → Stays s s'
  unfolding on_empty
  on_empty-Stays element s {s'} e = elim (Bool-cases (is_some s.label)) [
    | inl busy ↦ absurd (cc (rw busy at e))
    | inr quiet ↦ elim (Bool-cases (is_namespace element.namespace ncx_ns)) [
      | inl ours ↦ empty_tag-Stays element s (tag_of element.local_name) {s' = s'} (ground arith)
      | inr foreign ↦ Stays-same s s' (ground arith)
    ]
  ]

  end_tag-Moves :
      (s : NcxState) (tag : Tag) {s' : NcxState} → end_tag s tag ≡ ok s' → Stays s s' ⊎ Closes s s'
  unfolding end_tag
  end_tag-Moves s text_tag e =
      inl (Keeps-Stays archive ncx_path (end_text-Keeps archive s s.label e))
  end_tag-Moves s nav_label e = inl (end_label-Stays archive ncx_path s s.label e)
  end_tag-Moves s nav_point e = inr (end_nav_point-Closes archive ncx_path s s.nav_points refl e)
  end_tag-Moves s nav_map e = inl (Keeps-Stays archive ncx_path (end_nav_map-Keeps archive s e))
  end_tag-Moves s ncx {s'} e = inl (Stays-same s s' (ground arith))
  end_tag-Moves s content {s'} e = inl (Stays-same s s' (ground arith))
  end_tag-Moves s other_tag {s'} e = inl (Stays-same s s' (ground arith))

  on_end-Moves :
      (element : Element) (s : NcxState) {s' : NcxState}
      → on_end element s ≡ ok s'
      → Stays s s' ⊎ Closes s s'
  unfolding on_end
  on_end-Moves element s {s'} e = elim (Bool-cases (is_namespace element.namespace ncx_ns)) [
    | inl ours ↦ elim (Result-cases (end_tag s (tag_of element.local_name))) [
      | inl (closed, ended) ↦
          let left = leave-Keeps archive true element.local_name closed {s' = s'} (ground arith) in
          elim (end_tag-Moves s (tag_of element.local_name) ended) [
            | inl h ↦ inl (Stays-Keeps archive ncx_path h left)
            | inr h ↦ inr (Closes-Keeps archive ncx_path h left)
          ]
      | inr (code, failed) ↦ absurd (ground arith)
    ]
    | inr foreign ↦ inl (
        Keeps-Stays archive ncx_path
          (leave-Keeps archive false element.local_name s {s' = s'} (ground arith)))
  ]

  pub on_event-Moves :
      (elapsed : ℕ) (event : Event) (s : NcxState) {s' : NcxState}
      → on_event archive ncx_path elapsed event s ≡ ok s'
      → Moves (opened event) s s'
  unfolding on_event
  on_event-Moves elapsed (start element) s e = on_start-Moves elapsed element s e
  on_event-Moves elapsed (empty element) s e = still (on_empty-Stays element s e)
  on_event-Moves elapsed (end_of element) s e = inr (refl, on_end-Moves element s e)
  on_event-Moves elapsed (text value) s e =
      still (Keeps-Stays archive ncx_path (on_text-Keeps archive ncx_path value s e))
  on_event-Moves elapsed (cdata value) s e =
      still (Keeps-Stays archive ncx_path (on_text-Keeps archive ncx_path value s e))
  on_event-Moves elapsed other s {s'} e = still (Stays-same s s' (ground arith))
  on_event-Moves elapsed malformed s e = cc
