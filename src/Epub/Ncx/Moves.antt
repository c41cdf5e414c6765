-- ===== src/Epub/Ncx/Moves.antt =====
-- What an event of the NCX reader does to the open points and to the entries: `NcxState::start`,
-- `empty`, `text_value` and `end` of crates/epub/src/ncx.rs.
pub mod Events
use folioharbor.Prelude.{
  Bool-cases, List, Option, Option-cases, [], ap, arith, inl, inr, is_some, none, refl, some, ℕ,
  ◌++◌, ◌∷◌, ◌≡◌, ◌⊎◌,
}
use folioharbor.Prelude.Result.{Result-cases, ok}
use folioharbor.Text.Chars.{trim}
use folioharbor.Epub.Path.{EpubPath}
use folioharbor.Epub.Archive.{BoundedArchive}
use folioharbor.Epub.Xml.{Element, saturating_suc}
use folioharbor.Epub.Ncx.State.{Label, NavPoint, NcxState, TocEntry}
use folioharbor.Epub.Ncx.Steps.{set_target, start_nav_point, target_of}
use folioharbor.Epub.Ncx.Run.{attach_label, end_label, end_nav_point}
use folioharbor.Epub.Ncx.Invariant.{Keeps, point_orders}

-- No point is opened or closed.
pub record Stays (s s' : NcxState) : Type 0 where
  pub points : point_orders s'.nav_points ≡ point_orders s.nav_points
  pub entries : s'.toc ≡ s.toc
  pub counter : s'.next_order ≡ s.next_order

-- A point is opened, with the next order.
pub record Opens (s s' : NcxState) : Type 0 where
  pub points : point_orders s'.nav_points ≡ s.next_order ∷ point_orders s.nav_points
  pub entries : s'.toc ≡ s.toc

-- The innermost point is closed and becomes an entry with its order.
pub record Closes (s s' : NcxState) : Type 0 where
  pub order : ℕ
  pub entry : TocEntry
  pub points : point_orders s.nav_points ≡ order ∷ point_orders s'.nav_points
  pub entries : s'.toc ≡ s.toc ++ (order, entry) ∷ []

-- What happens where `count` points are opened, none or one.
abbrev pub Moves : ℕ → NcxState → NcxState → Type 0
Moves count s s' = ((count ≡ 1) × Opens s s') ⊎ ((count ≡ 0) × (Stays s s' ⊎ Closes s s'))

abbrev pub still : {s s' : NcxState} → Stays s s' → Moves 0 s s'
still h = inr (refl, inl h)

module _ (archive : BoundedArchive) (ncx_path : EpubPath) where
  pub Keeps-Stays : {s s' : NcxState} → Keeps archive s s' → Stays s s'
  Keeps-Stays k = record { points = ap point_orders k.points; entries = k.toc; counter = k.order }

  -- A step after one that keeps the points, the entries and the counter.
  pub Closes-Keeps : {s t s' : NcxState} → Closes s t → Keeps archive t s' → Closes s s'
  Closes-Keeps c k = record {
    order = c.order;
    entry = c.entry;
    points = rw k.points c.points;
    entries = rw k.toc c.entries;
  }

  pub Stays-Keeps : {s t s' : NcxState} → Stays s t → Keeps archive t s' → Stays s s'
  Stays-Keeps c k = record {
    points = rw k.points c.points;
    entries = rw k.toc c.entries;
    counter = rw k.order c.counter;
  }

  pub set_target-Stays :
      (element : Element) (s : NcxState) (points : List NavPoint) {s' : NcxState}
      → s.nav_points ≡ points
      → set_target archive ncx_path element s points ≡ ok s'
      → Stays s s'
  unfolding set_target
  set_target-Stays element s [] same e = cc
  set_target-Stays element s (point ∷ points) {s'} same e = elim (Bool-cases (is_some point.href)) [
    | inl double ↦ absurd (cc (rw double at e))
    | inr single ↦ elim (Result-cases (target_of archive ncx_path element)) [
      | inl (href, found) ↦
          let next : s' ≡ record s { nav_points = record point { href = some href } ∷ points } =
            ground (arith, found) in
          rw next (record { points = rw same refl; entries = refl; counter = refl })
      | inr (code, missing) ↦ absurd (ground arith)
    ]
  ]

  attach_label-Stays :
      (s : NcxState) (label : Label) (points : List NavPoint) {s' : NcxState}
      → s.nav_points ≡ points
      → attach_label s label points ≡ ok s'
      → Stays s s'
  unfolding attach_label
  attach_label-Stays s label [] same e = cc
  attach_label-Stays s label (point ∷ points) {s'} same e =
      elim (Bool-cases (is_some point.label)) [
        | inl double ↦ absurd (cc (rw double at e))
        | inr single ↦
            let next : s' ≡ record s {
              label = none;
              nav_points = record point { label = some label.value } ∷ points;
            } =
              ground arith in
            rw next (record { points = rw same refl; entries = refl; counter = refl })
      ]

  pub end_label-Stays :
      (s : NcxState) (label : Option Label) {s' : NcxState} → end_label s label ≡ ok s' → Stays s s'
  unfolding end_label
  end_label-Stays s none e = cc
  end_label-Stays s (some label) {s'} e =
      attach_label-Stays s label s.nav_points {s' = s'} refl (ground arith)

  pub start_nav_point-Opens :
      (s : NcxState) {s' : NcxState} → start_nav_point s ≡ ok s' → Opens s s'
  unfolding start_nav_point
  start_nav_point-Opens s {s'} e =
      let next : s' ≡ record s {
        next_order = saturating_suc s.next_order;
        nav_points =
            record { depth = s.depth; order = s.next_order; label = none; href = none }
            ∷ s.nav_points;
      } =
        ground arith in
      rw next (record { points = refl; entries = refl })

  pub end_nav_point-Closes :
      (s : NcxState) (points : List NavPoint) {s' : NcxState}
      → s.nav_points ≡ points
      → end_nav_point s points ≡ ok s'
      → Closes s s'
  unfolding end_nav_point
  end_nav_point-Closes s [] same e = cc
  end_nav_point-Closes s (point ∷ points) {s'} same e = elim (Option-cases point.label) [
    | inl missing ↦ absurd (ground arith)
    | inr (label, labelled) ↦ elim (Option-cases point.href) [
      | inl missing ↦ absurd (ground arith)
      | inr (href, linked) ↦
          let entry : TocEntry = record { label = trim label; href = href } in
          let next : s'
              ≡ record s { nav_points = points; toc = s.toc ++ (point.order, entry) ∷ [] } =
            ground (arith, labelled, linked) in
          rw next
            (record { order = point.order; entry = entry; points = rw same refl; entries = refl })
    ]
  ]
