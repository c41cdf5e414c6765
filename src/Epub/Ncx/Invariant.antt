-- ===== src/Epub/Ncx/Invariant.antt =====
-- What holds of the NCX reader's state between two events.
use mathlib.Core.List.{map-append, append_assoc}
use folioharbor.Prelude.{
  ℕ, suc, ◌+◌, ◌<◌, ◌≡◌, ◌≢◌, sym, Bool, false, Option, none, some, List, [], ◌∷◌, ◌++◌, map,
  is_empty, arith, All, All-append, length, length-append,
}
use folioharbor.Prelude.Result.{ok}
use folioharbor.Text.Chars.{Text}
use folioharbor.Epub.Path.{EpubPath}
use folioharbor.Epub.Archive.{BoundedArchive}
use folioharbor.Epub.Links.{IsTarget}
use folioharbor.Epub.Xml.{saturating_suc, usize_max}
use folioharbor.Epub.Ncx.State.{TocEntry, NavPoint, Label, NcxState}
use folioharbor.Epub.Ncx.Steps.{start_nav_point, start_label, start_text}
use folioharbor.Epub.Ncx.Run.{text_value, end_text, attach_label, end_label, end_nav_map, leave}

-- No number stands twice.
abbrev pub Distinct : List ℕ → Type 0
Distinct [] = Unit
Distinct (x ∷ xs) = All (λ y. x ≢ y) xs × Distinct xs

abbrev pub point_orders : List NavPoint → List ℕ
point_orders points = map (λ p. p.order) points

abbrev pub entry_orders : List (ℕ × TocEntry) → List ℕ
entry_orders toc = map (λ p. p.0) toc

module _ (archive : BoundedArchive) where
  pub record IsEntry (entry : TocEntry) : Type 0 where
    pub labelled : is_empty entry.label ≡ false
    pub target : IsTarget archive entry.href

  abbrev pub HasTarget : Option EpubPath → Type 0
  HasTarget none = Unit
  HasTarget (some href) = IsTarget archive href

  -- After `n` points have been opened.
  pub record Inv (n : ℕ) (points : List NavPoint) (toc : List (ℕ × TocEntry)) (next_order : ℕ)
      : Type 0 where
    pub targets : All (λ p. HasTarget p.href) points
    pub entries : All (λ p. IsEntry p.1) toc
    pub below : All (λ o. o < n) (point_orders points ++ entry_orders toc)
    pub distinct : Distinct (point_orders points ++ entry_orders toc)
    pub counted : length points + length toc ≡ n
    pub next : next_order ≡ n

  abbrev pub StateInv : ℕ → NcxState → Type 0
  StateInv n s = Inv n s.nav_points s.toc s.next_order

  -- The points, the entries and the counter are as they were.
  pub record Keeps (s s' : NcxState) : Type 0 where
    pub points : s'.nav_points ≡ s.nav_points
    pub toc : s'.toc ≡ s.toc
    pub order : s'.next_order ≡ s.next_order

  pub Inv-Keeps : (n : ℕ) {s s' : NcxState} → Keeps s s' → StateInv n s → StateInv n s'
  Inv-Keeps n k h = rw (k.points, k.toc, k.order) h

  pub start_label-Keeps :
      (s : NcxState) (points : List NavPoint) {s' : NcxState}
      → start_label s points ≡ ok s'
      → Keeps s s'
  unfolding start_label
  start_label-Keeps s [] e = cc
  start_label-Keeps s (p ∷ points) e = ground arith

  pub start_text-Keeps :
      (s : NcxState) (label : Option Label) {s' : NcxState}
      → start_text s label ≡ ok s'
      → Keeps s s'
  unfolding start_text
  start_text-Keeps s none e = cc
  start_text-Keeps s (some label) e = ground arith

  pub text_value-Keeps :
      (value : Text) (s : NcxState) (label : Option Label) {s' : NcxState}
      → text_value value s label ≡ ok s'
      → Keeps s s'
  unfolding text_value
  text_value-Keeps value s none e = ground arith
  text_value-Keeps value s (some label) e = ground arith

  pub end_text-Keeps :
      (s : NcxState) (label : Option Label) {s' : NcxState} → end_text s label ≡ ok s' → Keeps s s'
  unfolding end_text
  end_text-Keeps s none e = ground arith
  end_text-Keeps s (some label) e = ground arith

  pub end_nav_map-Keeps : (s : NcxState) {s' : NcxState} → end_nav_map s ≡ ok s' → Keeps s s'
  unfolding end_nav_map
  end_nav_map-Keeps s e = ground arith

  pub leave-Keeps :
      (is_ncx : Bool) (local : Text) (s : NcxState) {s' : NcxState}
      → leave is_ncx local s ≡ ok s'
      → Keeps s s'
  unfolding leave
  leave-Keeps is_ncx local s e = ground arith

  -- A change of the innermost point that leaves its order, and its link if it has one.
  pub Inv-head :
      (n : ℕ) (point point' : NavPoint) (points : List NavPoint) (toc : List (ℕ × TocEntry))
      (next_order : ℕ)
      → point'.order ≡ point.order
      → HasTarget point'.href
      → Inv n (point ∷ points) toc next_order
      → Inv n (point' ∷ points) toc next_order
  Inv-head n point point' points toc next_order e t h = record {
    targets = (t, h.targets.1);
    entries = h.entries;
    below = rw e h.below;
    distinct = rw e h.distinct;
    counted = h.counted;
    next = h.next;
  }

  attach_label-Inv :
      (n : ℕ) (s : NcxState) (label : Label) (points : List NavPoint) {s' : NcxState}
      → Inv n points s.toc s.next_order
      → attach_label s label points ≡ ok s'
      → StateInv n s'
  unfolding attach_label
  attach_label-Inv n s label [] h e = cc
  attach_label-Inv n s label (point ∷ points) h e = ground (
    arith,
    Inv-head n point (record point { label = some label.value }) points s.toc s.next_order,
  )

  pub end_label-Inv :
      (n : ℕ) (s : NcxState) (label : Option Label) {s' : NcxState}
      → StateInv n s
      → end_label s label ≡ ok s'
      → StateInv n s'
  unfolding end_label
  end_label-Inv n s none h e = cc
  end_label-Inv n s (some label) {s'} h e =
      attach_label-Inv n s label s.nav_points {s' = s'} h (ground arith)

  fresh_of_below : (n : ℕ) (xs : List ℕ) → All (λ o. o < n) xs → All (λ o. n ≢ o) xs
  fresh_of_below n [] h = tt
  fresh_of_below n (x ∷ xs) h = (omega arith, fresh_of_below n xs h.1)

  below-suc : (n : ℕ) (xs : List ℕ) → All (λ o. o < n) xs → All (λ o. o < suc n) xs
  below-suc n [] h = tt
  below-suc n (x ∷ xs) h = (omega arith, below-suc n xs h.1)

  -- The new point takes the next order, which no other point or entry has.
  Inv-open :
      (n : ℕ) (point : NavPoint) (points : List NavPoint) (toc : List (ℕ × TocEntry))
      (next_order : ℕ)
      → n < usize_max
      → point.order ≡ next_order
      → point.href ≡ none
      → Inv n points toc next_order
      → Inv (suc n) (point ∷ points) toc (saturating_suc next_order)
  Inv-open n point points toc next_order small order href h = record {
    targets = (rw href tt, h.targets);
    entries = h.entries;
    below = (rw (order, h.next) (omega arith), below-suc n _ h.below);
    distinct = (rw (order, h.next) (fresh_of_below n _ h.below), h.distinct);
    counted = omega (arith, h.counted);
    next = rw h.next (ground arith);
  }

  pub start_nav_point-Inv :
      (n : ℕ) (s : NcxState) {s' : NcxState}
      → n < usize_max
      → StateInv n s
      → start_nav_point s ≡ ok s'
      → StateInv (suc n) s'
  unfolding start_nav_point
  start_nav_point-Inv n s h inv e =
      let point : NavPoint = record {
        depth = s.depth;
        order = s.next_order;
        label = none;
        href = none;
      } in
      ground (arith, Inv-open n point s.nav_points s.toc s.next_order)

  Distinct-rotate : (x : ℕ) (xs : List ℕ) → Distinct (x ∷ xs) → Distinct (xs ++ (x ∷ []))
  Distinct-rotate x [] h = h
  Distinct-rotate x (y ∷ xs) ((n, h), (k, d)) =
      (All-append (λ z. y ≢ z) xs (x ∷ []) k (λ e. n (sym e), tt), Distinct-rotate x xs (h, d))

  -- The orders of the open points and the entries, when the innermost point becomes an entry.
  orders-close :
      (x : ℕ) (entry : TocEntry) (points : List NavPoint) (toc : List (ℕ × TocEntry))
      → point_orders points ++ entry_orders (toc ++ (x, entry) ∷ [])
        ≡ (point_orders points ++ entry_orders toc) ++ (x ∷ [])
  orders-close x entry points toc = simp (map-append, append_assoc)

  -- A closed point's order moves to its entry.
  pub Inv-close :
      (n : ℕ) (point : NavPoint) (points : List NavPoint) (toc : List (ℕ × TocEntry))
      (next_order : ℕ) (entry : TocEntry)
      → IsEntry entry
      → Inv n (point ∷ points) toc next_order
      → Inv n points (toc ++ (point.order, entry) ∷ []) next_order
  Inv-close n point points toc next_order entry t h = record {
    targets = h.targets.1;
    entries = All-append (λ p. IsEntry p.1) toc _ h.entries (t, tt);
    below =
        rw (orders-close point.order entry points toc)
          (All-append (λ o. o < n) _ (point.order ∷ []) h.below.1 (h.below.0, tt));
    distinct =
        rw (orders-close point.order entry points toc) (Distinct-rotate point.order _ h.distinct);
    counted = omega (arith, length-append {0} toc ((point.order, entry) ∷ []), h.counted);
    next = h.next;
  }
