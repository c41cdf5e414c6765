-- ===== src/Epub/Ncx/Order.antt =====
-- The result of the NCX reader, `run`, `finish` and `parse` of crates/epub/src/ncx.rs: what it
-- returns, and in which order.
use mathlib.Core.Path.{subst}
use native.Mathlib.Nat.{add-zero, zero-add, add_assoc}
use folioharbor.Prelude.{
  All, Bool-cases, List, [], arith, false, inl, inr, is_empty, length, map, refl, ℕ, ◌+◌, ◌∷◌, ◌≡◌,
  ◌≤◌,
}
use folioharbor.Prelude.Result.{Result-cases, ok}
use folioharbor.Epub.Path.{EpubPath}
use folioharbor.Epub.Archive.{BoundedArchive}
use folioharbor.Epub.Xml.{Reading, usize_max, Event}
use folioharbor.Epub.Ncx.State.{NavPoint, NcxState, TocEntry, new_state}
use folioharbor.Epub.Ncx.Run.{finish, is_unfinished, on_event, parse, run, sort}
use folioharbor.Epub.Ncx.Invariant.{Inv, IsEntry, StateInv, entry_orders}
use folioharbor.Epub.Ncx.Enter.{opened}
use folioharbor.Epub.Ncx.Preserve.{on_event-Inv}
use folioharbor.Epub.Ncx.Sort.{count_up, insert_full, sort-All, sort-count_up}

-- How many points a whole document opens.
abbrev pub opened_in : List Reading → ℕ
opened_in [] = 0
opened_in (r ∷ readings) = opened r.event + opened_in readings

pub opened_le : (event : Event) → opened event ≤ 1
opened_le event = ground arith

module _ (archive : BoundedArchive) (ncx_path : EpubPath) where
  pub run_end :
      (last : ℕ) (s : NcxState) {s' : NcxState} → run archive ncx_path [] last s ≡ ok s' → s' ≡ s
  unfolding run
  run_end last s e = ground arith

  pub run_step :
      (r : Reading) (readings : List Reading) (last : ℕ) (s : NcxState) {s' : NcxState}
      → run archive ncx_path (r ∷ readings) last s ≡ ok s'
      → (next : NcxState) × (on_event archive ncx_path r.elapsed_inside r.event s ≡ ok next)
        × (run archive ncx_path readings last next ≡ ok s')
  unfolding run
  run_step r readings last s e =
      elim (Result-cases (on_event archive ncx_path r.elapsed_inside r.event s)) [
        | inl (next, stepped) ↦ (next, stepped, ground (arith, stepped))
        | inr (code, failed) ↦ absurd (ground arith)
      ]

  run-Inv :
      (n : ℕ) (readings : List Reading) (last : ℕ) (s : NcxState) {s' : NcxState}
      → n + length readings ≤ usize_max
      → StateInv archive n s
      → run archive ncx_path readings last s ≡ ok s'
      → StateInv archive (n + opened_in readings) s'
  run-Inv n [] last s small h e = rw (run_end last s e, add-zero) h
  run-Inv n (r ∷ readings) last s small h e =
      let (next, stepped, e') = run_step r readings last s e in
      let h' = on_event-Inv archive ncx_path n r.elapsed_inside r.event s (omega arith) h stepped in
      rw (← add_assoc)
        (run-Inv (n + opened r.event) readings last next (omega (arith, opened_le r.event)) h' e')

  pub new_state-Inv : StateInv archive 0 new_state
  unfolding new_state
  new_state-Inv = record {
    targets = tt;
    entries = tt;
    below = tt;
    distinct = tt;
    counted = refl;
    next = refl;
  }

  finish_some :
      (s : NcxState) {toc : List TocEntry}
      → finish s ≡ ok toc
      → (is_unfinished s ≡ false) × (toc ≡ map (λ p. p.1) (sort s.toc))
  unfolding finish
  finish_some s e = elim (Bool-cases (is_unfinished s)) [
    | inl open_end ↦ absurd (cc (rw open_end at e))
    | inr done ↦ (done, ground arith)
  ]

  pub points_closed : (s : NcxState) → is_unfinished s ≡ false → s.nav_points ≡ []
  points_closed s e = ground arith

  toc_full : (s : NcxState) → is_unfinished s ≡ false → is_empty s.toc ≡ false
  toc_full s e = ground arith

  sorted_full :
      (toc : List (ℕ × TocEntry))
      → is_empty toc ≡ false
      → is_empty (map (λ p. p.1) (sort toc)) ≡ false
  unfolding sort
  sorted_full [] e = cc
  sorted_full (x ∷ toc) e = insert_full x (sort toc)

  Inv-sorted :
      (n : ℕ) (points : List NavPoint) (toc : List (ℕ × TocEntry)) (next_order : ℕ)
      → points ≡ []
      → Inv archive n points toc next_order
      → entry_orders (sort toc) ≡ count_up 0 n
  Inv-sorted n points toc next_order e h =
      let h' : Inv archive n [] toc next_order =
        subst (λ ps. Inv archive n ps toc next_order) e h in
      sort-count_up n toc h'.distinct h'.below (omega (arith, h'.counted))

  All-entries :
      (toc : List (ℕ × TocEntry))
      → All (λ p. IsEntry archive p.1) toc
      → All (IsEntry archive) (map (λ p. p.1) toc)
  All-entries [] h = tt
  All-entries (x ∷ toc) (p, h) = (p, All-entries toc h)

  -- What `parse` has when it returns a table of contents.
  pub parse_some :
      (readings : List Reading) (last : ℕ) {toc : List TocEntry}
      → parse archive ncx_path readings last ≡ ok toc
      → (s : NcxState) × (run archive ncx_path readings last new_state ≡ ok s)
        × (is_unfinished s ≡ false)
        × (toc ≡ map (λ p. p.1) (sort s.toc))
  unfolding parse
  parse_some readings last {toc} e =
      elim (Result-cases (run archive ncx_path readings last new_state)) [
        | inl (s, ran) ↦
            let (done, same) = finish_some s {toc = toc} (ground (arith, ran)) in
            (s, ran, done, same)
        | inr (code, failed) ↦ absurd (ground arith)
      ]

  -- Every entry of a parsed table of contents has a label that is not blank and a link to a normal
  -- path which is an entry of the archive, and the table is not empty, if the document has at most
  -- as many events as a machine word counts.
  pub parse-IsEntry :
      (readings : List Reading) (last : ℕ) {toc : List TocEntry}
      → length readings ≤ usize_max
      → parse archive ncx_path readings last ≡ ok toc
      → All (IsEntry archive) toc × (is_empty toc ≡ false)
  parse-IsEntry readings last small e =
      let (s, ran, done, same) = parse_some readings last e in
      let h = run-Inv 0 readings last new_state (omega arith) new_state-Inv ran in
      let entries =
        All-entries (sort s.toc) (sort-All (λ p. IsEntry archive p.1) s.toc h.entries) in
      (rw same entries, rw same (sorted_full s.toc (toc_full s done)))

  -- The entries of a parsed table of contents are those of the final state, sorted by their numbers,
  -- which are then 0, 1, 2 and so on up to the number of the `navPoint` elements that are opened.
  pub parse-order :
      (readings : List Reading) (last : ℕ) {toc : List TocEntry}
      → length readings ≤ usize_max
      → parse archive ncx_path readings last ≡ ok toc
      → (s : NcxState) × (run archive ncx_path readings last new_state ≡ ok s)
        × (toc ≡ map (λ p. p.1) (sort s.toc))
        × (entry_orders (sort s.toc) ≡ count_up 0 (opened_in readings))
  parse-order readings last small e =
      let (s, ran, done, same) = parse_some readings last e in
      let h = run-Inv 0 readings last new_state (omega arith) new_state-Inv ran in
      let sorted = Inv-sorted _ s.nav_points s.toc s.next_order (points_closed s done) h in
      (s, ran, same, rw zero-add at sorted)
