-- ===== src/Epub/Ncx/Places/Laws.antt =====
-- The order of a table of contents is that of its places: `parse` of crates/epub/src/ncx.rs.
use mathlib.Core.List.{append_assoc}
use native.Mathlib.Nat.{add-zero, add_assoc}
use folioharbor.Prelude.{
  ==_iff, All, All-map, Bool-cases, List, Option, [], ap, ap₂, arith, inl, inr, length, map, none,
  refl, some, suc, sym, length-append, zero, ℕ, ◌+◌, ◌++◌, ◌==◌, ◌∙◌, ◌∷◌, ◌≡◌, ◌≤◌,
}
use folioharbor.Prelude.Result.{ok}
use folioharbor.Epub.Path.{EpubPath}
use folioharbor.Epub.Archive.{BoundedArchive}
use folioharbor.Epub.Xml.{Reading, usize_max}
use folioharbor.Epub.Ncx.State.{NcxState, TocEntry, new_state}
use folioharbor.Epub.Ncx.Run.{on_event, parse, run, sort}
use folioharbor.Epub.Ncx.Invariant.{StateInv, entry_orders}
use folioharbor.Epub.Ncx.Enter.{opened}
use folioharbor.Epub.Ncx.Moves.Events.{on_event-Moves}
use folioharbor.Epub.Ncx.Preserve.{on_event-Inv}
use folioharbor.Epub.Ncx.Sort.{count_up, sort-All}
use folioharbor.Epub.Ncx.Order.{new_state-Inv, opened_in, parse-order, opened_le, run_end, run_step}
use folioharbor.Epub.Ncx.Places.{Places, place, places_of, in_order, at}
use folioharbor.Epub.Ncx.Places.Fits.{StateFits, Moves-Fits}

-- A place in a list.
abbrev nth : Places → ℕ → Option (Option TocEntry)
nth [] i = none
nth (x ∷ xs) zero = some x
nth (x ∷ xs) (suc i) = nth xs i

nth_end :
    (xs : Places) (x : Option TocEntry) (rest : Places) → nth (xs ++ x ∷ rest) (length xs) ≡ some x
nth_end [] x rest = refl
nth_end (y ∷ xs) x rest = nth_end xs x rest

nth_front :
    (xs rest : Places) (i : ℕ) {x : Option TocEntry}
    → nth xs i ≡ some x
    → nth (xs ++ rest) i ≡ some x
nth_front [] rest i e = cc
nth_front (y ∷ xs) rest zero e = e
nth_front (y ∷ xs) rest (suc i) e = nth_front xs rest i e

length-in_order : (places : Places) → length (in_order places) ≡ length places
length-in_order [] = refl
length-in_order (x ∷ places) =
    omega (arith, length-append (in_order places) (x ∷ []), length-in_order places)

nth-in_order :
    (places : Places) (i : ℕ) {x : Option TocEntry}
    → at places i ≡ some x
    → nth (in_order places) i ≡ some x
nth-in_order [] i e = cc
nth-in_order (y ∷ places) i {x} e = elim (Bool-cases (i == length places)) [
  | inl here ↦
      let same : i ≡ length (in_order places) =
        (==_iff i (length places)).0 here ∙ sym (length-in_order places) in
      let last : y ≡ x = ground (arith, rw here at e) in
      rw (same, ← last) (nth_end (in_order places) y [])
  | inr elsewhere ↦
      nth_front (in_order places) (y ∷ []) i (nth-in_order places i (rw elsewhere at e))
]

-- A list in whose places the entries of some numbers, which count up, stand.
read_off :
    (front rest : Places) (k m : ℕ) (toc : List (ℕ × TocEntry))
    → length front ≡ k
    → length rest ≡ m
    → entry_orders toc ≡ count_up k m
    → All (λ p. nth (front ++ rest) p.0 ≡ some (some p.1)) toc
    → rest ≡ map (λ p. some p.1) toc
read_off front [] k m [] f l e h = refl
read_off front (x ∷ rest) k zero [] f l e h = absurd (omega (arith, l))
read_off front (x ∷ rest) k (suc m) [] f l e h = cc
read_off front [] k zero (p ∷ toc) f l e h = cc
read_off front [] k (suc m) (p ∷ toc) f l e h = absurd (omega (arith, l))
read_off front (x ∷ rest) k zero (p ∷ toc) f l e h = absurd (omega (arith, l))
read_off front (x ∷ rest) k (suc m) ((o, entry) ∷ toc) f l e (first, h) =
    let head : o ≡ k = cc in
    let same : o ≡ length front = head ∙ sym f in
    let others : entry_orders toc ≡ count_up (suc k) m = cc in
    let found : some x ≡ some (some entry) =
      sym (nth_end front x rest) ∙ ap (nth (front ++ x ∷ rest)) (sym same) ∙ first in
    let here : x ≡ some entry = cc in
    ap₂ (λ y ys. y ∷ ys) here
      (read_off (front ++ x ∷ []) rest (suc k) m toc
        (omega (arith, length-append front (x ∷ []), f)) (omega (arith, l)) others
        (rw (append_assoc front (x ∷ []) rest) h))

module _ (archive : BoundedArchive) (ncx_path : EpubPath) where
  places_of_step :
      (r : Reading) (readings : List Reading) (s next : NcxState) (places : Places)
      → on_event archive ncx_path r.elapsed_inside r.event s ≡ ok next
      → places_of archive ncx_path (r ∷ readings) s places
        ≡ places_of archive ncx_path readings next (place (opened r.event) s.toc next.toc places)
  unfolding places_of
  places_of_step r readings s next places e = rw (places_of, e) refl

  run-Fits :
      (n : ℕ) (readings : List Reading) (last : ℕ) (s : NcxState) (places : Places) {s' : NcxState}
      → n + length readings ≤ usize_max
      → StateInv archive n s
      → StateFits n places s
      → run archive ncx_path readings last s ≡ ok s'
      → StateFits (n + opened_in readings) (places_of archive ncx_path readings s places) s'
  unfolding places_of
  run-Fits n [] last s places small inv h e = rw (run_end archive ncx_path last s e, add-zero) h
  run-Fits n (r ∷ readings) last s places small inv h e =
      let (next, stepped, e') = run_step archive ncx_path r readings last s e in
      let inv' =
        on_event-Inv archive ncx_path n r.elapsed_inside r.event s (omega arith) inv stepped in
      let moved = on_event-Moves archive ncx_path r.elapsed_inside r.event s stepped in
      let h' = Moves-Fits n (opened r.event) places s next inv.next moved h in
      rw (← add_assoc, places_of_step r readings s next places stepped)
        (run-Fits (n + opened r.event) readings last next _ (omega (arith, opened_le r.event)) inv'
          h' e')

  empty_state-Fits : StateFits 0 [] new_state
  unfolding new_state
  empty_state-Fits = record { open_points = refl; entries = tt; counted = refl }

  length-map {ℓ κ} :
      {A : Type ℓ} {B : Type κ} (f : A → B) (xs : List A) → length (map f xs) ≡ length xs
  length-map f [] = refl
  length-map f (x ∷ xs) = ap suc (length-map f xs)

  map-map : (toc : List (ℕ × TocEntry)) → map (λ p. some p.1) toc ≡ map some (map (λ p. p.1) toc)
  map-map [] = refl
  map-map (p ∷ toc) = ap (λ ys. some p.1 ∷ ys) (map-map toc)

  -- The entries of a parsed table of contents stand in the order in which the document opens their
  -- `navPoint` elements, one for each of them, a point before those inside it: they are the places of
  -- a reader that adds an empty place where a point is opened and puts the entry that is made where a
  -- point is closed in the empty place that was added last; if the document has at most as many events
  -- as a machine word counts.
  pub parse-places :
      (readings : List Reading) (last : ℕ) {toc : List TocEntry}
      → length readings ≤ usize_max
      → parse archive ncx_path readings last ≡ ok toc
      → (in_order (places_of archive ncx_path readings new_state []) ≡ map some toc)
        × (length toc ≡ opened_in readings)
  parse-places readings last {toc} small e =
      let (s, ran, same, numbered) =
        parse-order archive ncx_path readings last {toc = toc} small e in
      let fits =
        run-Fits 0 readings last new_state [] (omega arith) (new_state-Inv archive ncx_path)
          empty_state-Fits ran in
      let places = places_of archive ncx_path readings new_state [] in
      let counted : length (in_order places) ≡ opened_in readings =
        omega (arith, length-in_order places, fits.counted) in
      let standing =
        sort-All (λ p. nth (in_order places) p.0 ≡ some (some p.1)) s.toc
          (All-map
            (λ (p : ℕ × TocEntry) (h : at places p.0 ≡ some (some p.1)). nth-in_order places p.0 h)
            s.toc fits.entries) in
      let read =
        read_off [] (in_order places) 0 (opened_in readings) (sort s.toc) refl counted numbered
          standing in
      let whole : in_order places ≡ map some toc =
        read ∙ map-map (sort s.toc) ∙ ap (map some) (sym same) in
      (whole, sym (length-map some toc) ∙ ap length (sym whole) ∙ counted)
