-- ===== src/Epub/Ncx/Places/Fits.antt =====
-- The places of the points fit the state of the NCX reader: crates/epub/src/ncx.rs.
use mathlib.Core.Path.{subst}
use native.Mathlib.Nat.{add-zero}
use native.Mathlib.Numerals.{add-one}
use folioharbor.Prelude.{
  All, All-append, All-map, List, [], ap, ap₂, arith, drop, false, inl, inr, length, none, refl,
  some, suc, ℕ, ◌+◌, ◌++◌, ◌==◌, ◌∙◌, ◌∷◌, ◌≡◌,
}
use folioharbor.Epub.Ncx.State.{NcxState, TocEntry}
use folioharbor.Epub.Ncx.Invariant.{point_orders}
use folioharbor.Epub.Ncx.Moves.{Moves}
use folioharbor.Epub.Ncx.Places.{
  Places, fill, place, at, holes, length-fill, holes-fill, at-fill, at-fill_other, at_below,
}

-- The places of some open points and entries: the empty ones are those of the open points, and each
-- entry stands in the place of its number.
pub record Fits (n : ℕ) (places : Places) (orders : List ℕ) (toc : List (ℕ × TocEntry))
    : Type 0 where
  pub open_points : holes places ≡ orders
  pub entries : All (λ p. at places p.0 ≡ some (some p.1)) toc
  pub counted : length places ≡ n

abbrev pub StateFits : ℕ → Places → NcxState → Type 0
StateFits n places s = Fits n places (point_orders s.nav_points) s.toc

drop-append {ℓ} : {A : Type ℓ} (xs ys : List A) → drop (length xs) (xs ++ ys) ≡ ys
drop-append [] ys = refl
drop-append (x ∷ xs) ys = drop-append xs ys

drop-length {ℓ} : {A : Type ℓ} (xs : List A) → drop (length xs) xs ≡ []
drop-length [] = refl
drop-length (x ∷ xs) = drop-length xs

Opens-Fits :
    (n : ℕ) (places : Places) (orders : List ℕ) (toc : List (ℕ × TocEntry))
    → Fits n places orders toc
    → Fits (suc n) (none ∷ places) (n ∷ orders) toc
Opens-Fits n places orders toc h = record {
  open_points = ap₂ (λ x xs. x ∷ xs) h.counted h.open_points;
  entries =
      All-map
        (λ (p : ℕ × TocEntry) (e : at places p.0 ≡ some (some p.1)).
          let below = at_below places p.0 e in
          let off : (p.0 == length places) ≡ false = ground arith in rw off e)
        toc h.entries;
  counted = ap suc h.counted;
}

Closes-Fits :
    (n : ℕ) (places : Places) (order : ℕ) (orders : List ℕ) (entry : TocEntry)
    (toc : List (ℕ × TocEntry))
    → Fits n places (order ∷ orders) toc
    → Fits n (fill entry places) orders (toc ++ (order, entry) ∷ [])
Closes-Fits n places order orders entry toc h = record {
  open_points = holes-fill entry places order orders h.open_points;
  entries =
      All-append (λ p. at (fill entry places) p.0 ≡ some (some p.1)) toc ((order, entry) ∷ [])
        (All-map
          (λ (p : ℕ × TocEntry) (e : at places p.0 ≡ some (some p.1)).
            at-fill_other entry p.1 places p.0 e)
          toc h.entries)
        (at-fill entry places order orders h.open_points, tt);
  counted = length-fill entry places ∙ h.counted;
}

pub Moves-Fits :
    (n count : ℕ) (places : Places) (s s' : NcxState)
    → s.next_order ≡ n
    → Moves count s s'
    → StateFits n places s
    → StateFits (n + count) (place count s.toc s'.toc places) s'
Moves-Fits n count places s s' next (inl (one, move)) h =
    rw (one, add-one, move.points, move.entries, next)
      (Opens-Fits n places (point_orders s.nav_points) s.toc h)
Moves-Fits n count places s s' next (inr (idle, inl move)) h =
    rw (idle, add-zero, move.points, move.entries, drop-length s.toc) h
Moves-Fits n count places s s' next (inr (idle, inr move)) h =
    rw (idle, add-zero, move.entries, drop-append s.toc ((move.order, move.entry) ∷ []))
      (Closes-Fits n places move.order (point_orders s'.nav_points) move.entry s.toc
        (subst (λ orders. Fits n places orders s.toc) move.points h))
