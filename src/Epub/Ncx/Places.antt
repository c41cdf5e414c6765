-- ===== src/Epub/Ncx/Places.antt =====
-- The order of a table of contents, against a reader that keeps one place for each point that the
-- document opens: `parse` of crates/epub/src/ncx.rs.
pub mod Fits
pub mod Laws
use folioharbor.Prelude.{
  ==_iff, All, All-map, Bool-cases, List, Option, [], ap, arith, drop, false, if◌then◌else◌, inl,
  inr, length, none, refl, some, suc, ℕ, ◌+◌, ◌++◌, ◌<◌, ◌==◌, ◌∷◌, ◌≡◌,
}
use folioharbor.Prelude.Result.{ok, err}
use folioharbor.Epub.Path.{EpubPath}
use folioharbor.Epub.Archive.{BoundedArchive}
use folioharbor.Epub.Xml.{Reading}
use folioharbor.Epub.Ncx.State.{NcxState, TocEntry}
use folioharbor.Epub.Ncx.Run.{on_event}
use folioharbor.Epub.Ncx.Enter.{opened}

-- The places of the points, the point that was opened last first; a place is empty until its point is
-- closed.
abbrev pub Places : Type 0
Places = List (Option TocEntry)

-- An entry in the first empty place, that of the point that was opened last among the open ones.
abbrev pub fill : TocEntry → Places → Places
fill entry [] = []
fill entry (none ∷ places) = some entry ∷ places
fill entry (some other ∷ places) = some other ∷ fill entry places

abbrev pub fill_with : List (ℕ × TocEntry) → Places → Places
fill_with [] places = places
fill_with ((_, entry) ∷ _) places = fill entry places

-- An event that opens a point adds an empty place; one that makes an entry fills one.
abbrev pub place : ℕ → List (ℕ × TocEntry) → List (ℕ × TocEntry) → Places → Places
place count toc toc' places =
    if count == 1 then none ∷ places else fill_with (drop (length toc) toc') places

-- The places after some events.
unfoldable pub places_of : BoundedArchive → EpubPath → List Reading → NcxState → Places → Places
places_of archive ncx_path [] s places = places
places_of archive ncx_path (r ∷ readings) s places =
    elim (on_event archive ncx_path r.elapsed_inside r.event s) [
      | err code ↦ places
      | ok s' ↦ places_of archive ncx_path readings s' (place (opened r.event) s.toc s'.toc places)
    ]

-- The places in the order of their points.
abbrev pub in_order : Places → Places
in_order [] = []
in_order (x ∷ places) = in_order places ++ x ∷ []

-- The place of the point that was opened with a number.
abbrev pub at : Places → ℕ → Option (Option TocEntry)
at [] i = none
at (x ∷ places) i = if i == length places then some x else at places i

-- The numbers of the empty places.
abbrev pub holes : Places → List ℕ
holes [] = []
holes (none ∷ places) = length places ∷ holes places
holes (some _ ∷ places) = holes places

pub length-fill : (entry : TocEntry) (places : Places) → length (fill entry places) ≡ length places
length-fill entry [] = refl
length-fill entry (none ∷ places) = refl
length-fill entry (some other ∷ places) = ap suc (length-fill entry places)

pub holes-fill :
    (entry : TocEntry) (places : Places) (o : ℕ) (os : List ℕ)
    → holes places ≡ o ∷ os
    → holes (fill entry places) ≡ os
holes-fill entry [] o os e = cc
holes-fill entry (none ∷ places) o os e = cc
holes-fill entry (some other ∷ places) o os e = holes-fill entry places o os e

holes_below : (places : Places) → All (λ o. o < length places) (holes places)
holes_below [] = tt
holes_below (none ∷ places) = (
  omega arith,
  All-map (λ o (h : o < length places). omega arith) (holes places) (holes_below places),
)
holes_below (some _ ∷ places) =
    All-map (λ o (h : o < length places). omega arith) (holes places) (holes_below places)

pub at-fill :
    (entry : TocEntry) (places : Places) (o : ℕ) (os : List ℕ)
    → holes places ≡ o ∷ os
    → at (fill entry places) o ≡ some (some entry)
at-fill entry [] o os e = cc
at-fill entry (none ∷ places) o os e =
    let same : o ≡ length places = cc in
    rw (same, (==_iff (length places) (length places)).1 refl) refl
at-fill entry (some other ∷ places) o os e =
    let below : o < length places = (rw e at (holes_below places)).0 in
    let off : (o == length places) ≡ false = ground arith in
    rw (length-fill entry places, off) (at-fill entry places o os e)

pub at-fill_other :
    (entry other : TocEntry) (places : Places) (i : ℕ)
    → at places i ≡ some (some other)
    → at (fill entry places) i ≡ some (some other)
at-fill_other entry other [] i e = cc
at-fill_other entry other (none ∷ places) i e = elim (Bool-cases (i == length places)) [
  | inl here ↦ absurd (cc (rw here at e))
  | inr elsewhere ↦ rw elsewhere (rw elsewhere at e)
]
at-fill_other entry other (some first ∷ places) i e = elim (Bool-cases (i == length places)) [
  | inl here ↦ rw (length-fill entry places, here) (rw here at e)
  | inr elsewhere ↦
      rw (length-fill entry places, elsewhere)
        (at-fill_other entry other places i (rw elsewhere at e))
]

pub at_below :
    (places : Places) (i : ℕ) {x : Option TocEntry} → at places i ≡ some x → i < length places
at_below [] i e = cc
at_below (x ∷ places) i e = elim (Bool-cases (i == length places)) [
  | inl here ↦ ground (arith, ==_iff i (length places))
  | inr elsewhere ↦ let below = at_below places i (rw elsewhere at e) in omega (arith, below)
]
