-- ===== src/Download/Range/Laws.antt =====
-- A resolved range lies in the file.
use folioharbor.Prelude.{
  Option, Option-cases, [], arith, if◌then◌else◌, inl, inr, leb, none, some, ℕ, ◌+◌, ◌-◌, ◌<◌, ◌↔◌,
  ◌∷◌, ◌≡◌, ◌≤◌, ◌⊎◌,
}
use folioharbor.Prelude.Result.{err, ok}
use folioharbor.Text.Chars.{Text}
use folioharbor.Text.Split.{split_once}
use folioharbor.Text.Number.{parse_u64}
use folioharbor.Download.Range.{
  ByteRange, closed_range, open_range, range_error, range_length, resolve_ends, resolve_range,
  resolve_unit, suffix_range,
}

pub record IsWithin (range : ByteRange) (size : ℕ) : Type 0 where
  pub ordered : range.start ≤ range.end
  pub inside : range.end < size

suffix_range-IsWithin :
    (end : Text) (size : ℕ) {range : ByteRange}
    → 0 < size
    → suffix_range end size ≡ ok range
    → IsWithin range size
unfolding suffix_range
suffix_range-IsWithin end size pos e = ground arith

open_range-IsWithin :
    (start : Text) (size : ℕ) {range : ByteRange}
    → 0 < size
    → open_range start size ≡ ok range
    → IsWithin range size
unfolding open_range
open_range-IsWithin start size pos e = ground arith

closed_range-IsWithin :
    (start end : Text) (size : ℕ) {range : ByteRange}
    → 0 < size
    → closed_range start end size ≡ ok range
    → IsWithin range size
unfolding closed_range
closed_range-IsWithin start end size pos e = ground arith

resolve_ends-IsWithin :
    (ends : Text × Text) (size : ℕ) {range : ByteRange}
    → 0 < size
    → resolve_ends ends size ≡ ok range
    → IsWithin range size
unfolding resolve_ends
resolve_ends-IsWithin ([], []) size pos e = cc
resolve_ends-IsWithin ([], (c ∷ end)) size pos e = suffix_range-IsWithin (c ∷ end) size pos e
resolve_ends-IsWithin ((c ∷ start), []) size pos e = open_range-IsWithin (c ∷ start) size pos e
resolve_ends-IsWithin ((c ∷ start), (d ∷ end)) size pos e =
    closed_range-IsWithin (c ∷ start) (d ∷ end) size pos e

resolve_unit-IsWithin :
    (parts : Text × Text) (size : ℕ) {range : ByteRange}
    → 0 < size
    → resolve_unit parts size ≡ ok range
    → IsWithin range size
unfolding resolve_unit
resolve_unit-IsWithin (unit, wanted) size {range} pos e =
    elim (Option-cases (split_once b'-' wanted)) [
      | inl missing ↦ absurd (ground arith)
      | inr (ends, found) ↦ resolve_ends-IsWithin ends size {range = range} pos (ground arith)
    ]

-- A range that is resolved is not empty and lies in the file, so its length, `end - start + 1`,
-- cannot wrap around and is at most the size; and an empty file has no range.
pub resolve_range-IsWithin :
    (value : Option Text) (size : ℕ) {range : ByteRange}
    → resolve_range value size ≡ ok range
    → IsWithin range size
      × (range_length range + range.start ≡ range.end + 1)
      × (range_length range ≤ size)
unfolding resolve_range range_length
resolve_range-IsWithin none size e = ground arith
resolve_range-IsWithin (some value) size {range} e = elim (Option-cases (split_once b'=' value)) [
  | inl missing ↦ absurd (ground arith)
  | inr (parts, found) ↦
      let h = resolve_unit-IsWithin parts size {range = range} (ground arith) (ground arith) in
      (h, omega (arith, h), omega (arith, h))
]

-- `bytes=A-B` with numbers A and B is the part of A to B that the file has, both ends included,
-- exactly when A is not after B and not past the end; otherwise, and only then, it is refused.
pub closed_range_iff :
    (start end : Text) (size first last : ℕ)
    → parse_u64 start ≡ some first
    → parse_u64 end ≡ some last
    → (((range : ByteRange) × (closed_range start end size ≡ ok range)
          × ((i : ℕ)
              → ((range.start ≤ i) × (i ≤ range.end)) ↔ ((first ≤ i) × (i ≤ last) × (i < size))))
        ↔ ((first ≤ last) × (first < size)))
      × ((closed_range start end size ≡ err range_error) ↔ ((last < first) ⊎ (size ≤ first)))
unfolding closed_range
closed_range_iff start end size first last p q = (
  (
    λ h. ground (arith, h.1),
    λ h. (
      record { start = first; end = if leb last (size - 1) then last else size - 1 },
      ground arith,
      λ i. (λ r. ground arith, λ r. ground arith),
    ),
  ),
  ground arith,
)
