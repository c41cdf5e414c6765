-- ===== src/Download/Range.antt =====
-- The bytes that a request asks for: `ByteRange`, `requested_range` and `resolve_range` of
-- crates/http/src/routes/download.rs.
pub mod Laws
use folioharbor.Prelude.{
  List, Option, [], if◌then◌else◌, leb, ltb, map, none, not, some, ℕ, ◌+◌, ◌-◌, ◌==◌, ◌||◌, ◌∷◌,
}
use folioharbor.Prelude.Result.{Result, err, ok, ok_or, ◌>>=◌}
use folioharbor.Text.Chars.{Text, codes, contains, text_eq, to_ascii_lowercase}
use folioharbor.Text.Split.{split_once}
use folioharbor.Text.Number.{parse_u64}

pub data RangeError : Type 0 where
  range_error : RangeError

pub record ByteRange : Type 0 where
  pub start : ℕ
  pub end : ℕ

unfoldable pub range_length : ByteRange → ℕ
range_length range = range.end - range.start + 1

-- `(true, false)`: the last `suffix` bytes.
unfoldable pub suffix_range : Text → ℕ → Result ByteRange RangeError
suffix_range end size = ok_or (parse_u64 end) range_error >>= λ suffix.
    if suffix == 0 then err range_error else ok (record { start = size - suffix; end = size - 1 })

-- `(false, true)`: from `start` on.
unfoldable pub open_range : Text → ℕ → Result ByteRange RangeError
open_range start size = ok_or (parse_u64 start) range_error >>= λ first.
    if leb size first then err range_error else ok (record { start = first; end = size - 1 })

-- `(false, false)`: both ends given.
unfoldable pub closed_range : Text → Text → ℕ → Result ByteRange RangeError
closed_range start end size = ok_or (parse_u64 start) range_error >>= λ first.
    ok_or (parse_u64 end) range_error >>= λ requested_end.
    if ltb requested_end first || leb size first
    then err range_error
    else ok (record {
      start = first;
      end = if leb requested_end (size - 1) then requested_end else size - 1;
    })

unfoldable pub resolve_ends : Text × Text → ℕ → Result ByteRange RangeError
resolve_ends ([], []) size = err range_error
resolve_ends ([], (c ∷ end)) size = suffix_range (c ∷ end) size
resolve_ends ((c ∷ start), []) size = open_range (c ∷ start) size
resolve_ends ((c ∷ start), (d ∷ end)) size = closed_range (c ∷ start) (d ∷ end) size

unfoldable pub resolve_unit : Text × Text → ℕ → Result ByteRange RangeError
resolve_unit (unit, range) size =
    if not (text_eq (map to_ascii_lowercase unit) (codes "bytes"))
    then err range_error
    else if contains b',' range
    then err range_error
    else ok_or (split_once b'-' range) range_error >>= λ ends. resolve_ends ends size

unfoldable pub resolve_range : Option Text → ℕ → Result ByteRange RangeError
resolve_range none size =
    if size == 0 then err range_error else ok (record { start = 0; end = size - 1 })
resolve_range (some value) size =
    if size == 0
    then err range_error
    else ok_or (split_once b'=' value) range_error >>= λ parts. resolve_unit parts size

-- The values of the `Range` header; one that is no visible text is `none`.
unfoldable pub requested_range : List (Option Text) → Result (Option Text) RangeError
requested_range [] = ok none
requested_range (none ∷ []) = err range_error
requested_range (some value ∷ []) = ok (some value)
requested_range (value ∷ again ∷ values) = err range_error
