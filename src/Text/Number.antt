-- ===== src/Text/Number.antt =====
-- Decimal numbers: `str::parse::<u64>`.
use folioharbor.Prelude.{
  Option, [], if◌then◌else◌, is_empty, leb, none, some, ℕ, ◌*◌, ◌+◌, ◌-◌, ◌==◌, ◌^◌, ◌∷◌,
}
use folioharbor.Text.Chars.{Text, is_digit}

abbrev pub u64_max : ℕ
u64_max = 2 ^ 64 - 1

-- The digits, on top of those read before; `none` at any other character.
unfoldable pub digits : ℕ → Text → Option ℕ
unfolding is_digit
digits read [] = some read
digits read (c ∷ s) =
    let rest = digits (read * 10 + (c - b'0')) s in if is_digit c then rest else none

abbrev pub strip_plus : Text → Text
strip_plus [] = []
strip_plus (c ∷ s) = if c == b'+' then s else c ∷ s

abbrev pub in_u64 : Option ℕ → Option ℕ
in_u64 none = none
in_u64 (some n) = if leb n u64_max then some n else none

-- A sign '+' is allowed; no digit at all, and a number past the maximum, are refused.
unfoldable pub parse_u64 : Text → Option ℕ
unfolding digits
parse_u64 s = let body = strip_plus s in if is_empty body then none else in_u64 (digits 0 body)
