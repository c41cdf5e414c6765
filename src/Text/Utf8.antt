-- ===== src/Text/Utf8.antt =====
-- UTF-8: the bytes of a text, their number (`str::len`), and `String::from_utf8`.
pub mod Laws
use folioharbor.Prelude.{
  List, Option, [], if◌then◌else◌, length, ltb, none, some, suc, zero, ℕ, ◌%◌, ◌*◌, ◌++◌, ◌+◌, ◌-◌,
  ◌/◌, ◌==◌, ◌∷◌,
}
use folioharbor.Text.Chars.{Text, in_range}

unfoldable pub encode_char : ℕ → List ℕ
encode_char c =
    if ltb c 0x80
    then c ∷ []
    else if ltb c 0x800
    then (0xc0 + c / 64) ∷ (0x80 + c % 64) ∷ []
    else if ltb c 0x1_0000
    then (0xe0 + c / 4096) ∷ (0x80 + c / 64 % 64) ∷ (0x80 + c % 64) ∷ []
    else (0xf0 + c / 0x4_0000)
      ∷ (0x80 + c / 4096 % 64)
      ∷ (0x80 + c / 64 % 64)
      ∷ (0x80 + c % 64)
      ∷ []

-- `str::as_bytes`
unfoldable pub encode : Text → List ℕ
unfolding encode_char
encode [] = []
encode (c ∷ s) = encode_char c ++ encode s

-- `str::len`
unfoldable pub byte_len : Text → ℕ
unfolding encode
byte_len s = length (encode s)

-- Between two bytes: nothing is pending, or `need + 1` bytes are, the next of them between `lo` and
-- `hi`, with the bits so far.
pub data Pending : Type 0 where
  idle broken : Pending
  pending : ℕ → ℕ → ℕ → ℕ → Pending

abbrev pub lead : ℕ → Pending
lead b =
    if in_range 0xc2 0xdf b
    then pending 0 0x80 0xbf (b - 0xc0)
    else if b == 0xe0
    then pending 1 0xa0 0xbf 0
    else if b == 0xed
    then pending 1 0x80 0x9f 13
    else if in_range 0xe1 0xef b
    then pending 1 0x80 0xbf (b - 0xe0)
    else if b == 0xf0
    then pending 2 0x90 0xbf 0
    else if in_range 0xf1 0xf3 b
    then pending 2 0x80 0xbf (b - 0xf0)
    else if b == 0xf4
    then pending 2 0x80 0x8f 4
    else broken

-- The state after a byte, and the character that it ends.
abbrev pub feed : Pending → ℕ → Pending × Option ℕ
feed idle b = if ltb b 0x80 then (idle, some b) else (lead b, none)
feed broken b = (broken, none)
feed (pending zero lo hi bits) b =
    if in_range lo hi b then (idle, some (bits * 64 + (b - 0x80))) else (broken, none)
feed (pending (suc need) lo hi bits) b =
    if in_range lo hi b
    then (pending need 0x80 0xbf (bits * 64 + (b - 0x80)), none)
    else (broken, none)

abbrev pub push_char : Option ℕ → Option Text → Option Text
push_char none rest = rest
push_char (some c) none = none
push_char (some c) (some s) = some (c ∷ s)

unfoldable pub decode_from : Pending → List ℕ → Option Text
decode_from idle [] = some []
decode_from broken [] = none
decode_from (pending need lo hi bits) [] = none
decode_from state (b ∷ bytes) =
    let (state', char) = feed state b in push_char char (decode_from state' bytes)

-- `String::from_utf8`
unfoldable pub decode : List ℕ → Option Text
unfolding decode_from
decode bytes = decode_from idle bytes
