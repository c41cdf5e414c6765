-- ===== src/Domain/Hrefs.antt =====
-- The links of a publication: `percent_decoded`, `validate_path`, `normalized_href`,
-- `normalized_locator`, `SpineEntry` and `TocEntry` of crates/domain/src/catalog/content_unit.rs.
pub mod Laws
use folioharbor.Prelude.{
  Bool, List, Option, [], any, if◌then◌else◌, is_empty, ltb, none, some, ℕ, ◌*◌, ◌+◌, ◌-◌, ◌==◌,
  ◌||◌, ◌∷◌,
}
use folioharbor.Prelude.Result.{err, ok, ok_or, refuse_if, ◌>>=◌, ◌>>◌}
use folioharbor.Text.Chars.{
  Text, codes, contains, contains_any, in_range, is_control, is_whitespace, starts_with, text_eq,
  trim,
}
use folioharbor.Text.Split.{split, split_once}
use folioharbor.Text.Utf8.{encode, decode, byte_len}
use folioharbor.Domain.Metadata.{Catalog, CatalogValueError, invalid_metadata}

pub record SpineEntry : Type 0 where
  pub href : Text
  pub linear : Bool

pub record TocEntry : Type 0 where
  pub label : Text
  pub href : Text

unfoldable pub hex_digit : ℕ → Option ℕ
hex_digit value =
    if in_range b'0' b'9' value
    then some (value - b'0')
    else if in_range b'a' b'f' value
    then some (value - b'a' + 10)
    else if in_range b'A' b'F' value
    then some (value - b'A' + 10)
    else none

abbrev pub push_pair : Option ℕ → Option ℕ → Option (List ℕ) → Option (List ℕ)
push_pair (some high) (some low) (some rest) = some ((high * 16 + low) ∷ rest)
push_pair _ _ _ = none

abbrev pub push_byte : ℕ → Option (List ℕ) → Option (List ℕ)
push_byte b none = none
push_byte b (some rest) = some (b ∷ rest)

-- The loop over the bytes, from the index on; `none` at a '%' without two hexadecimal digits.
unfoldable pub unescape : List ℕ → Option (List ℕ)
unescape [] = some []
unescape (b ∷ []) = if b == b'%' then none else some (b ∷ [])
unescape (b ∷ h ∷ []) = let next = unescape (h ∷ []) in if b == b'%' then none else push_byte b next
unescape (b ∷ h ∷ l ∷ bytes) =
    let skip = unescape bytes in
    let next = unescape (h ∷ l ∷ bytes) in
    if b == b'%' then push_pair (hex_digit h) (hex_digit l) skip else push_byte b next

unfoldable pub percent_decoded : Text → Catalog Text
percent_decoded value = ok_or (unescape (encode value)) invalid_metadata >>= λ bytes.
    ok_or (decode bytes) invalid_metadata

abbrev pub is_dots : Text → Bool
is_dots part = is_empty part || text_eq part (codes ".") || text_eq part (codes "..")

unfoldable pub is_bad_path : Text → Text → Bool
is_bad_path value decoded =
    is_empty value
    || ltb 2_048 (byte_len value)
    || contains_any (b'?' ∷ b'#' ∷ []) value
    || starts_with b'/' decoded
    || contains_any (0x5c ∷ b':' ∷ b'?' ∷ b'#' ∷ []) decoded
    || any is_dots (split b'/' decoded)
    || any is_control decoded

unfoldable pub validate_path : Text → Catalog (Unit {0})
validate_path value =
    percent_decoded value >>= λ decoded. refuse_if (is_bad_path value decoded) invalid_metadata

unfoldable pub normalized_href : Text → Catalog Text
normalized_href value = validate_path value >> ok value

unfoldable pub is_bad_fragment : Text → Bool
is_bad_fragment decoded =
    is_empty decoded
    || contains_any (0x5c ∷ b':' ∷ b'/' ∷ b'?' ∷ b'#' ∷ []) decoded
    || any (λ c. is_control c || is_whitespace c) decoded

unfoldable pub locate : Text → Option (Text × Text) → Catalog Text
locate value none = validate_path value >> ok value
locate value (some (path, fragment)) =
    validate_path path
    >> (refuse_if (is_empty fragment || contains b'#' fragment) invalid_metadata
        >> (percent_decoded fragment >>= λ decoded.
            refuse_if (is_bad_fragment decoded) invalid_metadata >> ok value))

unfoldable pub normalized_locator : Text → Catalog Text
normalized_locator value =
    if ltb 2_048 (byte_len value)
    then err invalid_metadata
    else locate value (split_once b'#' value)

-- `SpineEntry::new`
unfoldable pub new_spine : Text → Bool → Catalog SpineEntry
new_spine href linear =
    normalized_href href >>= λ checked. ok (record { href = checked; linear = linear })

-- `TocEntry::new`
unfoldable pub new_toc : Text → Text → Catalog TocEntry
new_toc label href =
    let trimmed = trim label in
    if is_empty trimmed || ltb 2_048 (byte_len trimmed) || any is_control trimmed
    then err invalid_metadata
    else normalized_locator href >>= λ checked. ok (record { label = trimmed; href = checked })
