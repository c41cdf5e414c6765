-- ===== src/Download/Disposition.antt =====
-- The name that a download is saved under: `sanitize_download_file_name` of
-- crates/application/src/catalog/download_item.rs, and `content_disposition` and `percent_encode` of
-- crates/http/src/routes/download.rs. The category `Format` of Unicode is a third-party table, the
-- parameter `is_format`.
pub mod Laws
use folioharbor.Prelude.{
  Bool, List, [], if◌then◌else◌, is_empty, ltb, map, not, ℕ, ◌%◌, ◌++◌, ◌+◌, ◌-◌, ◌/◌, ◌==◌, ◌||◌,
  ◌∷◌,
}
use folioharbor.Text.Chars.{Text, codes, contains, is_ascii_alphanumeric, is_control, trim}
use folioharbor.Text.Utf8.{encode}

-- `rsplit(['/', '\\']).next()`: what stands behind the last separator.
unfoldable pub leaf : Text → Text
leaf [] = []
leaf (c ∷ s) =
    let rest = leaf s in
    if contains b'/' s || contains 0x5c s then rest else if c == b'/' || c == 0x5c then s else c ∷ s

unfoldable pub keep : (ℕ → Bool) → Text → Text
keep test [] = []
keep test (c ∷ s) = let rest = keep test s in if test c then c ∷ rest else rest

abbrev pub default_name : Text
default_name = codes "publication.epub"

unfoldable pub is_unsafe : (ℕ → Bool) → ℕ → Bool
is_unsafe is_format c = is_control c || is_format c

unfoldable pub sanitize : (ℕ → Bool) → Text → Text
sanitize is_format value =
    let cleaned = keep (λ c. not (is_unsafe is_format c)) (leaf value) in
    if is_empty (trim cleaned) then default_name else cleaned

abbrev pub is_plain_byte : ℕ → Bool
is_plain_byte b =
    is_ascii_alphanumeric b
    || b == b'!'
    || b == b'#'
    || b == b'$'
    || b == b'&'
    || b == b'+'
    || b == b'-'
    || b == b'.'
    || b == b'^'
    || b == b'_'
    || b == b'`'
    || b == b'|'
    || b == b'~'

unfoldable pub hex_upper : ℕ → ℕ
hex_upper n = if ltb n 10 then b'0' + n else b'A' + (n - 10)

unfoldable pub percent_encode : List ℕ → Text
percent_encode [] = []
percent_encode (b ∷ bytes) =
    let rest = percent_encode bytes in
    if is_plain_byte b then b ∷ rest else b'%' ∷ hex_upper (b / 16) ∷ hex_upper (b % 16) ∷ rest

abbrev pub fallback_char : ℕ → ℕ
fallback_char c = if is_ascii_alphanumeric c || c == b'.' || c == b'-' || c == b'_' then c else b'_'

unfoldable pub content_disposition : (ℕ → Bool) → Text → Text
content_disposition is_format file_name =
    let clean = sanitize is_format file_name in
    codes "attachment; filename="
    ++ (b'"' ∷ map fallback_char clean
        ++ (b'"' ∷ codes "; filename*=UTF-8''" ++ percent_encode (encode clean)))
