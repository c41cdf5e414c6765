-- ===== src/Download/Disposition/Laws.antt =====
-- The `Content-Disposition` header is a legal header value, and the encoded name in it is read back.
use folioharbor.Prelude.{
  Bool, Bool-cases, List, [], all, all-append, ap, ap₂, arith, false, inl, inr, ltb, map, not, refl,
  some, true, ℕ, ◌%◌, ◌&&◌, ◌*◌, ◌++◌, ◌+◌, ◌/◌, ◌<◌, ◌==◌, ◌∙◌, ◌∷◌, ◌≡◌,
}
use folioharbor.Prelude.Result.{ok}
use folioharbor.Text.Chars.{Text, codes, in_range, is_ascii_alphanumeric}
use folioharbor.Text.Utf8.{encode, encode_char}
use folioharbor.Text.Utf8.Laws.{is_char, decode-encode}
use folioharbor.Domain.Hrefs.{hex_digit, unescape, percent_decoded}
use folioharbor.Download.Disposition.{
  content_disposition, fallback_char, hex_upper, is_plain_byte, is_unsafe, keep, leaf,
  percent_encode, sanitize,
}

-- A byte, and a character of one byte.
abbrev pub is_byte : ℕ → Bool
is_byte b = ltb b 256

encode_char-is_byte : (c : ℕ) → is_char c ≡ true → all is_byte (encode_char c) ≡ true
unfolding encode_char
encode_char-is_byte c h = ground arith

encode-is_byte : (s : Text) → all is_char s ≡ true → all is_byte (encode s) ≡ true
unfolding encode
encode-is_byte [] h = refl
encode-is_byte (c ∷ s) h =
    ground (
      arith,
      all-append is_byte (encode_char c) (encode s),
      encode_char-is_byte c,
      encode-is_byte s,
    )

encode_of_ascii : (s : Text) → all (λ c. ltb c 0x80) s ≡ true → encode s ≡ s
unfolding encode encode_char
encode_of_ascii [] h = refl
encode_of_ascii (c ∷ s) h = ground (arith, encode_of_ascii s)

hex_digit-hex_upper : (n : ℕ) → n < 16 → hex_digit (hex_upper n) ≡ some n
unfolding hex_digit hex_upper
hex_digit-hex_upper n h = ground arith

hex_upper-ascii : (n : ℕ) → n < 16 → in_range 0x20 0x7e (hex_upper n) ≡ true
unfolding hex_upper
hex_upper-ascii n h = ground arith

plain-ascii :
    (b : ℕ) → is_plain_byte b ≡ true → (in_range 0x20 0x7e b ≡ true) × ((b == b'%') ≡ false)
unfolding is_ascii_alphanumeric
plain-ascii b h = ground arith

nibbles : (b : ℕ) → is_byte b ≡ true → (b / 16 < 16) × (b % 16 < 16) × (b / 16 * 16 + b % 16 ≡ b)
nibbles b h = let small : b < 256 = ground arith in (omega arith, omega arith, omega arith)

percent_encode-ascii :
    (bytes : List ℕ)
    → all is_byte bytes ≡ true
    → all (in_range 0x20 0x7e) (percent_encode bytes) ≡ true
unfolding percent_encode
percent_encode-ascii [] h = refl
percent_encode-ascii (b ∷ bytes) h =
    let (hi, lo, _) = nibbles b (ground arith) in
    let rest = percent_encode-ascii bytes (ground arith) in
    elim (Bool-cases (is_plain_byte b)) [
      | inl plain ↦ rw plain (ap₂ (λ p q. p && q) (plain-ascii b plain).0 rest)
      | inr coded ↦ rw coded (
          ap₂ (λ p q. p && q) (hex_upper-ascii (b / 16) hi)
            (ap₂ (λ p q. p && q) (hex_upper-ascii (b % 16) lo) rest))
    ]

unescape_pair :
    (h l high low : ℕ) (bytes : List ℕ) {rest : List ℕ}
    → hex_digit h ≡ some high
    → hex_digit l ≡ some low
    → unescape bytes ≡ some rest
    → unescape (b'%' ∷ h ∷ l ∷ bytes) ≡ some ((high * 16 + low) ∷ rest)
unescape_pair h l high low bytes p q r = unfold unescape in rw (p, q, r) refl

unescape_plain :
    (b : ℕ) (bytes : List ℕ) {rest : List ℕ}
    → (b == b'%') ≡ false
    → unescape bytes ≡ some rest
    → unescape (b ∷ bytes) ≡ some (b ∷ rest)
unfolding unescape
unescape_plain b [] plain e = ground arith
unescape_plain b (h ∷ []) plain e = rw (plain, e) refl
unescape_plain b (h ∷ l ∷ bytes) plain e = rw plain (rw e refl)

-- Decoding what `percent_encode` writes gives the bytes back.
unescape-percent_encode :
    (bytes : List ℕ) → all is_byte bytes ≡ true → unescape (percent_encode bytes) ≡ some bytes
unfolding percent_encode
unescape-percent_encode [] h = unfold unescape in refl
unescape-percent_encode (b ∷ bytes) h =
    let (hi, lo, whole) = nibbles b (ground arith) in
    let rest = unescape-percent_encode bytes (ground arith) in
    elim (Bool-cases (is_plain_byte b)) [
      | inl plain ↦ rw plain (unescape_plain b (percent_encode bytes) (plain-ascii b plain).1 rest)
      | inr coded ↦ rw coded (
          unescape_pair (hex_upper (b / 16)) (hex_upper (b % 16)) (b / 16) (b % 16)
            (percent_encode bytes) (hex_digit-hex_upper (b / 16) hi)
            (hex_digit-hex_upper (b % 16) lo) rest
          ∙ ap (λ x. some (x ∷ bytes)) whole)
    ]

ascii-one_byte : (s : Text) → all (in_range 0x20 0x7e) s ≡ true → all (λ c. ltb c 0x80) s ≡ true
ascii-one_byte [] h = refl
ascii-one_byte (c ∷ s) h = ground (arith, ascii-one_byte s)

-- The name that a download's header carries in percent signs is read back by the decoder of the
-- catalog's links: `percent_decoded` is a left inverse of `percent_encode` on the bytes of a text.
pub percent_decoded-percent_encode :
    (name : Text)
    → all is_char name ≡ true
    → percent_decoded (percent_encode (encode name)) ≡ ok name
unfolding percent_decoded
percent_decoded-percent_encode name h =
    let bytes = encode-is_byte name h in
    let ascii =
      ascii-one_byte (percent_encode (encode name)) (percent_encode-ascii (encode name) bytes) in
    rw
      (
        encode_of_ascii (percent_encode (encode name)) ascii,
        unescape-percent_encode (encode name) bytes,
        decode-encode name h,
      )
      refl

fallback-ascii : (s : Text) → all (in_range 0x20 0x7e) (map fallback_char s) ≡ true
unfolding is_ascii_alphanumeric
fallback-ascii [] = refl
fallback-ascii (c ∷ s) = ground (arith, fallback-ascii s)

keep-all : (p test : ℕ → Bool) (s : Text) → all p s ≡ true → all p (keep test s) ≡ true
unfolding keep
keep-all p test [] h = refl
keep-all p test (c ∷ s) h = ground (arith, keep-all p test s)

leaf-all : (p : ℕ → Bool) (s : Text) → all p s ≡ true → all p (leaf s) ≡ true
unfolding leaf
leaf-all p [] h = refl
leaf-all p (c ∷ s) h = ground (arith, leaf-all p s)

sanitize-is_char :
    (is_format : ℕ → Bool) (name : Text)
    → all is_char name ≡ true
    → all is_char (sanitize is_format name) ≡ true
unfolding sanitize
sanitize-is_char is_format name h = ground (
  arith,
  keep-all is_char (λ c. not (is_unsafe is_format c)) (leaf name) (leaf-all is_char name h),
)

-- The header holds visible ASCII characters and spaces only, whatever the file is called and
-- whichever characters Unicode has in its category `Format`: it is a legal header value, and no
-- line break of a name reaches the response.
pub content_disposition-ascii :
    (is_format : ℕ → Bool) (name : Text)
    → all is_char name ≡ true
    → all (in_range 0x20 0x7e) (content_disposition is_format name) ≡ true
unfolding content_disposition
content_disposition-ascii is_format name h =
    let clean = sanitize is_format name in
    let coded =
      percent_encode-ascii (encode clean)
        (encode-is_byte clean (sanitize-is_char is_format name h)) in
    let plain = fallback-ascii clean in
    let second = b'"' ∷ codes "; filename*=UTF-8''" ++ percent_encode (encode clean) in
    ground (arith, all-append (in_range 0x20 0x7e) (map fallback_char clean) second)
