-- ===== src/Text/Utf8/Laws.antt =====
-- A text is read back from its UTF-8 bytes.
use folioharbor.Prelude.{
  Bool, Bool-cases, List, Option, [], all, ap, arith, if◌then◌else◌, inl, inr, ltb, none, refl,
  some, suc, true, ℕ, ◌%◌, ◌*◌, ◌++◌, ◌+◌, ◌/◌, ◌<◌, ◌==◌, ◌||◌, ◌∙◌, ◌∷◌, ◌≡◌, ◌≤◌,
}
use folioharbor.Text.Chars.{Text, in_range}
use folioharbor.Text.Utf8.{
  Pending, broken, decode, decode_from, encode, encode_char, feed, idle, pending, push_char,
}

-- A `char`: a code point that is no surrogate.
abbrev pub is_char : ℕ → Bool
is_char c = ltb c 0xd800 || in_range 0xe000 0x10_ffff c

decode_from_step :
    (state : Pending) (b : ℕ) (bytes : List ℕ) {state' : Pending} {char : Option ℕ}
    → feed state b ≡ (state', char)
    → decode_from state (b ∷ bytes) ≡ push_char char (decode_from state' bytes)
unfolding decode_from
decode_from_step idle b bytes e = rw e
decode_from_step broken b bytes e = ground arith
decode_from_step (pending need lo hi bits) b bytes e = rw e

-- A leading byte of two, three and four bytes, and a byte that follows.
feed-lead_two : (q : ℕ) → 2 ≤ q → q < 32 → feed idle (0xc0 + q) ≡ (pending 0 0x80 0xbf q, none)
feed-lead_two q lo hi = ground arith

feed-last :
    (lo hi bits r : ℕ)
    → lo ≤ 0x80 + r
    → 0x80 + r ≤ hi
    → feed (pending 0 lo hi bits) (0x80 + r) ≡ (idle, some (bits * 64 + r))
feed-last lo hi bits r p q = ground arith

feed-middle :
    (need lo hi bits r : ℕ)
    → lo ≤ 0x80 + r
    → 0x80 + r ≤ hi
    → feed (pending (suc need) lo hi bits) (0x80 + r)
      ≡ (pending need 0x80 0xbf (bits * 64 + r), none)
feed-middle need lo hi bits r p q = ground arith

decode_two :
    (q r : ℕ) (bytes : List ℕ)
    → 2 ≤ q
    → q < 32
    → r < 64
    → decode_from idle ((0xc0 + q) ∷ (0x80 + r) ∷ bytes)
      ≡ push_char (some (q * 64 + r)) (decode_from idle bytes)
decode_two q r bytes lo hi h =
    decode_from_step idle (0xc0 + q) ((0x80 + r) ∷ bytes) (feed-lead_two q lo hi)
    ∙ decode_from_step (pending 0 0x80 0xbf q) (0x80 + r) bytes
        (feed-last 0x80 0xbf q r (omega arith) (omega arith))

-- The range of the byte after the leading one of three.
abbrev second_lo : ℕ → ℕ
second_lo p = if p == 0 then 0xa0 else 0x80

abbrev second_hi : ℕ → ℕ
second_hi p = if p == 13 then 0x9f else 0xbf

feed-lead_three :
    (p : ℕ) → p < 16 → feed idle (0xe0 + p) ≡ (pending 1 (second_lo p) (second_hi p) p, none)
feed-lead_three p h = ground arith

decode_three :
    (p q r : ℕ) (bytes : List ℕ)
    → p < 16
    → q < 64
    → r < 64
    → second_lo p ≤ 0x80 + q
    → 0x80 + q ≤ second_hi p
    → decode_from idle ((0xe0 + p) ∷ (0x80 + q) ∷ (0x80 + r) ∷ bytes)
      ≡ push_char (some ((p * 64 + q) * 64 + r)) (decode_from idle bytes)
decode_three p q r bytes hp hq hr lo hi =
    decode_from_step idle (0xe0 + p) ((0x80 + q) ∷ (0x80 + r) ∷ bytes) (feed-lead_three p hp)
    ∙ decode_from_step (pending 1 (second_lo p) (second_hi p) p) (0x80 + q) ((0x80 + r) ∷ bytes)
        (feed-middle 0 (second_lo p) (second_hi p) p q lo hi)
    ∙ decode_from_step (pending 0 0x80 0xbf (p * 64 + q)) (0x80 + r) bytes
        (feed-last 0x80 0xbf (p * 64 + q) r (omega arith) (omega arith))

abbrev third_lo : ℕ → ℕ
third_lo o = if o == 0 then 0x90 else 0x80

abbrev third_hi : ℕ → ℕ
third_hi o = if o == 4 then 0x8f else 0xbf

feed-lead_four :
    (o : ℕ) → o < 5 → feed idle (0xf0 + o) ≡ (pending 2 (third_lo o) (third_hi o) o, none)
feed-lead_four o h = ground arith

decode_four :
    (o p q r : ℕ) (bytes : List ℕ)
    → o < 5
    → p < 64
    → q < 64
    → r < 64
    → third_lo o ≤ 0x80 + p
    → 0x80 + p ≤ third_hi o
    → decode_from idle ((0xf0 + o) ∷ (0x80 + p) ∷ (0x80 + q) ∷ (0x80 + r) ∷ bytes)
      ≡ push_char (some (((o * 64 + p) * 64 + q) * 64 + r)) (decode_from idle bytes)
decode_four o p q r bytes ho hp hq hr lo hi =
    decode_from_step idle (0xf0 + o) ((0x80 + p) ∷ (0x80 + q) ∷ (0x80 + r) ∷ bytes)
      (feed-lead_four o ho)
    ∙ decode_from_step (pending 2 (third_lo o) (third_hi o) o) (0x80 + p)
        ((0x80 + q) ∷ (0x80 + r) ∷ bytes) (feed-middle 1 (third_lo o) (third_hi o) o p lo hi)
    ∙ decode_from_step (pending 1 0x80 0xbf (o * 64 + p)) (0x80 + q) ((0x80 + r) ∷ bytes)
        (feed-middle 0 0x80 0xbf (o * 64 + p) q (omega arith) (omega arith))
    ∙ decode_from_step (pending 0 0x80 0xbf ((o * 64 + p) * 64 + q)) (0x80 + r) bytes
        (feed-last 0x80 0xbf ((o * 64 + p) * 64 + q) r (omega arith) (omega arith))

-- A character is read back from its bytes.
decode_from-encode_char :
    (c : ℕ) (bytes : List ℕ)
    → is_char c ≡ true
    → decode_from idle (encode_char c ++ bytes) ≡ push_char (some c) (decode_from idle bytes)
unfolding encode_char
decode_from-encode_char c bytes h = elim (Bool-cases (ltb c 0x80)) [
  | inl one ↦ rw one (decode_from_step idle c bytes {state' = idle} {char = some c} (ground arith))
  | inr more ↦ elim (Bool-cases (ltb c 0x800)) [
    | inl two ↦
        rw (more, two)
          (decode_two (c / 64) (c % 64) bytes (ground arith) (ground arith) (omega arith)
            ∙ ap (λ x. push_char (some x) (decode_from idle bytes)) (omega arith))
    | inr more' ↦ elim (Bool-cases (ltb c 0x1_0000)) [
      | inl three ↦
          rw (more, more', three)
            (decode_three (c / 4096) (c / 64 % 64) (c % 64) bytes (ground arith) (omega arith)
                (omega arith) (ground arith) (ground arith)
              ∙ ap (λ x. push_char (some x) (decode_from idle bytes)) (omega arith))
      | inr four ↦
          rw (more, more', four)
            (decode_four (c / 0x4_0000) (c / 4096 % 64) (c / 64 % 64) (c % 64) bytes (ground arith)
                (omega arith) (omega arith) (omega arith) (ground arith) (ground arith)
              ∙ ap (λ x. push_char (some x) (decode_from idle bytes)) (omega arith))
    ]
  ]
]

-- A text is read back from its bytes.
pub decode-encode : (s : Text) → all is_char s ≡ true → decode (encode s) ≡ some s
unfolding decode encode
decode-encode [] h = unfold decode_from in refl
decode-encode (c ∷ s) h =
    decode_from-encode_char c (encode s) (ground arith)
    ∙ ap (push_char (some c)) (decode-encode s (ground arith))
