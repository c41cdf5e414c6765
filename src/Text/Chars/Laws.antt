-- ===== src/Text/Chars/Laws.antt =====
-- Laws of `trim` and of the mapping to lower case.
use folioharbor.Prelude.{
  Bool, Bool-cases, [], any, ap₂, arith, false, inl, inr, is_empty, map, not, refl, sym, true, ℕ,
  ◌&&◌, ◌+◌, ◌==◌, ◌||◌, ◌∙◌, ◌∷◌, ◌≡◌, ◌≤◌,
}
use folioharbor.Text.Chars.{
  Text, contains, in_range, is_whitespace, to_ascii_lowercase, trim, trim_end, trim_start,
}

trim_start_of : (c : ℕ) (s : Text) → is_whitespace c ≡ false → trim_start (c ∷ s) ≡ c ∷ s
unfolding trim_start
trim_start_of c s h = rw h

-- The text begins and ends with no white space.
abbrev pub starts_clean : Text → Bool
starts_clean [] = true
starts_clean (c ∷ s) = not (is_whitespace c)

abbrev pub ends_clean : Text → Bool
ends_clean [] = true
ends_clean (c ∷ []) = not (is_whitespace c)
ends_clean (c ∷ d ∷ s) = ends_clean (d ∷ s)

trim_start-starts_clean : (s : Text) → starts_clean (trim_start s) ≡ true
unfolding trim_start
trim_start-starts_clean [] = refl
trim_start-starts_clean (c ∷ s) = elim (Bool-cases (is_whitespace c)) [
  | inl space ↦ rw space (trim_start-starts_clean s)
  | inr solid ↦ rw (solid, solid)
]

trim_end-starts_clean : (s : Text) → starts_clean s ≡ true → starts_clean (trim_end s) ≡ true
unfolding trim_end
trim_end-starts_clean [] h = refl
trim_end-starts_clean (c ∷ s) h = ground arith

trim_end-ends_clean : (s : Text) → ends_clean (trim_end s) ≡ true
unfolding trim_end
trim_end-ends_clean [] = refl
trim_end-ends_clean (c ∷ s) = elim (Bool-cases (is_whitespace c && is_empty (trim_end s))) [
  | inl dropped ↦ rw dropped
  | inr stays ↦ rw stays (ends_clean_cons c (trim_end s) stays (trim_end-ends_clean s))
]
  where
    ends_clean_cons :
        (c : ℕ) (s : Text)
        → (is_whitespace c && is_empty s) ≡ false
        → ends_clean s ≡ true
        → ends_clean (c ∷ s) ≡ true
    ends_clean_cons c [] h k = ground arith
    ends_clean_cons c (d ∷ s) h k = k

trim_start_of_clean : (s : Text) → starts_clean s ≡ true → trim_start s ≡ s
unfolding trim_start
trim_start_of_clean [] h = refl
trim_start_of_clean (c ∷ s) h = ground arith

trim_end_of_clean : (s : Text) → ends_clean s ≡ true → trim_end s ≡ s
unfolding trim_end
trim_end_of_clean [] h = refl
trim_end_of_clean (c ∷ []) h = ground arith
trim_end_of_clean (c ∷ d ∷ s) h = rw (trim_end_of_clean (d ∷ s) h) (ground arith)

-- A text with clean ends is left as it is.
pub trim_of_clean : (s : Text) → starts_clean s ≡ true → ends_clean s ≡ true → trim s ≡ s
unfolding trim
trim_of_clean s h k = rw (trim_start_of_clean s h) (trim_end_of_clean s k)

pub trim-clean : (s : Text) → (starts_clean (trim s) ≡ true) × (ends_clean (trim s) ≡ true)
unfolding trim
trim-clean s = (
  trim_end-starts_clean (trim_start s) (trim_start-starts_clean s),
  trim_end-ends_clean (trim_start s),
)

pub trim_idempotent : (s : Text) → trim (trim s) ≡ trim s
trim_idempotent s = trim_of_clean (trim s) (trim-clean s).0 (trim-clean s).1

starts_clean_of_solid : (s : Text) → any is_whitespace s ≡ false → starts_clean s ≡ true
starts_clean_of_solid [] h = refl
starts_clean_of_solid (c ∷ s) h = ground arith

ends_clean_of_solid : (s : Text) → any is_whitespace s ≡ false → ends_clean s ≡ true
ends_clean_of_solid [] h = refl
ends_clean_of_solid (c ∷ []) h = ground arith
ends_clean_of_solid (c ∷ d ∷ s) h = ends_clean_of_solid (d ∷ s) (ground arith)

-- So is a text with no white space at all.
pub trim_of_solid : (s : Text) → any is_whitespace s ≡ false → trim s ≡ s
trim_of_solid s h = trim_of_clean s (starts_clean_of_solid s h) (ends_clean_of_solid s h)

lower_again : (c : ℕ) → to_ascii_lowercase (to_ascii_lowercase c) ≡ to_ascii_lowercase c
unfolding to_ascii_lowercase
lower_again c = ground arith

pub lower_idempotent :
    (s : Text) → map to_ascii_lowercase (map to_ascii_lowercase s) ≡ map to_ascii_lowercase s
lower_idempotent [] = refl
lower_idempotent (c ∷ s) = ap₂ (λ d t. d ∷ t) (lower_again c) (lower_idempotent s)

letter-is_whitespace :
    (c : ℕ) → b'A' ≤ c → c ≤ b'Z' → (is_whitespace c ≡ false) × (is_whitespace (c + 32) ≡ false)
unfolding is_whitespace
letter-is_whitespace c lo hi = (ground arith, ground arith)

lower-is_whitespace : (c : ℕ) → is_whitespace (to_ascii_lowercase c) ≡ is_whitespace c
unfolding to_ascii_lowercase
lower-is_whitespace c = elim (Bool-cases (in_range b'A' b'Z' c)) [
  | inl capital ↦
      let (before, after) = letter-is_whitespace c (ground arith) (ground arith) in
      rw capital (after ∙ sym before)
  | inr other ↦ rw other
]

lower-at : (c : ℕ) → (to_ascii_lowercase c == b'@') ≡ (c == b'@')
unfolding to_ascii_lowercase
lower-at c = ground arith

-- White space and the sign '@' are kept by the mapping, and come from nothing else.
pub any-lower :
    (s : Text)
    → (any is_whitespace (map to_ascii_lowercase s) ≡ any is_whitespace s)
      × (contains b'@' (map to_ascii_lowercase s) ≡ contains b'@' s)
any-lower [] = (refl, refl)
any-lower (c ∷ s) =
    let (space, sign) = any-lower s in
    (ap₂ (λ p q. p || q) (lower-is_whitespace c) space, ap₂ (λ p q. p || q) (lower-at c) sign)
