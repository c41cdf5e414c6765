-- ===== src/Text/Words.antt =====
-- `split_ascii_whitespace` of Rust's `str`.
use folioharbor.Prelude.{Bool, List, [], any, if◌then◌else◌, is_empty, ℕ, ◌==◌, ◌||◌, ◌∷◌}
use folioharbor.Text.Chars.{Text, text_eq}
use folioharbor.Text.Split.{push_head}

abbrev pub is_ascii_whitespace : ℕ → Bool
is_ascii_whitespace c = c == 0x20 || c == 0x9 || c == 0xa || c == 0xc || c == 0xd

-- The parts between single white spaces.
unfoldable pub parts : Text → List Text
parts [] = [] ∷ []
parts (c ∷ s) = let rest = parts s in if is_ascii_whitespace c then [] ∷ rest else push_head c rest

unfoldable pub nonempty : List Text → List Text
nonempty [] = []
nonempty (s ∷ rest) = let others = nonempty rest in if is_empty s then others else s ∷ others

unfoldable pub split_ascii_whitespace : Text → List Text
split_ascii_whitespace s = nonempty (parts s)

-- `split_ascii_whitespace().any(|word| word == expected)`
unfoldable pub has_word : Text → Text → Bool
has_word s expected = any (λ word. text_eq word expected) (split_ascii_whitespace s)
