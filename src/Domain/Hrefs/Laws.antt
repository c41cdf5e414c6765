-- ===== src/Domain/Hrefs/Laws.antt =====
-- What a link that the catalog accepts can name, also once its percent signs are decoded.
use folioharbor.Prelude.{Bool, [], any, arith, false, inl, inr, is_empty, refl, ◌↔◌, ◌∷◌, ◌≡◌, ◌≤◌}
use folioharbor.Prelude.Result.{Result-cases, ok}
use folioharbor.Text.Chars.{Text, contains_any, is_control, starts_with}
use folioharbor.Text.Split.{split}
use folioharbor.Text.Utf8.{byte_len}
use folioharbor.Domain.Hrefs.{
  is_bad_path, is_dots, new_spine, normalized_href, percent_decoded, validate_path,
}

-- A decoded path: relative, with neither an empty part nor "." or ".." among its parts, and no
-- backslash, ':', '?', '#' or control character.
pub record IsInside (decoded : Text) : Type 0 where
  pub relative : starts_with b'/' decoded ≡ false
  pub parts : any is_dots (split b'/' decoded) ≡ false
  pub plain : contains_any (0x5c ∷ b':' ∷ b'?' ∷ b'#' ∷ []) decoded ≡ false
  pub printable : any is_control decoded ≡ false

pub record IsHref (value : Text) : Type 0 where
  pub decoded : Text
  pub decodes : percent_decoded value ≡ ok decoded
  pub inside : IsInside decoded
  pub full : is_empty value ≡ false
  pub short : byte_len value ≤ 2_048
  pub no_query : contains_any (b'?' ∷ b'#' ∷ []) value ≡ false

is_bad_path-IsInside :
    (value decoded : Text)
    → is_bad_path value decoded ≡ false
    → IsInside decoded
      × (is_empty value ≡ false)
      × (byte_len value ≤ 2_048)
      × (contains_any (b'?' ∷ b'#' ∷ []) value ≡ false)
unfolding is_bad_path
is_bad_path-IsInside value decoded h = (
  record {
    relative = ground arith;
    parts = ground arith;
    plain = ground arith;
    printable = ground arith;
  },
  ground arith,
  ground arith,
  ground arith,
)

is_bad_path_of :
    (value decoded : Text) (h : IsHref value)
    → h.decoded ≡ decoded
    → is_bad_path value decoded ≡ false
unfolding is_bad_path
is_bad_path_of value decoded h e =
    ground (arith, h.inside.relative, h.inside.parts, h.inside.plain, h.inside.printable)

validate_path-IsHref : (value : Text) → validate_path value ≡ ok tt → IsHref value
unfolding validate_path
validate_path-IsHref value e = elim (Result-cases (percent_decoded value)) [
  | inl (decoded, decodes) ↦
      let (inside, full, short, no_query) = is_bad_path-IsInside value decoded (ground arith) in
      record {
        decoded = decoded;
        decodes = decodes;
        inside = inside;
        full = full;
        short = short;
        no_query = no_query;
      }
  | inr (code, failed) ↦ absurd (ground arith)
]

validate_path_of : (value : Text) → IsHref value → validate_path value ≡ ok tt
unfolding validate_path
validate_path_of value h = ground (arith, h.decodes, is_bad_path_of value h.decoded h refl)

-- A link is accepted as the path of a resource exactly when it has at most 2,048 bytes, is not
-- empty, has neither '?' nor '#', and decodes to a relative path that stays below its root; it is
-- kept as it was written.
pub new_spine_iff :
    (href : Text) (linear : Bool)
    → (new_spine href linear ≡ ok (record { href = href; linear = linear })) ↔ IsHref href
unfolding new_spine normalized_href
new_spine_iff href linear =
    (λ e. validate_path-IsHref href (ground arith), λ h. ground (arith, validate_path_of href h))
