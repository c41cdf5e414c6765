-- ===== src/Domain/Email/Laws.antt =====
-- What a normalized address looks like, and that normalizing it again changes nothing.
use folioharbor.Prelude.{
  Option-cases, [], any, any-append, ap, arith, false, inl, inr, is_empty, map, none, refl, some, ℕ,
  ◌++◌, ◌↔◌, ◌∙◌, ◌∷◌, ◌≡◌,
}
use folioharbor.Prelude.Result.{ok}
use folioharbor.Text.Chars.{Text, contains, is_whitespace, to_ascii_lowercase, trim}
use folioharbor.Text.Chars.Laws.{any-lower, lower_idempotent, trim_of_solid}
use folioharbor.Text.Split.{rsplit_once}
use folioharbor.Domain.Email.{parse, parse_parts}

-- A local part and a domain with one '@' between them, no white space, and no capital letter of
-- ASCII in the domain.
pub record IsAddress (address : Text) : Type 0 where
  pub local : Text
  pub domain : Text
  pub parts : address ≡ local ++ (b'@' ∷ domain)
  pub local_full : is_empty local ≡ false
  pub domain_full : is_empty domain ≡ false
  pub local_one : contains b'@' local ≡ false
  pub domain_one : contains b'@' domain ≡ false
  pub no_space : any is_whitespace address ≡ false
  pub lower : map to_ascii_lowercase domain ≡ domain

rsplit_once-none : (sep : ℕ) (s : Text) → rsplit_once sep s ≡ none → contains sep s ≡ false
unfolding rsplit_once
rsplit_once-none sep [] e = refl
rsplit_once-none sep (c ∷ s) e = ground (arith, rsplit_once-none sep s)

rsplit_once-some :
    (sep : ℕ) (s : Text) {p : Text × Text}
    → rsplit_once sep s ≡ some p
    → (s ≡ p.0 ++ (sep ∷ p.1)) × (contains sep p.1 ≡ false)
unfolding rsplit_once
rsplit_once-some sep [] e = cc
rsplit_once-some sep (c ∷ s) {p} e = elim (Option-cases (rsplit_once sep s)) [
  | inl missing ↦ ground (arith, rsplit_once-none sep s missing)
  | inr (q, found) ↦ ground (arith, rsplit_once-some sep s {p = q} found)
]

rsplit_once_of_missing : (sep : ℕ) (d : Text) → contains sep d ≡ false → rsplit_once sep d ≡ none
unfolding rsplit_once
rsplit_once_of_missing sep [] h = refl
rsplit_once_of_missing sep (c ∷ d) h = ground (arith, rsplit_once_of_missing sep d)

rsplit_once-append :
    (sep : ℕ) (l d : Text) → contains sep d ≡ false → rsplit_once sep (l ++ (sep ∷ d)) ≡ some (l, d)
unfolding rsplit_once
rsplit_once-append sep [] d h = ground (arith, rsplit_once_of_missing sep d)
rsplit_once-append sep (c ∷ l) d h = ground (arith, rsplit_once-append sep l d)

is_empty-map : (s : Text) → is_empty (map to_ascii_lowercase s) ≡ is_empty s
is_empty-map [] = refl
is_empty-map (c ∷ s) = refl

parse_parts-IsAddress :
    (trimmed local domain : Text) {address : Text}
    → trimmed ≡ local ++ (b'@' ∷ domain)
    → contains b'@' domain ≡ false
    → parse_parts trimmed (local, domain) ≡ ok address
    → IsAddress address
unfolding parse_parts
parse_parts-IsAddress trimmed local domain {address} whole one e =
    let lowered = map to_ascii_lowercase domain in
    let same : address ≡ local ++ (b'@' ∷ lowered) = ground arith in
    let no_space : any is_whitespace (local ++ (b'@' ∷ domain)) ≡ false =
      rw (← whole) (ground arith) in
    record {
      local = local;
      domain = lowered;
      parts = same;
      local_full = ground arith;
      domain_full = is_empty-map domain ∙ ground arith;
      local_one = ground arith;
      domain_one = (any-lower domain).1 ∙ one;
      no_space =
          rw (same, any-append is_whitespace local (b'@' ∷ lowered), (any-lower domain).0)
            (rw (any-append is_whitespace local (b'@' ∷ domain)) at no_space);
      lower = lower_idempotent domain;
    }

-- An address that is accepted has a local part and a domain with one '@' between them, no white
-- space, and no capital letter of ASCII in its domain, whatever was given.
pub parse-IsAddress : (value : Text) {address : Text} → parse value ≡ ok address → IsAddress address
unfolding parse
parse-IsAddress value {address} e = elim (Option-cases (rsplit_once b'@' (trim value))) [
  | inl missing ↦ absurd (ground arith)
  | inr (p, found) ↦
      let (whole, one) = rsplit_once-some b'@' (trim value) found in
      parse_parts-IsAddress (trim value) p.0 p.1 whole one (ground arith)
]

parse_of_IsAddress : (address : Text) → IsAddress address → parse address ≡ ok address
unfolding parse parse_parts
parse_of_IsAddress address h =
    let trimmed = trim_of_solid address h.no_space in
    let found : rsplit_once b'@' address ≡ some (h.local, h.domain) =
      ap (rsplit_once b'@') h.parts ∙ rsplit_once-append b'@' h.local h.domain h.domain_one in
    ground (
      arith, trimmed, found, h.local_full, h.domain_full, h.local_one, h.no_space, h.lower, h.parts,
    )

-- The addresses that `parse` accepts unchanged are the ones of this form.
pub parse_fixed_iff : (address : Text) → (parse address ≡ ok address) ↔ IsAddress address
parse_fixed_iff address = (parse-IsAddress address, parse_of_IsAddress address)

-- An accepted address is accepted again, with the same result.
pub parse_idempotent :
    (value : Text) {address : Text} → parse value ≡ ok address → parse address ≡ ok address
parse_idempotent value {address} e = parse_of_IsAddress address (parse-IsAddress value e)
