-- ===== src/Domain/Email.antt =====
-- Email addresses: `NormalizedEmail::parse` of crates/domain/src/identity/email.rs.
pub mod Laws
use folioharbor.Prelude.{Bool, any, if◌then◌else◌, is_empty, map, ◌++◌, ◌||◌, ◌∷◌}
use folioharbor.Prelude.Result.{Result, err, ok, ok_or, ◌>>=◌}
use folioharbor.Text.Chars.{Text, contains, is_whitespace, to_ascii_lowercase, trim}
use folioharbor.Text.Split.{rsplit_once}

pub data EmailError : Type 0 where
  email_error : EmailError

abbrev pub is_refused : Text → Text → Text → Bool
is_refused trimmed local domain =
    is_empty local || is_empty domain || contains b'@' local || any is_whitespace trimmed

-- `parse` behind the split at the last '@'.
unfoldable pub parse_parts : Text → Text × Text → Result Text EmailError
parse_parts trimmed (local, domain) =
    if is_refused trimmed local domain
    then err email_error
    else ok (local ++ (b'@' ∷ map to_ascii_lowercase domain))

unfoldable pub parse : Text → Result Text EmailError
unfolding parse_parts trim
parse value =
    let trimmed = trim value in
    ok_or (rsplit_once b'@' trimmed) email_error >>= λ parts. parse_parts trimmed parts
