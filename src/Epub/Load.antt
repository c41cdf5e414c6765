-- ===== src/Epub/Load.antt =====
-- The loading of an archive: `BoundedArchive::read` of crates/epub/src/archive.rs. What the ZIP
-- library (a third-party crate) gives for each member of the archive is a parameter.
pub mod Laws
mod Tests
use folioharbor.Prelude.{
  Bool, List, Option, [], any, false, if◌then◌else◌, is_empty, leb, length, ltb, not, ℕ, ◌&&◌, ◌*◌,
  ◌++◌, ◌+◌, ◌==◌, ◌||◌, ◌∷◌,
}
use folioharbor.Prelude.Result.{ok, err, ok_or, refuse_if, map_all, ◌>>=◌, ◌>>◌}
use folioharbor.Text.Chars.{Text, text_eq}
use folioharbor.Text.Split.{split}
use folioharbor.Text.Number.{u64_max}
use folioharbor.Text.Utf8.{decode}
use folioharbor.Epub.Error.{
  Checked, compression_ratio_limit, duplicate_path, encrypted_content, entry_limit, invalid_archive,
  path_depth_limit, resource_size_limit, total_size_limit, unsafe_path,
}
use folioharbor.Epub.Path.{EpubPath, normalize_path}
use folioharbor.Epub.Archive.{ParserLimits, BoundedArchive, check_deadline}
use folioharbor.Epub.Xml.{usize_max}
use folioharbor.Epub.Eocd.{Source, preflight}

-- `by_index_raw`: what the directory of the archive says of a member.
pub record Header : Type 0 where
  pub encrypted : Bool
  pub name_raw : List ℕ
  pub size : ℕ
  pub compressed_size : ℕ

-- A call of `read`, with what the clock shows before it: its bytes, or an error.
pub record Read : Type 0 where
  pub before_read : ℕ
  pub outcome : Option (List ℕ)

-- `by_index`: the calls of `read`, and the time of one more at the end of the member; or one of the
-- two errors that the source tells apart.
pub data Opening : Type 0 where
  unsupported unreadable : Opening
  opened : List Read → ℕ → Opening

-- A member of the archive, with the time before its header is read and before it is opened.
pub record Member : Type 0 where
  pub before_header : ℕ
  pub header : Option Header
  pub before_opening : ℕ
  pub opening : Opening

-- What the first loop keeps of a member.
pub record Planned : Type 0 where
  pub member : Member
  pub path : EpubPath
  pub planned_size : ℕ

-- `checked_mul` and the comparison after it.
abbrev pub is_over_ratio : ParserLimits → ℕ → ℕ → Bool
is_over_ratio limits size compressed =
    compressed == 0
    || (leb (compressed * limits.max_compression_ratio) u64_max
        && ltb (compressed * limits.max_compression_ratio) size)

-- The checks of a member against the limits and the members before it, whose sizes have the sum
-- `total`.
unfoldable pub check_limits :
    ParserLimits → Header → ℕ → List EpubPath → EpubPath → Checked EpubPath
check_limits limits header total seen path = do
  refuse_if (ltb limits.max_path_depth (length (split b'/' path))) path_depth_limit
  refuse_if (ltb limits.max_resource_bytes header.size) resource_size_limit
  refuse_if (ltb u64_max (total + header.size)) total_size_limit
  refuse_if (ltb limits.max_total_uncompressed_bytes (total + header.size)) total_size_limit
  refuse_if (ltb 0 header.size && is_over_ratio limits header.size header.compressed_size)
      compression_ratio_limit
  refuse_if (any (text_eq path) seen) duplicate_path
  ok path

unfoldable pub check_header : ParserLimits → Header → ℕ → List EpubPath → Checked EpubPath
check_header limits header total seen = do
  refuse_if header.encrypted encrypted_content
  name ← ok_or (decode header.name_raw) unsafe_path
  path ← normalize_path name false
  check_limits limits header total seen path

-- The loop over the headers.
unfoldable pub scan : ParserLimits → List Member → ℕ → List EpubPath → Checked (List Planned)
scan limits [] total seen = ok []
scan limits (member ∷ members) total seen = do
  check_deadline member.before_header limits
  header ← ok_or member.header invalid_archive
  path ← check_header limits header total seen
  rest ← scan limits members (total + header.size) (path ∷ seen)
  ok (record { member = member; path = path; planned_size = header.size } ∷ rest)

abbrev pub saturating_add : ℕ → ℕ → ℕ
saturating_add m n = if leb (m + n) usize_max then m + n else usize_max

-- The loop that reads a member, with the bytes so far.
unfoldable pub fill : ParserLimits → ℕ → List Read → ℕ → List ℕ → Checked (List ℕ)
fill limits capacity [] last bytes = do check_deadline last limits; ok bytes
fill limits capacity (read ∷ reads) last bytes = do
  check_deadline read.before_read limits
  chunk ← ok_or read.outcome invalid_archive
  let rest = fill limits capacity reads last (bytes ++ chunk)
  if is_empty chunk
      then ok bytes
      else if ltb capacity (saturating_add (length bytes) (length chunk))
      then err invalid_archive
      else rest

unfoldable pub open_member : ParserLimits → ℕ → Opening → Checked (List ℕ)
open_member limits capacity unsupported = err encrypted_content
open_member limits capacity unreadable = err invalid_archive
open_member limits capacity (opened reads last) = fill limits capacity reads last []

-- A round of the second loop.
unfoldable pub load : ParserLimits → Planned → Checked (EpubPath × List ℕ)
load limits planned = do
  check_deadline planned.member.before_opening limits
  refuse_if (ltb usize_max planned.planned_size) resource_size_limit
  bytes ← open_member limits planned.planned_size planned.member.opening
  refuse_if (not (length bytes == planned.planned_size)) invalid_archive
  ok (planned.path, bytes)

-- `rewinds` is whether the second `seek` succeeds, `members` what the ZIP library finds then.
unfoldable pub read :
    ℕ → Source → Bool → Option (List Member) → ParserLimits → Checked BoundedArchive
read started source rewinds members limits = do
  check_deadline started limits
  preflight source limits
  refuse_if (not rewinds) invalid_archive
  found ← ok_or members invalid_archive
  refuse_if (ltb limits.max_entries (length found)) entry_limit
  planned ← scan limits found 0 []
  entries ← map_all (load limits) planned
  ok (record { entries = entries; limits = limits })
