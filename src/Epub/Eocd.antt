-- ===== src/Epub/Eocd.antt =====
-- The check of an archive before it is opened: `preflight`, `find_eocd`, `read_u16` and `read_u32`
-- of crates/epub/src/archive.rs. The source that is read is a parameter.
pub mod Laws
use folioharbor.Prelude.{
  Bool, List, Option, [], drop, if◌then◌else◌, leb, length, ltb, none, not, some, suc, take, zero,
  ℕ, ◌&&◌, ◌*◌, ◌+◌, ◌-◌, ◌==◌, ◌^◌, ◌||◌, ◌∷◌,
}
use folioharbor.Prelude.Result.{ok, err, ok_or, refuse_if, ◌>>=◌, ◌>>◌}
use folioharbor.Text.Number.{u64_max}
use folioharbor.Epub.Error.{
  Checked, central_directory_limit, entry_limit, invalid_archive, unsupported_archive,
}
use folioharbor.Epub.Archive.{ParserLimits, check_deadline}

abbrev pub eocd_size : ℕ
eocd_size = 22

abbrev pub u16_max : ℕ
u16_max = 2 ^ 16 - 1

abbrev pub u32_max : ℕ
u32_max = 2 ^ 32 - 1

-- The byte at an index, 0 past the end.
abbrev pub byte_at : List ℕ → ℕ → ℕ
byte_at [] i = 0
byte_at (b ∷ bytes) zero = b
byte_at (b ∷ bytes) (suc i) = byte_at bytes i

-- `u16::from_le_bytes` of the two bytes at an index.
abbrev pub u16_at : List ℕ → ℕ → ℕ
u16_at bytes i = byte_at bytes i + 256 * byte_at bytes (i + 1)

abbrev pub u32_at : List ℕ → ℕ → ℕ
u32_at bytes i = u16_at bytes i + 2 ^ 16 * u16_at bytes (i + 2)

unfoldable pub read_u16 : List ℕ → ℕ → Checked ℕ
read_u16 bytes offset =
    if leb (offset + 2) (length bytes) then ok (u16_at bytes offset) else err invalid_archive

unfoldable pub read_u32 : List ℕ → ℕ → Checked ℕ
read_u32 bytes offset =
    if leb (offset + 4) (length bytes) then ok (u32_at bytes offset) else err invalid_archive

-- Whether the four bytes at an index are "PK", `c` and `d`.
abbrev pub is_signature : ℕ → ℕ → List ℕ → ℕ → Bool
is_signature c d bytes i =
    leb (i + 4) (length bytes)
    && (byte_at bytes i == b'P'
        && (byte_at bytes (i + 1) == b'K'
            && (byte_at bytes (i + 2) == c && byte_at bytes (i + 3) == d)))

-- The closure of `find_eocd` at an index: a record whose comment ends with the file.
unfoldable pub is_eocd : List ℕ → ℕ → Bool
is_eocd tail index =
    is_signature 5 6 tail index
    && (leb (index + eocd_size) (length tail)
        && (index + eocd_size + u16_at tail (index + 20) == length tail))

-- The indices below `n`, from the last one on.
unfoldable pub find_eocd_below : List ℕ → ℕ → Option ℕ
find_eocd_below tail zero = none
find_eocd_below tail (suc index) =
    let rest = find_eocd_below tail index in if is_eocd tail index then some index else rest

unfoldable pub find_eocd : List ℕ → Option ℕ
find_eocd tail = find_eocd_below tail (length tail)

-- The source, as far as the check uses it: its length, and what `seek` and `read_exact` give for an
-- offset and a number of bytes; `none` is an error. `elapsed` is what the clock shows afterwards.
pub record Source : Type 0 where
  pub source_len : Option ℕ
  pub read_exact : ℕ → ℕ → Option (List ℕ)
  pub elapsed : ℕ

-- The record of 22 bytes: its disks, its counts and the size of its directory.
unfoldable pub check_counts : ParserLimits → ℕ → ℕ → ℕ → ℕ → ℕ → ℕ → Checked (Unit {0})
check_counts limits disk central_disk disk_entries entries central_size central_offset =
    if disk == u16_max
      || central_disk == u16_max
      || disk_entries == u16_max
      || entries == u16_max
      || central_size == u32_max
      || central_offset == u32_max
    then err unsupported_archive
    else if not (disk == 0) || not (central_disk == 0)
    then err unsupported_archive
    else if not (disk_entries == entries)
    then err invalid_archive
    else if ltb limits.max_entries entries
    then err entry_limit
    else if ltb limits.max_central_directory_bytes central_size
    then err central_directory_limit
    else ok tt

-- The place of the directory in the file: before the record.
unfoldable pub check_place : ℕ → ℕ → ℕ → ℕ → Checked (Unit {0})
check_place source_len central_size central_offset comment =
    if ltb source_len (eocd_size + comment)
    then err invalid_archive
    else if ltb u64_max (central_offset + central_size)
    then err invalid_archive
    else if ltb (source_len - (eocd_size + comment)) (central_offset + central_size)
    then err invalid_archive
    else ok tt

unfoldable pub check_eocd : ParserLimits → ℕ → List ℕ → Checked (Unit {0})
check_eocd limits source_len eocd = do
  disk ← read_u16 eocd 4
  central_disk ← read_u16 eocd 6
  disk_entries ← read_u16 eocd 8
  entries ← read_u16 eocd 10
  central_size ← read_u32 eocd 12
  central_offset ← read_u32 eocd 16
  check_counts limits disk central_disk disk_entries entries central_size central_offset
  comment ← read_u16 eocd 20
  check_place source_len central_size central_offset comment

-- A record before which there is a locator of a 64-bit archive is refused.
unfoldable pub check_tail : ParserLimits → ℕ → List ℕ → Checked (Unit {0})
check_tail limits source_len tail = elim (find_eocd tail) [
  | none ↦ err invalid_archive
  | some index ↦
      if leb 20 index && is_signature 6 7 tail (index - 20)
      then err unsupported_archive
      else check_eocd limits source_len (take eocd_size (drop index tail))
]

abbrev pub tail_len : ℕ → ℕ
tail_len source_len =
    if leb source_len (eocd_size + u16_max) then source_len else eocd_size + u16_max

unfoldable pub preflight : Source → ParserLimits → Checked (Unit {0})
preflight source limits = do
  source_len ← ok_or source.source_len invalid_archive
  refuse_if (ltb (tail_len source_len) eocd_size) invalid_archive
  tail ←
      ok_or (source.read_exact (source_len - tail_len source_len) (tail_len source_len))
        invalid_archive
  check_deadline source.elapsed limits
  check_tail limits source_len tail
