-- ===== src/Epub/Archive.antt =====
-- The part of `BoundedArchive` (crates/epub/src/archive.rs) that the XML readers use: the entries
-- by path, the limits, and the checks that every round of a reader makes.
use folioharbor.Prelude.{
  ℕ, ◌*◌, Bool, Option, none, some, List, [], ◌∷◌, if◌then◌else◌, ltb, leb, is_some,
}
use folioharbor.Prelude.Result.{ok, err}
use folioharbor.Text.Chars.{text_eq}
use folioharbor.Epub.Error.{Checked, deadline_exceeded, xml_depth_limit}
use folioharbor.Epub.Path.{EpubPath}

-- `ParserLimits`; a duration is a number of nanoseconds.
pub record ParserLimits : Type 0 where
  pub max_entries : ℕ
  pub max_central_directory_bytes : ℕ
  pub max_total_uncompressed_bytes : ℕ
  pub max_compression_ratio : ℕ
  pub max_path_depth : ℕ
  pub max_xml_depth : ℕ
  pub max_resource_bytes : ℕ
  pub deadline : ℕ

-- `ParserLimits::default`
abbrev pub default_limits : ParserLimits
default_limits = record {
  max_entries = 4_096;
  max_central_directory_bytes = 16 * 1024 * 1024;
  max_total_uncompressed_bytes = 512 * 1024 * 1024;
  max_compression_ratio = 200;
  max_path_depth = 32;
  max_xml_depth = 64;
  max_resource_bytes = 64 * 1024 * 1024;
  deadline = 30 * 1_000_000_000;
}

-- The entries are a map from paths to bytes.
pub record BoundedArchive : Type 0 where
  pub entries : List (EpubPath × List ℕ)
  pub limits : ParserLimits

abbrev pub find_entry : EpubPath → List (EpubPath × List ℕ) → Option (List ℕ)
find_entry path [] = none
find_entry path ((p, bytes) ∷ entries) =
    let rest = find_entry path entries in if text_eq p path then some bytes else rest

unfoldable pub get : BoundedArchive → EpubPath → Option (List ℕ)
get archive path = find_entry path archive.entries

unfoldable pub contains : BoundedArchive → EpubPath → Bool
unfolding get
contains archive path = is_some (get archive path)

-- `elapsed` is what the clock shows since the archive was opened.
unfoldable pub check_deadline : ℕ → ParserLimits → Checked (Unit {0})
check_deadline elapsed limits = if leb limits.deadline elapsed then err deadline_exceeded else ok tt

unfoldable pub check_processing : BoundedArchive → ℕ → ℕ → Checked (Unit {0})
unfolding check_deadline
check_processing archive elapsed xml_depth =
    if leb archive.limits.deadline elapsed
    then err deadline_exceeded
    else if ltb archive.limits.max_xml_depth xml_depth
    then err xml_depth_limit
    else ok tt
