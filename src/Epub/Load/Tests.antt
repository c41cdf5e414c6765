-- ===== src/Epub/Load/Tests.antt =====
-- A small archive, its load, and instances of the theorems.
use folioharbor.Prelude.{
  List, [], drop, false, length, refl, some, take, true, ℕ, ◌-◌, ◌↔◌, ◌∷◌, ◌≡◌,
}
use folioharbor.Prelude.Result.{ok, err, map_all}
use folioharbor.Text.Chars.{codes}
use folioharbor.Text.Split.{split, join}
use folioharbor.Text.Utf8.{decode}
use folioharbor.Epub.Error.{duplicate_path}
use folioharbor.Epub.Path.{normalize_path}
use folioharbor.Epub.Archive.{BoundedArchive, default_limits, check_deadline}
use folioharbor.Epub.Eocd.{
  Source, check_counts, check_eocd, check_place, check_tail, eocd_size, find_eocd, find_eocd_below,
  is_eocd, preflight, read_u16, read_u32, tail_len,
}
use folioharbor.Epub.Eocd.Laws.{IsFit, IsLast, find_eocd_iff, preflight-IsFit}
use folioharbor.Epub.Load.{
  Member, check_header, check_limits, fill, load, open_member, opened, read, scan,
}
use folioharbor.Epub.Load.Laws.{IsBounded, entry_sizes, read-IsBounded}

-- A record of one entry, without a comment.
abbrev tail_bytes : List ℕ
tail_bytes =
    80 ∷ 75 ∷ 5 ∷ 6 ∷ 0 ∷ 0 ∷ 0 ∷ 0 ∷ 1 ∷ 0 ∷ 1 ∷ 0 ∷ 0 ∷ 0 ∷ 0 ∷ 0 ∷ 0 ∷ 0 ∷ 0 ∷ 0 ∷ 0 ∷ 0 ∷ []

abbrev small_source : Source
small_source = record {
  source_len = some 22;
  read_exact = λ offset n. some tail_bytes;
  elapsed = 1;
}

passes : preflight small_source default_limits ≡ ok tt
unfolding preflight check_tail find_eocd find_eocd_below is_eocd check_eocd read_u16 read_u32
    check_counts check_place check_deadline
passes = refl

find_eocd_iff_example : (find_eocd tail_bytes ≡ some 0) ↔ IsLast tail_bytes (length tail_bytes) 0
find_eocd_iff_example = find_eocd_iff tail_bytes 0

preflight-IsFit_example :
    (source_len : ℕ) × (tail : List ℕ) × (index : ℕ) × (small_source.source_len ≡ some source_len)
    × (small_source.read_exact (source_len - tail_len source_len) (tail_len source_len) ≡ some tail)
    × IsLast tail (length tail) index
    × IsFit default_limits source_len (take eocd_size (drop index tail))
preflight-IsFit_example = preflight-IsFit small_source default_limits passes

abbrev member : Member
member = record {
  before_header = 2;
  header =
      some (record { encrypted = false; name_raw = codes "a.txt"; size = 3; compressed_size = 3 });
  before_opening = 3;
  opening =
      opened
        (record { before_read = 4; outcome = some (1 ∷ 2 ∷ []) }
          ∷ record { before_read = 5; outcome = some (3 ∷ []) }
          ∷ [])
        6;
}

abbrev loaded : BoundedArchive
loaded = record { entries = (codes "a.txt", 1 ∷ 2 ∷ 3 ∷ []) ∷ []; limits = default_limits }

loads : read 0 small_source true (some (member ∷ [])) default_limits ≡ ok loaded
unfolding read preflight check_tail find_eocd find_eocd_below is_eocd check_eocd read_u16 read_u32
    check_counts check_place check_deadline scan check_header check_limits normalize_path decode
    map_all load open_member fill split join
loads = refl

-- The same member twice is refused.
refuses : read 0 small_source true (some (member ∷ member ∷ [])) default_limits ≡ err duplicate_path
unfolding read preflight check_tail find_eocd find_eocd_below is_eocd check_eocd read_u16 read_u32
    check_counts check_place check_deadline scan check_header check_limits normalize_path decode
    split join
refuses = refl

read-IsBounded_example :
    (default_limits ≡ default_limits) × IsBounded default_limits (entry_sizes loaded.entries)
read-IsBounded_example =
    read-IsBounded 0 small_source true (some (member ∷ [])) default_limits {archive = loaded} loads
