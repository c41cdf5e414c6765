-- ===== src/Epub/Eocd/Laws.antt =====
-- Which record of the end of an archive is found, and what the check before the opening means.
use folioharbor.Prelude.{
  ==_iff, Bool-cases, List, Option-cases, ap, arith, drop, false, inl, inr, leb, length, ltb,
  ltb→lt, none, some, suc, sym, take, true, zero, ℕ, ◌*◌, ◌+◌, ◌-◌, ◌<◌, ◌==◌, ◌↔◌, ◌∙◌, ◌≡◌, ◌≤◌,
}
use folioharbor.Prelude.Result.{>>-eq-ok, >>=-eq-ok, ok, ok_or, ok_or-eq-ok, refuse_if}
use folioharbor.Epub.Error.{invalid_archive}
use folioharbor.Epub.Archive.{ParserLimits, check_deadline}
use folioharbor.Epub.Eocd.{
  Source, byte_at, check_counts, check_eocd, check_place, check_tail, eocd_size, find_eocd,
  find_eocd_below, is_eocd, preflight, read_u16, read_u32, tail_len, u16_at, u32_at,
}

-- A record of the end of a central directory: its four bytes, and a comment of the length that it
-- gives, which ends with the file.
pub record IsRecord (tail : List ℕ) (index : ℕ) : Type 0 where
  pub letters : (byte_at tail index ≡ b'P') × (byte_at tail (index + 1) ≡ b'K')
  pub numbers : (byte_at tail (index + 2) ≡ 5) × (byte_at tail (index + 3) ≡ 6)
  pub comment :
      index + 22 + (byte_at tail (index + 20) + 256 * byte_at tail (index + 20 + 1)) ≡ length tail

is_eocd-IsRecord : (tail : List ℕ) (index : ℕ) → is_eocd tail index ≡ true → IsRecord tail index
unfolding is_eocd
is_eocd-IsRecord tail index h = record {
  letters = (
    ground (arith, ==_iff (byte_at tail index) b'P'),
    ground (arith, ==_iff (byte_at tail (index + 1)) b'K'),
  );
  numbers = (
    ground (arith, ==_iff (byte_at tail (index + 2)) 5),
    ground (arith, ==_iff (byte_at tail (index + 3)) 6),
  );
  comment = ground (arith, ==_iff (index + 22 + u16_at tail (index + 20)) (length tail));
}

IsRecord-is_eocd : (tail : List ℕ) (index : ℕ) → IsRecord tail index → is_eocd tail index ≡ true
unfolding is_eocd
IsRecord-is_eocd tail index h =
    let long : leb (index + 4) (length tail) ≡ true = ground (arith, h.comment) in
    let room : leb (index + 22) (length tail) ≡ true = ground (arith, h.comment) in
    rw (is_eocd, long, room, h.letters.0, h.letters.1, h.numbers.0, h.numbers.1)
      ((==_iff (index + 22 + u16_at tail (index + 20)) (length tail)).1 h.comment)

-- The last index below `n` at which the test holds.
abbrev IsLastTest : List ℕ → ℕ → ℕ → Type 0
IsLastTest tail n index =
    (index < n)
    × (is_eocd tail index ≡ true)
    × ((j : ℕ) → index < j → j < n → is_eocd tail j ≡ false)

-- The last index below `n` at which a record stands.
abbrev pub IsLast : List ℕ → ℕ → ℕ → Type 0
IsLast tail n index =
    (index < n) × IsRecord tail index × ((j : ℕ) → index < j → j < n → ¬ IsRecord tail j)

IsLastTest-IsLast :
    (tail : List ℕ) (n : ℕ) {index : ℕ} → IsLastTest tail n index → IsLast tail n index
IsLastTest-IsLast tail n {index} (inside, here, none_above) = (
  inside,
  is_eocd-IsRecord tail index here,
  λ j above below there.
      let missing = none_above j above below in let found = IsRecord-is_eocd tail j there in cc,
)

IsLast-IsLastTest :
    (tail : List ℕ) (n : ℕ) {index : ℕ} → IsLast tail n index → IsLastTest tail n index
IsLast-IsLastTest tail n {index} (inside, here, none_above) = (
  inside,
  IsRecord-is_eocd tail index here,
  λ j above below. elim (Bool-cases (is_eocd tail j)) [
    | inl there ↦ absurd (none_above j above below (is_eocd-IsRecord tail j there))
    | inr missing ↦ missing
  ],
)

find_eocd_below-IsLastTest :
    (tail : List ℕ) (n : ℕ) {index : ℕ}
    → find_eocd_below tail n ≡ some index
    → IsLastTest tail n index
unfolding find_eocd_below
find_eocd_below-IsLastTest tail zero e = cc
find_eocd_below-IsLastTest tail (suc n) {index} e = elim (Bool-cases (is_eocd tail n)) [
  | inl here ↦
      let same : n ≡ index = ground arith in
      (omega (arith, same), rw (← same) here, λ j above below. absurd (omega (arith, same)))
  | inr other ↦
      let (inside, found, none_above) =
        find_eocd_below-IsLastTest tail n {index = index} (rw other at e) in
      (
        omega (arith, inside),
        found,
        λ j above below. elim (Bool-cases (j == n)) [
          | inl at_n ↦ rw ((==_iff j n).0 at_n) other
          | inr off ↦ none_above j above (ground (arith, ==_iff j n))
        ],
      )
]

find_eocd_below-none :
    (tail : List ℕ) (n j : ℕ) → find_eocd_below tail n ≡ none → j < n → is_eocd tail j ≡ false
unfolding find_eocd_below
find_eocd_below-none tail zero j e below = absurd (omega arith)
find_eocd_below-none tail (suc n) j e below = elim (Bool-cases (is_eocd tail n)) [
  | inl here ↦ absurd (ground arith)
  | inr other ↦ elim (Bool-cases (j == n)) [
    | inl at_n ↦ rw ((==_iff j n).0 at_n) other
    | inr off ↦ find_eocd_below-none tail n j (rw other at e) (ground (arith, ==_iff j n))
  ]
]

find_eocd_test_iff :
    (tail : List ℕ) (index : ℕ)
    → (find_eocd tail ≡ some index) ↔ IsLastTest tail (length tail) index
unfolding find_eocd
find_eocd_test_iff tail index = (
  find_eocd_below-IsLastTest tail (length tail),
  λ h. elim (Option-cases (find_eocd_below tail (length tail))) [
    | inl missing ↦
        absurd (ground (arith, find_eocd_below-none tail (length tail) index missing h.0, h.1))
    | inr (other, found) ↦
        let k = find_eocd_below-IsLastTest tail (length tail) found in
        elim (Bool-cases (ltb index other)) [
          | inl less ↦ absurd (ground (arith, h.2 other (ltb→lt _ _ less) k.0, k.1))
          | inr more ↦ elim (Bool-cases (ltb other index)) [
            | inl greater ↦ absurd (ground (arith, k.2 index (ltb→lt _ _ greater) h.0, h.1))
            | inr equal ↦ let same : other ≡ index = ground arith in found ∙ ap some same
          ]
        ]
  ],
)

-- The search gives an index exactly when it is the last in the tail at which the four bytes of a
-- record stand with a comment, of the length that the record gives, that ends with the file.
pub find_eocd_iff :
    (tail : List ℕ) (index : ℕ) → (find_eocd tail ≡ some index) ↔ IsLast tail (length tail) index
find_eocd_iff tail index = (
  λ e. IsLastTest-IsLast tail (length tail) ((find_eocd_test_iff tail index).0 e),
  λ h. (find_eocd_test_iff tail index).1 (IsLast-IsLastTest tail (length tail) h),
)

-- An archive whose tail passes the check: the last record counts its entries and the bytes of its
-- directory within the limits, and the directory ends before the record.
pub record IsFit (limits : ParserLimits) (source_len : ℕ) (eocd : List ℕ) : Type 0 where
  pub first_disk : (u16_at eocd 4 ≡ 0) × (u16_at eocd 6 ≡ 0)
  pub few_entries : (u16_at eocd 8 ≡ u16_at eocd 10) × (u16_at eocd 10 ≤ limits.max_entries)
  pub small_directory : u32_at eocd 12 ≤ limits.max_central_directory_bytes
  pub ends_before : u32_at eocd 16 + u32_at eocd 12 + (eocd_size + u16_at eocd 20) ≤ source_len

read_u16-eq : (bytes : List ℕ) (i : ℕ) {v : ℕ} → read_u16 bytes i ≡ ok v → u16_at bytes i ≡ v
unfolding read_u16
read_u16-eq bytes i e = ground arith

read_u32-eq : (bytes : List ℕ) (i : ℕ) {v : ℕ} → read_u32 bytes i ≡ ok v → u32_at bytes i ≡ v
unfolding read_u32
read_u32-eq bytes i e = ground arith

check_counts-ok :
    (limits : ParserLimits) (disk central_disk disk_entries entries size offset : ℕ)
    → check_counts limits disk central_disk disk_entries entries size offset ≡ ok tt
    → (disk ≡ 0)
      × (central_disk ≡ 0)
      × (disk_entries ≡ entries)
      × (entries ≤ limits.max_entries)
      × (size ≤ limits.max_central_directory_bytes)
unfolding check_counts
check_counts-ok limits disk central_disk disk_entries entries size offset e =
    ground (arith, ==_iff disk 0, ==_iff central_disk 0, ==_iff disk_entries entries)

check_place-ok :
    (source_len size offset comment : ℕ)
    → check_place source_len size offset comment ≡ ok tt
    → offset + size + (eocd_size + comment) ≤ source_len
unfolding check_place
check_place-ok source_len size offset comment e = ground arith

check_eocd-IsFit :
    (limits : ParserLimits) (source_len : ℕ) (eocd : List ℕ)
    → check_eocd limits source_len eocd ≡ ok tt
    → IsFit limits source_len eocd
unfolding check_eocd
check_eocd-IsFit limits source_len eocd e =
    let (disk, d, e) = >>=-eq-ok (read_u16 eocd 4) _ e in
    let (central_disk, c, e) = >>=-eq-ok (read_u16 eocd 6) _ e in
    let (disk_entries, de, e) = >>=-eq-ok (read_u16 eocd 8) _ e in
    let (entries, n, e) = >>=-eq-ok (read_u16 eocd 10) _ e in
    let (size, s, e) = >>=-eq-ok (read_u32 eocd 12) _ e in
    let (offset, o, e) = >>=-eq-ok (read_u32 eocd 16) _ e in
    let (counted, e) =
      >>-eq-ok (check_counts limits disk central_disk disk_entries entries size offset) _ e in
    let (comment, m, placed) = >>=-eq-ok (read_u16 eocd 20) _ e in
    let (f, g, h, k, l) = check_counts-ok limits _ _ _ _ _ _ counted in
    let p = check_place-ok source_len size offset comment placed in
    record {
      first_disk = (read_u16-eq eocd 4 d ∙ f, read_u16-eq eocd 6 c ∙ g);
      few_entries =
          (read_u16-eq eocd 8 de ∙ h ∙ sym (read_u16-eq eocd 10 n), rw (read_u16-eq eocd 10 n) k);
      small_directory = rw (read_u32-eq eocd 12 s) l;
      ends_before = rw (read_u32-eq eocd 12 s, read_u32-eq eocd 16 o, read_u16-eq eocd 20 m) p;
    }

check_tail-IsFit :
    (limits : ParserLimits) (source_len : ℕ) (tail : List ℕ)
    → check_tail limits source_len tail ≡ ok tt
    → (index : ℕ) × IsLast tail (length tail) index
      × IsFit limits source_len (take eocd_size (drop index tail))
unfolding check_tail
check_tail-IsFit limits source_len tail e = elim (Option-cases (find_eocd tail)) [
  | inl missing ↦ absurd (ground arith)
  | inr (index, found) ↦ (
    index,
    (find_eocd_iff tail index).0 found,
    check_eocd-IsFit limits source_len _ (ground arith),
  )
]

-- A file that passes the check has, in its last bytes, a record of the end of a central directory,
-- the last one whose comment ends with the file; by that record it is one volume, its entries and
-- the bytes of its directory are within the limits, and the directory ends before the record.
pub preflight-IsFit :
    (source : Source) (limits : ParserLimits)
    → preflight source limits ≡ ok tt
    → (source_len : ℕ) × (tail : List ℕ) × (index : ℕ) × (source.source_len ≡ some source_len)
      × (source.read_exact (source_len - tail_len source_len) (tail_len source_len) ≡ some tail)
      × IsLast tail (length tail) index
      × IsFit limits source_len (take eocd_size (drop index tail))
unfolding preflight
preflight-IsFit source limits e =
    let (source_len, l, e) = >>=-eq-ok (ok_or source.source_len invalid_archive) _ e in
    let (long, e) =
      >>-eq-ok (refuse_if (ltb (tail_len source_len) eocd_size) invalid_archive) _ e in
    let (tail, t, e) =
      >>=-eq-ok
        (ok_or (source.read_exact (source_len - tail_len source_len) (tail_len source_len))
          invalid_archive)
        _ e in
    let (quick, e) = >>-eq-ok (check_deadline source.elapsed limits) _ e in
    let (index, last, fit) = check_tail-IsFit limits source_len tail e in
    (source_len, tail, index, ok_or-eq-ok _ _ l, ok_or-eq-ok _ _ t, last, fit)
