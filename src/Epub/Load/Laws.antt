-- ===== src/Epub/Load/Laws.antt =====
-- What holds of every archive that is loaded, whatever the ZIP library gives for its members.
use folioharbor.Prelude.{
  ==_iff, All, Bool, List, Option, [], any, ap, ap₂, arith, false, inl, inr, length, ltb, map, not,
  refl, suc, ℕ, ◌+◌, ◌∷◌, ◌≡◌, ◌≤◌,
}
use folioharbor.Prelude.Result.{>>-eq-ok, >>=-eq-ok, Result-cases, map_all, ok, ok_or, refuse_if}
use folioharbor.Text.Chars.{text_eq}
use folioharbor.Text.Split.{split}
use folioharbor.Text.Utf8.{decode}
use folioharbor.Epub.Error.{encrypted_content, entry_limit, invalid_archive, unsafe_path}
use folioharbor.Epub.Path.{EpubPath, normalize_path}
use folioharbor.Epub.Path.Laws.{IsNormal, normalize_path-IsNormal}
use folioharbor.Epub.Archive.{ParserLimits, BoundedArchive, check_deadline}
use folioharbor.Epub.Eocd.{Source, preflight}
use folioharbor.Epub.Load.{
  Header, Member, Planned, check_header, check_limits, load, open_member, read, scan,
}

-- The sum of the sizes.
abbrev pub total_size : List (EpubPath × ℕ) → ℕ
total_size [] = 0
total_size ((path, size) ∷ sized) = size + total_size sized

-- No path stands twice, or is one of `seen`.
abbrev pub Fresh : List EpubPath → List (EpubPath × ℕ) → Type 0
Fresh seen [] = Unit
Fresh seen ((path, size) ∷ sized) = (any (text_eq path) seen ≡ false) × Fresh (path ∷ seen) sized

-- A normal path that is not too deep, and a size that is not too large.
pub record IsAllowed (limits : ParserLimits) (path : EpubPath) (size : ℕ) : Type 0 where
  pub normal : IsNormal path
  pub shallow : length (split b'/' path) ≤ limits.max_path_depth
  pub small : size ≤ limits.max_resource_bytes

-- Members with these paths and sizes are within the limits.
pub record IsBounded (limits : ParserLimits) (sized : List (EpubPath × ℕ)) : Type 0 where
  pub few : length sized ≤ limits.max_entries
  pub allowed : All (λ p. IsAllowed limits p.0 p.1) sized
  pub distinct : Fresh [] sized
  pub total : total_size sized ≤ limits.max_total_uncompressed_bytes

abbrev plan_sizes : List Planned → List (EpubPath × ℕ)
plan_sizes planned = map (λ p. (p.path, p.planned_size)) planned

abbrev pub entry_sizes : List (EpubPath × List ℕ) → List (EpubPath × ℕ)
entry_sizes entries = map (λ p. (p.0, length p.1)) entries

check_limits-ok :
    (limits : ParserLimits) (header : Header) (total : ℕ) (seen : List EpubPath) (path : EpubPath)
    {q : EpubPath}
    → check_limits limits header total seen path ≡ ok q
    → (q ≡ path)
      × (length (split b'/' path) ≤ limits.max_path_depth)
      × (header.size ≤ limits.max_resource_bytes)
      × (total + header.size ≤ limits.max_total_uncompressed_bytes)
      × (any (text_eq path) seen ≡ false)
unfolding check_limits
check_limits-ok limits header total seen path e = ground arith

-- What the checks of a header leave.
check_header-IsAllowed :
    (limits : ParserLimits) (header : Header) (total : ℕ) (seen : List EpubPath) {path : EpubPath}
    → check_header limits header total seen ≡ ok path
    → IsAllowed limits path header.size
      × (total + header.size ≤ limits.max_total_uncompressed_bytes)
      × (any (text_eq path) seen ≡ false)
unfolding check_header
check_header-IsAllowed limits header total seen {path} e =
    let (plain, e) = >>-eq-ok (refuse_if header.encrypted encrypted_content) _ e in
    let (name, n, e) = >>=-eq-ok (ok_or (decode header.name_raw) unsafe_path) _ e in
    let (q, p, e) = >>=-eq-ok (normalize_path name false) _ e in
    let (same, shallow, small, total, new) = check_limits-ok limits header total seen q e in
    rw same (
      record { normal = normalize_path-IsNormal name p; shallow = shallow; small = small },
      total,
      new,
    )

load-size :
    (limits : ParserLimits) (planned : Planned) {entry : EpubPath × List ℕ}
    → load limits planned ≡ ok entry
    → (entry.0 ≡ planned.path) × (length entry.1 ≡ planned.planned_size)
unfolding load
load-size limits planned e =
    elim (Result-cases (open_member limits planned.planned_size planned.member.opening)) [
      | inl (bytes, b) ↦ ground (arith, ==_iff (length bytes) planned.planned_size)
      | inr (code, b) ↦ absurd (ground arith)
    ]

load-sizes :
    (limits : ParserLimits) (planned : List Planned) {entries : List (EpubPath × List ℕ)}
    → map_all (load limits) planned ≡ ok entries
    → entry_sizes entries ≡ plan_sizes planned
unfolding map_all
load-sizes limits [] e = ground arith
load-sizes limits (p ∷ planned) {entries} e =
    let (entry, one, e) = >>=-eq-ok (load limits p) _ e in
    let (rest, others, e) = >>=-eq-ok (map_all (load limits) planned) _ e in
    let (path, size) = load-size limits p one in
    let same : entries ≡ entry ∷ rest = ground arith in
    rw same
      (ap₂ (λ x xs. x ∷ xs) (ap₂ (λ q n. (q, n)) path size) (load-sizes limits planned others))

-- The plan of the loop over the headers.
record IsPlan (limits : ParserLimits) (members : List Member) (before : ℕ) (seen : List EpubPath)
    (planned : List Planned) : Type 0 where
  as_many : length (plan_sizes planned) ≡ length members
  allowed : All (λ p. IsAllowed limits p.0 p.1) (plan_sizes planned)
  distinct : Fresh seen (plan_sizes planned)
  total : before + total_size (plan_sizes planned) ≤ limits.max_total_uncompressed_bytes

scan-IsPlan :
    (limits : ParserLimits) (members : List Member) (before : ℕ) (seen : List EpubPath)
    {planned : List Planned}
    → before ≤ limits.max_total_uncompressed_bytes
    → scan limits members before seen ≡ ok planned
    → IsPlan limits members before seen planned
unfolding scan
scan-IsPlan limits [] before seen {planned} low e =
    let same : planned ≡ [] = ground arith in
    rw same (record { as_many = refl; allowed = tt; distinct = tt; total = omega (arith, low) })
scan-IsPlan limits (member ∷ members) before seen {planned} low e =
    let (quick, e) = >>-eq-ok (check_deadline member.before_header limits) _ e in
    let (header, h, e) = >>=-eq-ok (ok_or member.header invalid_archive) _ e in
    let (path, p, e) = >>=-eq-ok (check_header limits header before seen) _ e in
    let (rest, r, e) = >>=-eq-ok (scan limits members (before + header.size) (path ∷ seen)) _ e in
    let (allowed, within, new) = check_header-IsAllowed limits header before seen p in
    let k = scan-IsPlan limits members (before + header.size) (path ∷ seen) within r in
    let first : Planned = record { member = member; path = path; planned_size = header.size } in
    let same : planned ≡ first ∷ rest = ground arith in
    rw same (record {
      as_many = ap suc k.as_many;
      allowed = (allowed, k.allowed);
      distinct = (new, k.distinct);
      total = omega (arith, k.total);
    })

length-entry_sizes :
    (entries : List (EpubPath × List ℕ)) → length (entry_sizes entries) ≡ length entries
length-entry_sizes [] = refl
length-entry_sizes (entry ∷ entries) = ap suc (length-entry_sizes entries)

-- An archive that is loaded is within its limits, whatever the ZIP library gives: it has at most as
-- many entries as allowed; each of them has a normal path that is not too deep and does not stand
-- twice in the archive, and at most the bytes that one resource may have; and all of them together
-- have at most the total that is allowed.
pub read-IsBounded :
    (started : ℕ) (source : Source) (rewinds : Bool) (members : Option (List Member))
    (limits : ParserLimits) {archive : BoundedArchive}
    → read started source rewinds members limits ≡ ok archive
    → (archive.limits ≡ limits) × IsBounded limits (entry_sizes archive.entries)
unfolding read
read-IsBounded started source rewinds members limits {archive} e =
    let (quick, e) = >>-eq-ok (check_deadline started limits) _ e in
    let (fit, e) = >>-eq-ok (preflight source limits) _ e in
    let (again, e) = >>-eq-ok (refuse_if (not rewinds) invalid_archive) _ e in
    let (found, f, e) = >>=-eq-ok (ok_or members invalid_archive) _ e in
    let (few, e) = >>-eq-ok (refuse_if (ltb limits.max_entries (length found)) entry_limit) _ e in
    let (planned, p, e) = >>=-eq-ok (scan limits found 0 []) _ e in
    let (entries, l, e) = >>=-eq-ok (map_all (load limits) planned) _ e in
    let k = scan-IsPlan limits found 0 [] (omega arith) p in
    let sizes = load-sizes limits planned l in
    let same : archive ≡ record { entries = entries; limits = limits } = ground arith in
    rw (same, sizes)
      (
        refl,
        record {
          few = rw k.as_many (ground arith);
          allowed = k.allowed;
          distinct = k.distinct;
          total = omega (arith, k.total);
        },
      )
