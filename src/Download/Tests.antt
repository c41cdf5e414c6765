-- ===== src/Download/Tests.antt =====
-- Runs of the download, and instances of its theorems.
use folioharbor.Prelude.{
  Bool, List, [], arith, drop, false, length, refl, some, take, true, ℕ, ◌++◌, ◌+◌, ◌==◌, ◌↔◌, ◌∷◌,
  ◌≡◌, ◌≤◌,
}
use folioharbor.Prelude.Result.{err, ok}
use folioharbor.Text.Chars.{
  Text, codes, trim, to_ascii_lowercase, is_control, is_ascii_alphanumeric,
}
use folioharbor.Text.Split.{split_once}
use folioharbor.Text.Number.{parse_u64}
use folioharbor.Text.Utf8.{encode}
use folioharbor.Domain.Hrefs.{percent_decoded}
use folioharbor.Download.Range.{
  ByteRange, closed_range, range_error, range_length, resolve_ends, resolve_range, resolve_unit,
  suffix_range,
}
use folioharbor.Download.Range.Laws.{IsWithin, resolve_range-IsWithin}
use folioharbor.Download.Stream.{Item, Reader, streaming_body}
use folioharbor.Download.Stream.Laws.{IsHonest, is_clean, sent, streaming_body-IsSent}
use folioharbor.Download.Disposition.{
  content_disposition, hex_upper, is_unsafe, keep, leaf, percent_encode, sanitize,
}
use folioharbor.Download.Disposition.Laws.{percent_decoded-percent_encode}
use folioharbor.Download.Grant.{DownloadSource}
use folioharbor.Download.Grant.Laws.{grant_for}
use folioharbor.Download.Handler.{Headers, download}
use folioharbor.Download.Handler.Laws.{IsReply, download-IsReply}

resolve_range_runs :
    (resolve_range (some (codes "ByTeS=2-5")) 10 ≡ ok (record { start = 2; end = 5 }))
    × (resolve_range (some (codes "bytes=-4")) 10 ≡ ok (record { start = 6; end = 9 }))
    × (resolve_range (some (codes "bytes=5-4")) 10 ≡ err range_error)
unfolding resolve_range resolve_unit resolve_ends suffix_range closed_range split_once parse_u64
    to_ascii_lowercase
resolve_range_runs = (refl, refl, refl)

abbrev five : ByteRange
five = record { start = 2; end = 5 }

resolve_range-IsWithin_example :
    IsWithin five 10 × (range_length five + 2 ≡ 5 + 1) × (range_length five ≤ 10)
resolve_range-IsWithin_example =
    resolve_range-IsWithin (some (codes "ByTeS=2-5")) 10 {range = five} resolve_range_runs.0

abbrev content : List ℕ
content = 1 ∷ 2 ∷ 3 ∷ 4 ∷ []

-- A store that gives one byte at a time.
abbrev one_by_one : Reader
one_by_one calls offset asked = some (take 1 (drop offset content))

streaming_body-IsSent_example :
    (items : List Item) × (streaming_body one_by_one 1 2 ≡ some items)
    × (length (sent items) ≤ 2)
    × ((is_clean items ≡ true) ↔ (length (sent items) ≡ 2))
streaming_body-IsSent_example = streaming_body-IsSent one_by_one 1 2

one_by_one-IsHonest : IsHonest one_by_one content
one_by_one-IsHonest calls offset asked pos inside = (1, omega arith, omega arith, refl)

abbrev no_format : ℕ → Bool
no_format c = c == 0xad

percent_decoded-percent_encode_example :
    percent_decoded (percent_encode (encode (codes "危 险.epub"))) ≡ ok (codes "危 险.epub")
percent_decoded-percent_encode_example = percent_decoded-percent_encode (codes "危 险.epub") refl

content_disposition_runs :
    content_disposition no_format (codes "../危 险.epub")
    ≡ codes "attachment; filename="
      ++ (b'"' ∷ codes "___.epub" ++ (b'"' ∷ codes "; filename*=UTF-8''%E5%8D%B1%20%E9%99%A9.epub"))
unfolding content_disposition sanitize leaf keep is_unsafe percent_encode hex_upper encode trim
    is_control is_ascii_alphanumeric
content_disposition_runs = refl

abbrev source : DownloadSource
source = record {
  blob_id = 7;
  storage_identity = codes "k";
  byte_size = 4;
  file_name = codes "a.epub";
}

abbrev tag : ℕ → Text
tag blob = codes "t"

abbrev headers : Headers
headers = record { if_none_match = []; range = some (codes "bytes=1-2") ∷ [] }

download-IsReply_example :
    IsReply 4 false
      (λ range. ok tt)
      (download true (ok (grant_for no_format tag source)) headers false true (λ range. ok tt))
download-IsReply_example =
    download-IsReply true (grant_for no_format tag source) headers false true (λ range. ok tt)
