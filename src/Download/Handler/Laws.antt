-- ===== src/Download/Handler/Laws.antt =====
-- What a download's reply says, and when a body is sent.
use folioharbor.Prelude.{
  Bool, Bool-cases, Option, false, inl, inr, is_some, none, refl, some, true, ℕ, ◌==◌, ◌≡◌,
}
use folioharbor.Prelude.Result.{Result-cases, ok}
use folioharbor.App.{App}
use folioharbor.Download.Range.{ByteRange, range_length, requested_range, resolve_range}
use folioharbor.Download.Range.Laws.{IsWithin, resolve_range-IsWithin}
use folioharbor.Download.Grant.{DownloadGrant, record_start}
use folioharbor.Download.Handler.{
  Headers, Reply, answer, download, matches_validator, part_of, problem, range_not_satisfiable,
  response, serve, success_response,
}

abbrev pub body_of : Reply → Option ByteRange
body_of (response r) = r.body
body_of (problem error) = none

abbrev pub length_of : Reply → Option ℕ
length_of (response r) = r.content_length
length_of (problem error) = none

abbrev pub is_part : Reply → Bool
is_part (response r) = elim r.content_range [ some (part_of range size) ↦ true | _ ↦ false ]
is_part (problem error) = false

abbrev pub has_status : ℕ → Reply → Bool
has_status n (response r) = r.status == n
has_status n (problem error) = false

-- What goes with a range whose start was recorded: the answer was no error, the range lies in the
-- file, the reply states its length, and the request was no HEAD.
abbrev pub IsStarted : ℕ → Bool → (ByteRange → App (Unit {0})) → Reply → Option ByteRange → Type 0
IsStarted size head record_start reply none = Unit
IsStarted size head record_start reply (some range) =
    IsWithin range size
    × (record_start range ≡ ok tt)
    × (length_of reply ≡ some (range_length range))
    × (head ≡ false)

-- What is streamed is the range whose start was recorded. Status 206 goes with a `Content-Range` of a
-- part.
pub record IsReply (size : ℕ) (head : Bool) (record_start : ByteRange → App (Unit {0}))
    (out : Reply × Option ByteRange) : Type 0 where
  pub streamed : body_of out.0 ≡ out.1
  pub recorded : IsStarted size head record_start out.0 out.1
  pub partial : is_part out.0 ≡ has_status 206 out.0

-- A reply without a body, for which nothing was recorded.
quiet :
    (size : ℕ) (head : Bool) (record_start : ByteRange → App (Unit {0})) (reply : Reply)
    → body_of reply ≡ none
    → is_part reply ≡ has_status 206 reply
    → IsReply size head record_start (reply, none)
quiet size head record_start reply no_body part = record {
  streamed = no_body;
  recorded = tt;
  partial = part;
}

success_part :
    (size : ℕ) (partial : Bool) (range : ByteRange) (streams : Bool)
    → is_part (response (success_response size partial range streams))
      ≡ has_status 206 (response (success_response size partial range streams))
unfolding success_response
success_part size true range streams = refl
success_part size false range streams = refl

serve-IsReply :
    (grant : DownloadGrant) (partial : Bool) (range : ByteRange) (head has_blobs : Bool)
    (record_start : ByteRange → App (Unit {0}))
    → IsWithin range grant.byte_size
    → IsReply grant.byte_size head record_start
        (serve grant partial range head has_blobs record_start)
unfolding serve
serve-IsReply grant partial range true has_blobs record_start within =
    quiet grant.byte_size true record_start _ (unfold success_response in refl)
      (success_part grant.byte_size partial range false)
serve-IsReply grant partial range false false record_start within =
    quiet grant.byte_size false record_start _ refl refl
serve-IsReply grant partial range false true record_start within =
    elim (Result-cases (record_start range)) [
      | inl (tt, started) ↦
          rw (started, serve)
            (record {
              streamed = unfold success_response in refl;
              recorded = (within, started, (unfold success_response in refl), refl);
              partial = success_part grant.byte_size partial range true;
            })
      | inr (error, failed) ↦
          rw (failed, serve) (quiet grant.byte_size false record_start (problem error) refl refl)
    ]

answer-IsReply :
    (grant : DownloadGrant) (headers : Headers) (head has_blobs : Bool)
    (record_start : ByteRange → App (Unit {0}))
    → IsReply grant.byte_size head record_start (answer grant headers head has_blobs record_start)
unfolding answer
answer-IsReply grant headers head has_blobs record_start =
    elim (Result-cases (requested_range headers.range)) [
      | inl (requested, asked) ↦ elim (Result-cases (resolve_range requested grant.byte_size)) [
        | inl (range, resolved) ↦
            rw (asked, answer, resolved)
              (serve-IsReply grant (is_some requested) range head has_blobs record_start
                (resolve_range-IsWithin requested grant.byte_size resolved).0)
        | inr (error, failed) ↦
            rw (asked, answer, failed)
              (unfold range_not_satisfiable in quiet grant.byte_size head record_start _ refl refl)
      ]
      | inr (error, failed) ↦
          rw (failed, answer)
            (unfold range_not_satisfiable in quiet grant.byte_size head record_start _ refl refl)
    ]

-- The reply to a download request with a grant: a body is streamed exactly when the start of the
-- very same range has been recorded without an error; that range lies in the file, the reply states
-- its length, and the request is no HEAD; and status 206 goes with a `Content-Range` of a part.
pub download-IsReply :
    (item : Bool) (grant : DownloadGrant) (headers : Headers) (head has_blobs : Bool)
    (record_start : ByteRange → App (Unit {0}))
    → IsReply grant.byte_size head record_start
        (download item (ok grant) headers head has_blobs record_start)
unfolding download
download-IsReply false grant headers head has_blobs record_start =
    quiet grant.byte_size head record_start _ refl refl
download-IsReply true grant headers head has_blobs record_start =
    elim (Bool-cases (matches_validator headers.if_none_match grant.etag)) [
      | inl known ↦ rw known (quiet grant.byte_size head record_start _ refl refl)
      | inr stale ↦ rw stale (answer-IsReply grant headers head has_blobs record_start)
    ]
