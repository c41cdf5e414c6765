-- ===== src/Uploads/Tests.antt =====
-- Runs of the receipt of an upload, and instances of its theorems.
use folioharbor.Prelude.{All, List, [], false, length, none, refl, some, true, ◌++◌, ◌∷◌, ◌≡◌, ◌≤◌}
use folioharbor.Prelude.Result.{ok, err}
use folioharbor.Text.Chars.{codes}
use folioharbor.App.{invalid}
use folioharbor.Domain.Upload.{UploadState}
use folioharbor.Uploads.Receive.{
  Arrival, Call, Ports, Received, Session, abort, abort_with, append_chunks, appends,
  begins_receipt, chunk_of, chunks, chunks_on, close_receipt, create_staging, creates_staging,
  deletes_staging, fails_upload, finalize, heartbeat, promote, promoted, promoted_as,
  receive_content, stream_content, tick,
}
use folioharbor.Uploads.Receive.Laws.{appended, bytes_of, stream_content-stored}
use folioharbor.Uploads.Receive.Order.{IsStreamed, closing, receive_content-finalized}

abbrev fresh : Session
fresh = record {
  state = UploadState.created;
  declared_bytes = 4;
  received_bytes = 0;
  has_storage_key = false;
}

abbrev done : Session
done = record {
  state = UploadState.queued;
  declared_bytes = 4;
  received_bytes = 3;
  has_storage_key = true;
}

abbrev willing : Ports
willing = record {
  get_before = ok fresh;
  get_after = ok done;
  begin_receipt = λ state. some true;
  create_staging = none;
  append = λ received chunk. none;
  delete_staging = true;
  fail_upload = λ received code. true;
  prepare_promotion = some true;
  promote = promoted (codes "blob");
  candidate_key = λ count content. codes "blob";
  record_disposition = some true;
  mark_received = some true;
  finalize = some true;
}

abbrev good_stream : List Arrival
good_stream = chunk_of (1 ∷ 2 ∷ []) ∷ tick (some true) ∷ chunk_of (3 ∷ []) ∷ []

receives : (receive_content willing good_stream fresh).0 ≡ ok done
unfolding receive_content create_staging stream_content append_chunks chunks chunks_on heartbeat
    close_receipt promote promoted_as finalize
receives = refl

-- A stream that is longer than declared is aborted.
aborts :
    stream_content willing 4 (chunk_of (1 ∷ 2 ∷ []) ∷ chunk_of (3 ∷ 4 ∷ 5 ∷ []) ∷ []) (0, []) ≡ (
      err (invalid (codes "upload_exceeds_declared_size")),
      appends (1 ∷ 2 ∷ [])
          ∷ deletes_staging
          ∷ fails_upload 2 (codes "upload_exceeds_declared_size")
          ∷ [],
    )
unfolding stream_content append_chunks chunks chunks_on abort_with abort
aborts = refl

abbrev three : Received
three = (3, 1 ∷ 2 ∷ 3 ∷ [])

streams : (stream_content willing 4 good_stream (0, [])).0 ≡ ok three
unfolding stream_content append_chunks chunks chunks_on heartbeat
streams = refl

stream_content-stored_example :
    (three.0 ≡ length (bytes_of good_stream))
    × (three.1 ≡ bytes_of good_stream)
    × (appended (stream_content willing 4 good_stream (0, [])).1 ≡ bytes_of good_stream)
    × (three.0 ≤ 4)
stream_content-stored_example = stream_content-stored willing 4 good_stream {after = three} streams

receive_content-finalized_example :
    (streamed : List Call) × All IsStreamed streamed
    × (appended streamed ≡ bytes_of good_stream)
    × (length (bytes_of good_stream) ≤ fresh.declared_bytes)
    × ((receive_content willing good_stream fresh).1
        ≡ begins_receipt
          ∷ creates_staging
          ∷ (streamed ++ closing (length (bytes_of good_stream)) (bytes_of good_stream)))
    × (willing.promote
        ≡ promoted (willing.candidate_key (length (bytes_of good_stream)) (bytes_of good_stream)))
receive_content-finalized_example =
    receive_content-finalized willing good_stream fresh {session = done} receives
