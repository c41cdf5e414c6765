-- ===== src/Uploads/Receive/Laws.antt =====
-- What is stored of an upload, and when it is finalized.
use mathlib.Core.List.{append_assoc, append-nil}
use folioharbor.Prelude.{
  Bool, Bool-cases, List, Option, Option-cases, [], ap, ap₂, arith, false, inl, inr, length,
  length-append, ltb, none, refl, some, sym, true, ℕ, ◌++◌, ◌+◌, ◌||◌, ◌∙◌, ◌∷◌, ◌≡◌, ◌≤◌,
}
use folioharbor.Prelude.Result.{ok, err}
use folioharbor.Text.Chars.{Text, codes}
use folioharbor.Text.Number.{u64_max}
use folioharbor.App.{AppError}
use folioharbor.Uploads.Log.{Logged, ◌>>=◌, ◌>>◌}
use folioharbor.Uploads.Receive.{
  Arrival, Call, Ports, Received, abort, abort_storage, abort_with, append_chunks, appends,
  chunk_of, chunks, heartbeat, interrupted, max_append_bytes, stream_content, tick,
}
use folioharbor.Uploads.Receive.Chunks.{concat, concat-chunks}

-- The bytes that the calls append to the staged blob.
abbrev pub appended : List Call → List ℕ
appended [] = []
appended (appends bytes ∷ calls) = bytes ++ appended calls
appended (_ ∷ calls) = appended calls

-- The bytes of the stream.
abbrev pub bytes_of : List Arrival → List ℕ
bytes_of [] = []
bytes_of (chunk_of bytes ∷ arrivals) = bytes ++ bytes_of arrivals
bytes_of (_ ∷ arrivals) = bytes_of arrivals

appended-append : (xs ys : List Call) → appended (xs ++ ys) ≡ appended xs ++ appended ys
appended-append [] ys = refl
appended-append (appends bytes ∷ xs) ys =
    ap (λ t. bytes ++ t) (appended-append xs ys)
    ∙ sym (append_assoc bytes (appended xs) (appended ys))
appended-append (_ ∷ xs) ys = appended-append xs ys

module _ (ports : Ports) (declared : ℕ) where
  -- What a part of the receipt does from `before` on: it appends no more than is declared, whatever
  -- happens, and where it goes on, `wanted` is what it has appended and counted.
  record IsStored (wanted : List ℕ) (before : Received) (run : Logged Call Received) : Type 0 where
    fits : before.0 + length (appended run.1) ≤ declared
    whole :
        {after : Received}
        → run.0 ≡ ok after
        → (after.0 ≡ before.0 + length wanted)
          × (after.1 ≡ before.1 ++ wanted)
          × (appended run.1 ≡ wanted)
          × (after.0 ≤ declared)

  abort-appends_nothing : (received : ℕ) (code : Text) → appended (abort ports received code).1 ≡ []
  unfolding abort
  abort-appends_nothing received code = ground arith

  abort_with-IsStored :
      (received : ℕ) (code : Text) (wanted : List ℕ) (before : Received)
      → before.0 ≤ declared
      → IsStored wanted before (abort_with ports received code)
  unfolding abort_with
  abort_with-IsStored received code wanted before h =
      let nothing = abort-appends_nothing received code in
      record { fits = rw nothing (omega (arith, h)); whole = λ e. absurd (ground arith) }

  put_and_abort :
      (chunk wanted : List ℕ) (total : ℕ) (before : Received) (error : AppError)
      → before.0 + length chunk ≤ declared
      → IsStored wanted before ((ok tt, appends chunk ∷ []) >> abort_storage ports total error)
  unfolding abort_storage
  put_and_abort chunk wanted total before error h =
      let nothing = abort-appends_nothing total (codes "upload_storage_failed") in
      record { fits = rw (nothing, append-nil chunk) h; whole = λ e. absurd (ground arith) }

  put_then :
      (chunk wanted : List ℕ) (before : Received) (rest : Logged Call Received)
      → IsStored wanted (before.0 + length chunk, before.1 ++ chunk) rest
      → IsStored (chunk ++ wanted) before ((ok tt, appends chunk ∷ []) >> rest)
  put_then chunk wanted before rest h = record {
    fits = rw (length-append chunk (appended rest.1)) (omega (arith, h.fits));
    whole = λ e.
        let (counted, content, calls, small) = h.whole e in
        (
          rw (length-append chunk wanted) (omega (arith, counted)),
          content ∙ append_assoc before.1 chunk wanted,
          ap (λ t. chunk ++ t) calls,
          small,
        );
  }

  append_chunks-IsStored :
      (parts : List (List ℕ)) (before : Received)
      → before.0 ≤ declared
      → IsStored (concat parts) before (append_chunks ports declared parts before)
  unfolding append_chunks
  append_chunks-IsStored [] before h = record {
    fits = omega (arith, h);
    whole = λ {after} e.
        let same : after ≡ before = ground arith in
        rw same (omega arith, sym (append-nil before.1), refl, h);
  }
  append_chunks-IsStored (part ∷ parts) before h =
      elim (Bool-cases
        (ltb u64_max (before.0 + length part) || ltb declared (before.0 + length part))) [
          | inl large ↦ rw (large, append_chunks) (abort_with-IsStored _ _ _ before h)
          | inr small ↦
              let fits : before.0 + length part ≤ declared = ground arith in
              elim (Option-cases (ports.append (before.0 + length part) part)) [
                | inl taken ↦
                    rw (small, taken, append_chunks)
                      (put_then part (concat parts) before _ (
                        append_chunks-IsStored parts (before.0 + length part, before.1 ++ part)
                          fits))
                | inr (error, refused) ↦
                    rw (small, refused, append_chunks) (put_and_abort part _ _ before _ fits)
              ]
        ]

  -- Two parts of the receipt, one after the other.
  IsStored-then :
      (first_bytes next_bytes : List ℕ) (before : Received) (first : Logged Call Received)
      (next : Received → Logged Call Received)
      → IsStored first_bytes before first
      → ((mid : Received) → mid.0 ≤ declared → IsStored next_bytes mid (next mid))
      → IsStored (first_bytes ++ next_bytes) before (first >>= next)
  IsStored-then first_bytes next_bytes before (err error, calls) next h k = record {
    fits = h.fits;
    whole = λ e. absurd (ground arith);
  }
  IsStored-then first_bytes next_bytes before (ok mid, calls) next h k =
      let (counted, content, same, small) = h.whole {after = mid} refl in
      let later = k mid small in
      let parts = appended-append calls (next mid).1 in
      record {
        fits =
            rw (parts, same, length-append first_bytes (appended (next mid).1))
              (omega (arith, counted, later.fits));
        whole = λ {after} e.
            let (counted', content', same', small') = later.whole {after = after} e in
            (
              rw (length-append first_bytes next_bytes) (omega (arith, counted, counted')),
              content'
                  ∙ ap (λ t. t ++ next_bytes) content
                  ∙ append_assoc before.1 first_bytes next_bytes,
              parts ∙ ap₂ (λ x y. x ++ y) same same',
              small',
            );
      }

  beat_then :
      (answer : Option Bool) (wanted : List ℕ) (before : Received) (rest : Logged Call Received)
      → before.0 ≤ declared
      → IsStored wanted before rest
      → IsStored wanted before (heartbeat answer >> rest)
  unfolding heartbeat
  beat_then none wanted before rest h k = record {
    fits = omega (arith, h);
    whole = λ e. absurd (ground arith);
  }
  beat_then (some false) wanted before rest h k = record {
    fits = omega (arith, h);
    whole = λ e. absurd (ground arith);
  }
  beat_then (some true) wanted before rest h k = record { fits = k.fits; whole = k.whole }

  stream_content-IsStored :
      (arrivals : List Arrival) (before : Received)
      → before.0 ≤ declared
      → IsStored (bytes_of arrivals) before (stream_content ports declared arrivals before)
  unfolding stream_content
  stream_content-IsStored [] before h = record {
    fits = omega (arith, h);
    whole = λ {after} e.
        let same : after ≡ before = ground arith in
        rw same (omega arith, sym (append-nil before.1), refl, h);
  }
  stream_content-IsStored (tick answer ∷ arrivals) before h =
      beat_then answer _ before _ h (stream_content-IsStored arrivals before h)
  stream_content-IsStored (interrupted ∷ arrivals) before h = abort_with-IsStored _ _ _ before h
  stream_content-IsStored (chunk_of bytes ∷ arrivals) before h =
      IsStored-then bytes (bytes_of arrivals) before _ _
        (rw (concat-chunks bytes) at
          (append_chunks-IsStored (chunks max_append_bytes bytes) before h))
        (λ mid small. stream_content-IsStored arrivals mid small)

  -- Whatever the stream brings and the ports answer, the receipt of a content appends no more bytes
  -- than are declared.
  pub stream_content-fits :
      (arrivals : List Arrival)
      → length (appended (stream_content ports declared arrivals (0, [])).1) ≤ declared
  stream_content-fits arrivals =
      let h = stream_content-IsStored arrivals (0, []) (omega arith) in omega (arith, h.fits)

  -- Where the receipt goes on to the promotion, the bytes that it has counted and hashed are all
  -- the bytes of the stream in their order, it has appended just these, and they are no more than
  -- are declared.
  pub stream_content-stored :
      (arrivals : List Arrival) {after : Received}
      → (stream_content ports declared arrivals (0, [])).0 ≡ ok after
      → (after.0 ≡ length (bytes_of arrivals))
        × (after.1 ≡ bytes_of arrivals)
        × (appended (stream_content ports declared arrivals (0, [])).1 ≡ bytes_of arrivals)
        × (after.0 ≤ declared)
  stream_content-stored arrivals {after} e =
      let h = stream_content-IsStored arrivals (0, []) (omega arith) in
      let (counted, content, same, small) = h.whole {after = after} e in
      (omega (arith, counted), content, same, small)
