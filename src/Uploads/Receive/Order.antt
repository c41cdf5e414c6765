-- ===== src/Uploads/Receive/Order.antt =====
-- The calls of a receipt that succeeds, in their order.
use folioharbor.Prelude.{
  All, All-append, Bool-cases, List, Option-cases, [], ap, ap₂, arith, false, inl, inr, length, ltb,
  none, refl, some, true, ℕ, ◌++◌, ◌+◌, ◌||◌, ◌∙◌, ◌∷◌, ◌≡◌, ◌≤◌,
}
use folioharbor.Prelude.Result.{ok}
use folioharbor.Text.Chars.{Text, text_eq, text_eq-eq}
use folioharbor.Text.Number.{u64_max}
use folioharbor.Uploads.Log.{>>-logged-ok, >>=-logged-ok, call, ◌>>=◌, ◌>>◌}
use folioharbor.Uploads.Receive.{
  Arrival, Call, Ports, Promotion, Received, Session, abort, abort_storage, abort_with, agreed,
  append_chunks, appends, beats, begins_receipt, chunk_of, chunks, close_receipt, create_staging,
  creates_staging, finalize, finalizes, heartbeat, interrupted, marks_received, max_append_bytes,
  not_promoted, prepares, promote, promoted, promoted_as, promotes, receive_content,
  records_disposition, state_conflict, stream_content, tick,
}
use folioharbor.Uploads.Receive.Laws.{appended, bytes_of, stream_content-stored}

-- The calls from the promotion on, for a content of `count` bytes.
abbrev pub closing : ℕ → List ℕ → List Call
closing count content =
    prepares count content
    ∷ promotes
    ∷ records_disposition
    ∷ marks_received count
    ∷ finalizes count
    ∷ []

-- A call of the stream: a heartbeat, or bytes that are appended.
abbrev pub IsStreamed : Call → Type 0
IsStreamed beats = Unit
IsStreamed (appends bytes) = Unit
IsStreamed _ = ⊥

module _ (ports : Ports) (declared : ℕ) where
  append_chunks-IsStreamed :
      (parts : List (List ℕ)) (before : Received) {after : Received}
      → (append_chunks ports declared parts before).0 ≡ ok after
      → All IsStreamed (append_chunks ports declared parts before).1
  unfolding append_chunks abort_with abort_storage
  append_chunks-IsStreamed [] before e = tt
  append_chunks-IsStreamed (part ∷ parts) before {after} e =
      let total = before.0 + length part in
      elim (Bool-cases (ltb u64_max total || ltb declared total)) [
        | inl large ↦ absurd (ground arith)
        | inr small ↦ elim (Option-cases (ports.append total part)) [
          | inl taken ↦
              rw (small, taken, append_chunks)
                (
                  tt,
                  append_chunks-IsStreamed parts (total, before.1 ++ part) {after = after}
                      (rw (small, taken, append_chunks) at e),
                )
          | inr (error, refused) ↦ absurd (ground arith)
        ]
      ]

  stream_content-IsStreamed :
      (arrivals : List Arrival) (before : Received) {after : Received}
      → (stream_content ports declared arrivals before).0 ≡ ok after
      → All IsStreamed (stream_content ports declared arrivals before).1
  unfolding stream_content heartbeat abort_with
  stream_content-IsStreamed [] before e = tt
  stream_content-IsStreamed (tick none ∷ arrivals) before e = absurd (ground arith)
  stream_content-IsStreamed (tick (some false) ∷ arrivals) before e = absurd (ground arith)
  stream_content-IsStreamed (tick (some true) ∷ arrivals) before {after} e =
      (tt, stream_content-IsStreamed arrivals before {after = after} e)
  stream_content-IsStreamed (interrupted ∷ arrivals) before e = absurd (ground arith)
  stream_content-IsStreamed (chunk_of bytes ∷ arrivals) before {after} e =
      let parts = chunks max_append_bytes bytes in
      let (mid, first, rest, calls) =
        >>=-logged-ok (append_chunks ports declared parts before)
          (stream_content ports declared arrivals) {value = after} e in
      rw calls (
        All-append IsStreamed _ _ (append_chunks-IsStreamed parts before {after = mid} first)
          (stream_content-IsStreamed arrivals mid {after = after} rest))

module _ (ports : Ports) (arrivals : List Arrival) (current : Session) where
  promoted_as-ok :
      (count : ℕ) (candidate : Text) (answer : Promotion)
      → (promoted_as ports count candidate answer).0 ≡ ok tt
      → ((promoted_as ports count candidate answer).1 ≡ records_disposition ∷ [])
        × (answer ≡ promoted candidate)
  unfolding promoted_as abort_storage
  promoted_as-ok count candidate (not_promoted error) e = cc
  promoted_as-ok count candidate (promoted key) e = elim (Bool-cases (text_eq key candidate)) [
    | inr other ↦ absurd (cc (rw other at e))
    | inl same ↦ rw same (refl, ap promoted (text_eq-eq key candidate same))
  ]

  promote-ok :
      (received : Received)
      → (promote ports received).0 ≡ ok tt
      → ((promote ports received).1
          ≡ prepares received.0 received.1 ∷ promotes ∷ records_disposition ∷ [])
        × (ports.promote ≡ promoted (ports.candidate_key received.0 received.1))
  unfolding promote
  promote-ok received e =
      let candidate = ports.candidate_key received.0 received.1 in
      let storing = call promotes (ok tt) >> promoted_as ports received.0 candidate ports.promote in
      let (_, e, first) =
        >>-logged-ok
          (call (prepares received.0 received.1) (agreed state_conflict ports.prepare_promotion))
          storing {value = tt} e in
      let (calls, kept) = promoted_as-ok received.0 candidate ports.promote e in
      (first ∙ ap (λ t. prepares received.0 received.1 ∷ promotes ∷ t) calls, kept)

  closing_ok :
      (received : Received) {session : Session}
      → (close_receipt ports received).0 ≡ ok session
      → ((close_receipt ports received).1 ≡ closing received.0 received.1)
        × (ports.promote ≡ promoted (ports.candidate_key received.0 received.1))
        × (ports.get_after ≡ ok session)
  unfolding close_receipt finalize
  closing_ok received {session} e =
      let marking = call (marks_received received.0) (agreed state_conflict ports.mark_received) in
      let ending = finalize ports received.0 >> (ports.get_after, []) in
      let (p, e, first) =
        >>-logged-ok (promote ports received) (marking >> ending) {value = session} e in
      let (_, e, second) = >>-logged-ok marking ending {value = session} e in
      let (_, e, third) =
        >>-logged-ok (finalize ports received.0) (ports.get_after, []) {value = session} e in
      let (calls, kept) = promote-ok received p in
      (
        first ∙ ap₂ (λ x y. x ++ y) calls (second ∙ ap (λ t. marks_received received.0 ∷ t) third),
        kept,
        e,
      )

  create_staging-calls :
      (create_staging ports).0 ≡ ok tt → (create_staging ports).1 ≡ creates_staging ∷ []
  unfolding create_staging abort_storage abort
  create_staging-calls e = ground arith

  -- A receipt that succeeds begins and stages; while it streams it only beats and appends, the bytes of
  -- the stream in their order; then it has the content prepared, promoted under the key that was
  -- prepared, recorded and marked, and finalizes the upload last, once, each with the number of the
  -- bytes of the stream, and the hash taken of these bytes.
  pub receive_content-finalized :
      {session : Session}
      → (receive_content ports arrivals current).0 ≡ ok session
      → (streamed : List Call) × All IsStreamed streamed
        × (appended streamed ≡ bytes_of arrivals)
        × (length (bytes_of arrivals) ≤ current.declared_bytes)
        × ((receive_content ports arrivals current).1
            ≡ begins_receipt
              ∷ creates_staging
              ∷ (streamed ++ closing (length (bytes_of arrivals)) (bytes_of arrivals)))
        × (ports.promote
            ≡ promoted (ports.candidate_key (length (bytes_of arrivals)) (bytes_of arrivals)))
  unfolding receive_content
  receive_content-finalized {session} e =
      let streaming = stream_content ports current.declared_bytes arrivals (0, []) in
      let opening =
        call begins_receipt (agreed state_conflict (ports.begin_receipt current.state)) in
      let tail = streaming >>= close_receipt ports in
      let (begun, e, first) =
        >>-logged-ok opening (create_staging ports >> tail) {value = session} e in
      let (staged, e, second) = >>-logged-ok (create_staging ports) tail {value = session} e in
      let (content, streamed, closed, third) =
        >>=-logged-ok streaming (close_receipt ports) {value = session} e in
      let (counted, same, stored, small) =
        stream_content-stored ports current.declared_bytes arrivals {after = content} streamed in
      let (calls, kept, _) = closing_ok content {session = session} closed in
      (
        streaming.1,
        stream_content-IsStreamed ports current.declared_bytes arrivals (0, []) {after = content}
            streamed,
        stored,
        rw counted at small,
        first
            ∙ ap (λ t. begins_receipt ∷ t)
                (second
                  ∙ ap₂ (λ x y. x ++ y) (create_staging-calls staged)
                      (third
                        ∙ ap (λ t. streaming.1 ++ t)
                            (calls ∙ ap₂ (λ n t. closing n t) counted same))),
        kept ∙ ap₂ (λ n t. promoted (ports.candidate_key n t)) counted same,
      )
