-- ===== src/Download/Stream.antt =====
-- The body of a download: `streaming_body` of crates/http/src/routes/download.rs, an unfolding that
-- reads the blob in chunks. The store is code that is injected: `read n offset length` is the answer
-- to the n-th call of `BlobStore::read_range`, `none` for an error.
pub mod Laws
use mathlib.Core.Option
use folioharbor.Prelude.{
  Bool, List, Option, [], if◌then◌else◌, is_empty, leb, length, none, not, some, suc, zero, ℕ, ◌&&◌,
  ◌*◌, ◌+◌, ◌-◌, ◌==◌, ◌∷◌,
}

abbrev pub stream_chunk_bytes : ℕ
stream_chunk_bytes = 64 * 1024

pub data Item : Type 0 where
  chunk : List ℕ → Item
  truncated failed : Item

abbrev pub Reader : Type 0
Reader = ℕ → ℕ → ℕ → Option (List ℕ)

abbrev pub next_length : ℕ → ℕ
next_length remaining = if leb remaining stream_chunk_bytes then remaining else stream_chunk_bytes

abbrev pub is_good : List ℕ → ℕ → Bool
is_good bytes length' = not (is_empty bytes) && leb (length bytes) length'

-- An error ends the stream, since nothing remains after it. `none` where the fuel runs out.
unfoldable pub unfold_body : Reader → ℕ → ℕ → ℕ → ℕ → Option (List Item)
unfold_body read zero calls offset remaining = none
unfold_body read (suc fuel) calls offset remaining =
    if remaining == 0 then some [] else elim (read calls offset (next_length remaining)) [
      | none ↦ some (failed ∷ [])
      | some bytes ↦
          let rest =
            unfold_body read fuel (calls + 1) (offset + length bytes) (remaining - length bytes) in
          if is_good bytes (next_length remaining)
          then Option.map (λ items. chunk bytes ∷ items) rest
          else some (truncated ∷ [])
    ]

unfoldable pub streaming_body : Reader → ℕ → ℕ → Option (List Item)
unfolding unfold_body
streaming_body read start remaining = unfold_body read (suc remaining) 0 start remaining
