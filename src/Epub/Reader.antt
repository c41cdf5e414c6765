-- ===== src/Epub/Reader.antt =====
-- The loop that the XML readers of crates/epub/src share: the limits are checked before each event,
-- up to the end of the file. `depth_of` is the depth that a reader's state keeps, and `on_event`
-- what it does with an event, at the time when it has entered the element.
use folioharbor.Prelude.{List, [], arith, ℕ, ◌∷◌, ◌≡◌}
use folioharbor.Prelude.Result.{>>-eq-ok, >>=-eq-ok, ok, ◌>>=◌, ◌>>◌}
use folioharbor.Epub.Error.{Checked}
use folioharbor.Epub.Archive.{BoundedArchive, check_processing}
use folioharbor.Epub.Xml.{Event, Reading}

-- What the XML library makes of the bytes of a document: its events, and the time at their end.
pub record Document : Type 0 where
  pub readings : List Reading
  pub last : ℕ

module _ {S : Type 0} (depth_of : S → ℕ) (on_event : ℕ → Event → S → Checked S) where
  unfoldable pub read_events : BoundedArchive → List Reading → ℕ → S → Checked S
  read_events archive [] last s = check_processing archive last (depth_of s) >> ok s
  read_events archive (r ∷ readings) last s =
      check_processing archive r.elapsed (depth_of s)
      >> (on_event r.elapsed_inside r.event s >>= λ s'. read_events archive readings last s')

  -- What holds of the first state, and is kept by every event, holds of the last one.
  pub read_events-keeps :
      (P : S → Type 0) (archive : BoundedArchive) (readings : List Reading) (last : ℕ) (s : S)
      {s' : S}
      → ((elapsed : ℕ) (event : Event) (before after : S)
          → P before
          → on_event elapsed event before ≡ ok after
          → P after)
      → P s
      → read_events archive readings last s ≡ ok s'
      → P s'
  unfolding read_events
  read_events-keeps P archive [] last s {s'} step h e =
      let (fine, e) = >>-eq-ok (check_processing archive last (depth_of s)) _ e in
      let same : s ≡ s' = ground arith in rw (← same) h
  read_events-keeps P archive (r ∷ readings) last s {s'} step h e =
      let (fine, e) = >>-eq-ok (check_processing archive r.elapsed (depth_of s)) _ e in
      let (next, stepped, e) = >>=-eq-ok (on_event r.elapsed_inside r.event s) _ e in
      read_events-keeps P archive readings last next {s' = s'} step
        (step r.elapsed_inside r.event s next h stepped) e
