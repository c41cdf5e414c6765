-- ===== src/Domain/Lifecycle/Laws.antt =====
-- What holds of an item over its whole life, whatever the clock shows.
use folioharbor.Prelude.{
  Bool-cases, List, Option, [], arith, false, inl, inr, leb, leb→le, ltb, none, refl, some, ℕ, ◌++◌,
  ◌<◌, ◌↔◌, ◌∷◌, ◌≡◌, ◌≤◌, ◌⊎◌,
}
use folioharbor.Domain.Lifecycle.{
  Duration, ItemLifecycle, active, advance, blob_purge_after, delete, deleted, is_accessible, plus,
  purge, purge_eligible, purged, restore,
}

-- The four operations; one that gives `none` leaves the item as it was.
pub data Op : Type 0 where
  deletes : Duration → Op
  restores advances purges : Op

abbrev pub or_same : ItemLifecycle → Option ItemLifecycle → ItemLifecycle
or_same state none = state
or_same state (some next) = next

unfoldable pub apply : ItemLifecycle → ℕ → Op → ItemLifecycle
unfolding delete restore advance purge
apply state now (deletes recovery_period) = delete state now recovery_period
apply state now restores = or_same state (restore state now)
apply state now advances = advance state now
apply state now purges = or_same state (purge state now)

-- A new item after some operations, each with the instant that the clock shows then; the latest
-- operation stands first. The clock may go back.
unfoldable pub history : List (ℕ × Op) → ItemLifecycle
unfolding apply
history [] = active
history ((now, op) ∷ earlier) = apply (history earlier) now op

-- Some operation, with those before it.
abbrev pub Any : (ℕ × Op → List (ℕ × Op) → Type 0) → List (ℕ × Op) → Type 0
Any P [] = ⊥
Any P (op ∷ earlier) = P op earlier ⊎ Any P earlier

-- The item was deleted at `d`, with a recovery period that ends at `e`.
abbrev pub WasDeleted : ℕ → ℕ → List (ℕ × Op) → Type 0
WasDeleted d e ops =
    Any (λ op earlier. (period : Duration) × (op ≡ (d, deletes period)) × (e ≡ plus d period)) ops

-- After that deletion it was opened to purging, at an instant not before `e`.
abbrev pub WasAdvanced : ℕ → ℕ → List (ℕ × Op) → Type 0
WasAdvanced d e ops =
    Any (λ op earlier. (now : ℕ) × (op ≡ (now, advances)) × (e ≤ now) × WasDeleted d e earlier) ops

-- And after that it was purged, at `p`.
abbrev pub WasPurged : ℕ → ℕ → ℕ → List (ℕ × Op) → Type 0
WasPurged d e p ops = Any (λ op earlier. (op ≡ (p, purges)) × WasAdvanced d e earlier) ops

-- The operations that a state comes from.
abbrev pub IsMade : ItemLifecycle → List (ℕ × Op) → Type 0
IsMade active ops = Unit
IsMade (deleted d e) ops = WasDeleted d e ops
IsMade (purge_eligible d e) ops = WasAdvanced d e ops
IsMade (purged d e p) ops = WasPurged d e p ops

kept-IsMade :
    (state : ItemLifecycle) (op : ℕ × Op) (earlier : List (ℕ × Op))
    → IsMade state earlier
    → IsMade state (op ∷ earlier)
kept-IsMade active op earlier h = tt
kept-IsMade (deleted d e) op earlier h = inr h
kept-IsMade (purge_eligible d e) op earlier h = inr h
kept-IsMade (purged d e p) op earlier h = inr h

delete-IsMade :
    (state : ItemLifecycle) (now : ℕ) (period : Duration) (earlier : List (ℕ × Op))
    → IsMade state earlier
    → IsMade (delete state now period) ((now, deletes period) ∷ earlier)
unfolding delete
delete-IsMade active now period earlier h = inl (period, refl, refl)
delete-IsMade (deleted d e) now period earlier h = inr h
delete-IsMade (purge_eligible d e) now period earlier h = inr h
delete-IsMade (purged d e p) now period earlier h = inr h

restore-IsMade :
    (state : ItemLifecycle) (now : ℕ) (earlier : List (ℕ × Op))
    → IsMade state earlier
    → IsMade (or_same state (restore state now)) ((now, restores) ∷ earlier)
unfolding restore
restore-IsMade active now earlier h = tt
restore-IsMade (deleted d e) now earlier h = elim (Bool-cases (ltb now e)) [
  | inl within ↦ rw within tt
  | inr over ↦ rw over (inr h)
]
restore-IsMade (purge_eligible d e) now earlier h = inr h
restore-IsMade (purged d e p) now earlier h = inr h

advance-IsMade :
    (state : ItemLifecycle) (now : ℕ) (earlier : List (ℕ × Op))
    → IsMade state earlier
    → IsMade (advance state now) ((now, advances) ∷ earlier)
unfolding advance
advance-IsMade active now earlier h = tt
advance-IsMade (deleted d e) now earlier h = elim (Bool-cases (leb e now)) [
  | inl over ↦ rw over (inl (now, refl, leb→le e now over, h))
  | inr within ↦ rw within (inr h)
]
advance-IsMade (purge_eligible d e) now earlier h = inr h
advance-IsMade (purged d e p) now earlier h = inr h

purge-IsMade :
    (state : ItemLifecycle) (now : ℕ) (earlier : List (ℕ × Op))
    → IsMade state earlier
    → IsMade (or_same state (purge state now)) ((now, purges) ∷ earlier)
unfolding purge
purge-IsMade active now earlier h = tt
purge-IsMade (deleted d e) now earlier h = inr h
purge-IsMade (purge_eligible d e) now earlier h = inl (refl, h)
purge-IsMade (purged d e p) now earlier h = inr h

-- The state of a new item after any operations, at any instants, comes from these operations in their
-- order. An item is deleted with an end of its recovery period only where a deletion gave it that end,
-- its instant and its period added; open to purging only where, after such a deletion, it was advanced
-- at an instant not before that end; and purged only where it was purged after that.
pub history-IsMade : (ops : List (ℕ × Op)) → IsMade (history ops) ops
unfolding history apply
history-IsMade [] = tt
history-IsMade ((now, deletes period) ∷ earlier) =
    delete-IsMade (history earlier) now period earlier (history-IsMade earlier)
history-IsMade ((now, restores) ∷ earlier) =
    restore-IsMade (history earlier) now earlier (history-IsMade earlier)
history-IsMade ((now, advances) ∷ earlier) =
    advance-IsMade (history earlier) now earlier (history-IsMade earlier)
history-IsMade ((now, purges) ∷ earlier) =
    purge-IsMade (history earlier) now earlier (history-IsMade earlier)

-- A deleted item can be restored exactly at the instants before the end of its recovery period,
-- which begins at its deletion.
pub delete-restore_iff :
    (now : ℕ) (recovery : Duration) (later : ℕ)
    → (restore (delete active now recovery) later ≡ some active) ↔ (later < plus now recovery)
unfolding delete restore
delete-restore_iff now recovery later = ground arith

-- Open to purging, or purged.
abbrev pub IsLost : ItemLifecycle → Type 0
IsLost active = ⊥
IsLost (deleted d e) = ⊥
IsLost (purge_eligible d e) = Unit
IsLost (purged d e p) = Unit

apply-IsLost :
    (state : ItemLifecycle) (now : ℕ) (op : Op) → IsLost state → IsLost (apply state now op)
unfolding apply
apply-IsLost active now op h = absurd h
apply-IsLost (deleted d e) now op h = absurd h
apply-IsLost (purge_eligible d e) now op h = ground arith
apply-IsLost (purged d e p) now op h = ground arith

history-IsLost :
    (later earlier : List (ℕ × Op)) → IsLost (history earlier) → IsLost (history (later ++ earlier))
unfolding history
history-IsLost [] earlier h = h
history-IsLost ((now, op) ∷ later) earlier h =
    apply-IsLost (history (later ++ earlier)) now op (history-IsLost later earlier h)

IsLost-not-accessible : (state : ItemLifecycle) → IsLost state → is_accessible state ≡ false
unfolding is_accessible
IsLost-not-accessible active h = absurd h
IsLost-not-accessible (deleted d e) h = absurd h
IsLost-not-accessible (purge_eligible d e) h = refl
IsLost-not-accessible (purged d e p) h = refl

-- An item that is open to purging is never accessible again, whatever operations follow.
pub lost_for_good :
    (later earlier : List (ℕ × Op))
    → IsLost (history earlier)
    → is_accessible (history (later ++ earlier)) ≡ false
lost_for_good later earlier h =
    IsLost-not-accessible (history (later ++ earlier)) (history-IsLost later earlier h)

purged_of :
    (ops : List (ℕ × Op)) (gc_delay : Duration) {collect_at : ℕ} (state : ItemLifecycle)
    → IsMade state ops
    → blob_purge_after state gc_delay ≡ some collect_at
    → (d : ℕ) × (e : ℕ) × (p : ℕ) × WasPurged d e p ops × (collect_at ≡ plus p gc_delay)
unfolding blob_purge_after
purged_of ops gc_delay active h due = cc
purged_of ops gc_delay (deleted d e) h due = cc
purged_of ops gc_delay (purge_eligible d e) h due = cc
purged_of ops gc_delay (purged d e p) h due = (d, e, p, h, ground arith)

-- A blob that a history gives free for collection is of an item that was purged, and the delay is
-- counted from then.
pub blob_purge_after-purged :
    (ops : List (ℕ × Op)) (gc_delay : Duration) {collect_at : ℕ}
    → blob_purge_after (history ops) gc_delay ≡ some collect_at
    → (d : ℕ) × (e : ℕ) × (p : ℕ) × WasPurged d e p ops × (collect_at ≡ plus p gc_delay)
blob_purge_after-purged ops gc_delay due =
    purged_of ops gc_delay (history ops) (history-IsMade ops) due
