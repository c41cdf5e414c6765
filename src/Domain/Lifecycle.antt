-- ===== src/Domain/Lifecycle.antt =====
-- The life of a catalog item: crates/domain/src/catalog/lifecycle.rs. An instant is the number of
-- nanoseconds since the earliest one, and a duration, which has a sign, is a number of them forward or
-- back; no sum goes back behind the earliest instant, which the time library refuses.
pub mod Laws
use folioharbor.Prelude.{
  Bool, Option, false, if◌then◌else◌, leb, ltb, none, some, true, ℕ, ◌+◌, ◌-◌,
}

pub data ItemLifecycle : Type 0 where
  active : ItemLifecycle
  deleted : ℕ → ℕ → ItemLifecycle
  purge_eligible : ℕ → ℕ → ItemLifecycle
  purged : ℕ → ℕ → ℕ → ItemLifecycle

pub data Duration : Type 0 where
  forward backward : ℕ → Duration

-- The sum of an instant and a duration.
abbrev pub plus : ℕ → Duration → ℕ
plus now (forward nanoseconds) = now + nanoseconds
plus now (backward nanoseconds) = now - nanoseconds

unfoldable pub is_accessible : ItemLifecycle → Bool
is_accessible active = true
is_accessible _ = false

unfoldable pub delete : ItemLifecycle → ℕ → Duration → ItemLifecycle
delete active now recovery_period = deleted now (plus now recovery_period)
delete state now recovery_period = state

unfoldable pub restore : ItemLifecycle → ℕ → Option ItemLifecycle
restore active now = some active
restore (deleted deleted_at purge_eligible_at) now =
    if ltb now purge_eligible_at then some active else none
restore _ now = none

unfoldable pub advance : ItemLifecycle → ℕ → ItemLifecycle
advance (deleted deleted_at purge_eligible_at) now =
    if leb purge_eligible_at now
    then purge_eligible deleted_at purge_eligible_at
    else deleted deleted_at purge_eligible_at
advance state now = state

unfoldable pub purge : ItemLifecycle → ℕ → Option ItemLifecycle
purge (purge_eligible deleted_at purge_eligible_at) now =
    some (purged deleted_at purge_eligible_at now)
purge (purged deleted_at purge_eligible_at purged_at) now =
    some (purged deleted_at purge_eligible_at purged_at)
purge _ now = none

unfoldable pub blob_purge_after : ItemLifecycle → Duration → Option ℕ
blob_purge_after (purged deleted_at purge_eligible_at purged_at) gc_delay =
    some (plus purged_at gc_delay)
blob_purge_after _ gc_delay = none
