-- ===== src/Imports/Retry/Laws.antt =====
-- How far the retries of a job are apart.
use folioharbor.Prelude.{arith, pow_grows, pow_le, pow_pos, ℕ, ◌*◌, ◌+◌, ◌<◌, ◌^◌, ◌≡◌, ◌≤◌}
use folioharbor.Imports.Retry.{RetrySchedule, delay, min, next}

delay_range :
    (byte attempt : ℕ)
    → byte < 256
    → (2 ^ min attempt 8 * 1000 ≤ delay byte attempt)
      × (delay byte attempt < 2 ^ min attempt 8 * 1000 + 1000)
unfolding delay
delay_range byte attempt h = (omega arith, omega (arith, h))

min_le : (m n : ℕ) → (min m n ≤ m) × (min m n ≤ n)
min_le m n = ground arith

-- A retry is never earlier than one second from now, unless the schedule's maximum is shorter, nor
-- later than that maximum, and with any schedule it is within 257 seconds: the fifteen minutes of
-- the default schedule are never reached.
pub next-within :
    (schedule : RetrySchedule) (now byte attempt : ℕ)
    → byte < 256
    → (now + min 1000 schedule.maximum ≤ next schedule now byte attempt)
      × (next schedule now byte attempt ≤ now + schedule.maximum)
      × (next schedule now byte attempt < now + 257 * 1000)
unfolding next
next-within schedule now byte attempt h =
    let (least, most) = delay_range byte attempt h in
    let pos = pow_pos (min attempt 8) in
    let top = pow_le (min attempt 8) 8 (min_le attempt 8).1 in
    let low : 1000 ≤ delay byte attempt = omega (arith, pos, least) in
    let high : delay byte attempt < 257 * 1000 = omega (arith, top, most) in
    (ground (arith, low), ground arith, ground (arith, high))

-- Up to the eighth attempt each retry waits longer than those before it, whatever their jitter, if
-- the schedule's maximum is at least 257 seconds.
pub next-later :
    (schedule : RetrySchedule) (now first second byte byte' : ℕ)
    → first < second
    → second ≤ 8
    → byte < 256
    → byte' < 256
    → 257 * 1000 ≤ schedule.maximum
    → next schedule now byte first < next schedule now byte' second
unfolding next
next-later schedule now first second byte byte' before few h h' long =
    let (least, most) = delay_range byte first h in
    let (least', most') = delay_range byte' second h' in
    let top = pow_le second 8 few in
    let grows = pow_grows first second before in
    let first_min : min first 8 ≡ first = ground arith in
    let second_min : min second 8 ≡ second = ground arith in
    let most = rw first_min at most in
    let least' = rw second_min at least' in
    let most' = rw second_min at most' in
    let earlier : delay byte first < delay byte' second = omega (arith, grows, most, least') in
    let small : delay byte' second < 257 * 1000 = omega (arith, top, most') in
    ground (arith, earlier, small)
