-- ===== src/Maintenance/Cleanup/Laws.antt =====
-- The loops of a cleanup end, and a pass is closed only when nothing is left of it.
use folioharbor.Prelude.{
  Bool-cases, Option, Option-cases, [], arith, false, inl, inr, ltb, none, refl, some, suc, zero, ℕ,
  ◌+◌, ◌<◌, ◌∷◌, ◌≡◌, ◌≢◌, ◌≤◌,
}
use folioharbor.Prelude.Result.{ok, err}
use folioharbor.Maintenance.Calls.{after, call}
use folioharbor.Maintenance.Cleanup.{Ports, Run, cleanup_failed, expire_all, expires}

-- The number that a round expires; none where the repository fails.
abbrev pub count_of : Option ℕ → ℕ
count_of none = 0
count_of (some count) = count

module _ (ports : Ports) where
  -- What the rounds before the given one have expired together.
  abbrev pub expired_before : ℕ → ℕ
  expired_before zero = 0
  expired_before (suc round) = expired_before round + count_of (ports.expire_abandoned round)

  expire_all-onward :
      (limit fuel round expired : ℕ) {count : ℕ} {r : Run ℕ}
      → ports.expire_abandoned round ≡ some count
      → ltb count limit ≡ false
      → expire_all ports limit fuel (suc round) (expired + count) ≡ some r
      → expire_all ports limit (suc fuel) round expired ≡ some (after (expires round ∷ []) r)
  unfolding expire_all
  expire_all-onward limit fuel round expired answered long e =
      rw (answered, long, e, expire_all) refl

  expire_all-some :
      (limit total fuel round expired : ℕ)
      → limit ≢ 0
      → ((n : ℕ) → expired_before n ≤ total)
      → total < fuel + round
      → round ≤ expired_before round
      → (r : Run ℕ) × (expire_all ports limit fuel round expired ≡ some r)
  unfolding expire_all
  expire_all-some limit total zero round expired positive bounded enough full =
      absurd (omega (arith, bounded round))
  expire_all-some limit total (suc fuel) round expired positive bounded enough full =
      elim (Option-cases (ports.expire_abandoned round)) [
        | inl failed ↦ (call (expires round) (err cleanup_failed), rw (failed, expire_all) refl)
        | inr (count, answered) ↦ elim (Bool-cases (ltb count limit)) [
          | inl short ↦
              (call (expires round) (ok (expired + count)), rw (answered, short, expire_all) refl)
          | inr long ↦
              let counted : count_of (ports.expire_abandoned round) ≡ count = rw answered refl in
              let more : suc round ≤ expired_before (suc round) = ground arith in
              let (r, e) =
                expire_all-some limit total fuel (suc round) (expired + count) positive bounded
                  (omega arith) more in
              (
                after (expires round ∷ []) r,
                expire_all-onward limit fuel round expired answered long e,
              )
        ]
      ]

  -- The loop that expires uploads ends, also where the repository fails, after at most one round more
  -- than there are uploads to expire, if its limit is not zero.
  pub expire_all-ends :
      (limit total : ℕ)
      → limit ≢ 0
      → ((n : ℕ) → expired_before n ≤ total)
      → (r : Run ℕ) × (expire_all ports limit (suc total) 0 0 ≡ some r)
  expire_all-ends limit total positive bounded =
      expire_all-some limit total (suc total) 0 0 positive bounded (omega arith) (omega arith)
