-- ===== src/Maintenance/Recovery/Laws.antt =====
-- Blobs are deleted before their cleanup completes, and a pass is bounded.
use folioharbor.Prelude.{
  Bool-cases, List, Option, Option-cases, [], arith, false, if◌then◌else◌, inl, inr, none, refl,
  some, suc, true, zero, ℕ, ◌++◌, ◌+◌, ◌∷◌, ◌≡◌, ◌≤◌,
}
use folioharbor.Prelude.Result.{Result-cases, ok, err}
use folioharbor.Text.Chars.{Text, text_eq_refl}
use folioharbor.Domain.Publication.{holds}
use folioharbor.Maintenance.Calls.{>>=-traced-ok, call, ◌>>=◌}
use folioharbor.Maintenance.Recovery.{
  Call, Ports, Run, UploadCleanup, abandons, claims, clean_claim, clean_final, completes,
  count_change, deletes, expires, finish, give_up, owned_key, reconcile, recover,
}

module _ (ports : Ports) where
  -- The blobs that are gone after some calls.
  abbrev pub gone : List Text → List Call → List Text
  gone deleted [] = deleted
  gone deleted (deletes key ∷ calls) =
      gone (if ports.delete key then key ∷ deleted else deleted) calls
  gone deleted (expires ∷ calls) = gone deleted calls
  gone deleted (claims ∷ calls) = gone deleted calls
  gone deleted (abandons _ ∷ calls) = gone deleted calls
  gone deleted (completes _ ∷ calls) = gone deleted calls

  -- The blob of a cleanup and the final one that it owns are gone.
  abbrev pub IsGone : List Text → Option Text → Type 0
  IsGone deleted none = Unit
  IsGone deleted (some key) = holds key deleted ≡ true

  abbrev pub IsCleaned : List Text → UploadCleanup → Type 0
  IsCleaned deleted cleanup =
      (holds cleanup.staging_key deleted ≡ true)
      × IsGone deleted (owned_key cleanup.final_owned cleanup.final_key)

  -- A cleanup completes only when its blobs are gone.
  abbrev pub IsOrdered : List Text → List Call → Type 0
  IsOrdered deleted [] = Unit
  IsOrdered deleted (deletes key ∷ calls) =
      IsOrdered (if ports.delete key then key ∷ deleted else deleted) calls
  IsOrdered deleted (completes cleanup ∷ calls) =
      IsCleaned deleted cleanup × IsOrdered deleted calls
  IsOrdered deleted (expires ∷ calls) = IsOrdered deleted calls
  IsOrdered deleted (claims ∷ calls) = IsOrdered deleted calls
  IsOrdered deleted (abandons _ ∷ calls) = IsOrdered deleted calls

  IsOrdered-append :
      (deleted : List Text) (calls more : List Call)
      → IsOrdered deleted calls
      → IsOrdered (gone deleted calls) more
      → IsOrdered deleted (calls ++ more)
  IsOrdered-append deleted [] more h k = k
  IsOrdered-append deleted (deletes key ∷ calls) more h k =
      IsOrdered-append (if ports.delete key then key ∷ deleted else deleted) calls more h k
  IsOrdered-append deleted (completes cleanup ∷ calls) more (p, h) k =
      (p, IsOrdered-append deleted calls more h k)
  IsOrdered-append deleted (expires ∷ calls) more h k = IsOrdered-append deleted calls more h k
  IsOrdered-append deleted (claims ∷ calls) more h k = IsOrdered-append deleted calls more h k
  IsOrdered-append deleted (abandons _ ∷ calls) more h k = IsOrdered-append deleted calls more h k

  bind-IsOrdered {ℓ} :
      {A : Type ℓ} (deleted : List Text) (first : Run A) (rest : A → Run ℕ)
      → IsOrdered deleted first.1
      → ((a : A) → IsOrdered (gone deleted first.1) (rest a).1)
      → IsOrdered deleted (first >>= rest).1
  bind-IsOrdered deleted (err error, calls) rest h k = h
  bind-IsOrdered deleted (ok value, calls) rest h k =
      IsOrdered-append deleted calls (rest value).1 h (k value)

  removed-IsOrdered :
      (key : Text) (deleted : List Text) (calls : List Call)
      → ports.delete key ≡ true
      → IsOrdered (key ∷ deleted) calls
      → IsOrdered deleted (deletes key ∷ calls)
  removed-IsOrdered key deleted calls removed h =
      let same : (if ports.delete key then key ∷ deleted else deleted) ≡ key ∷ deleted =
        ground arith in
      rw same h

  kept-IsOrdered :
      (key : Text) (deleted : List Text) (calls : List Call)
      → ports.delete key ≡ false
      → IsOrdered deleted calls
      → IsOrdered deleted (deletes key ∷ calls)
  kept-IsOrdered key deleted calls kept h =
      let same : (if ports.delete key then key ∷ deleted else deleted) ≡ deleted = ground arith in
      rw same h

  give_up-IsOrdered :
      (deleted : List Text) (cleanup : UploadCleanup) → IsOrdered deleted (give_up ports cleanup).1
  unfolding give_up
  give_up-IsOrdered deleted cleanup = elim (Result-cases (ports.abandon cleanup)) [
    | inl (done, e) ↦ rw e tt
    | inr (error, e) ↦ rw e tt
  ]

  clean_final-IsOrdered :
      (deleted : List Text) (cleanup : UploadCleanup) (key : Option Text)
      → owned_key cleanup.final_owned cleanup.final_key ≡ key
      → holds cleanup.staging_key deleted ≡ true
      → IsOrdered deleted (clean_final ports cleanup key).1
  unfolding clean_final holds
  clean_final-IsOrdered deleted cleanup none same h = ((h, rw same tt), tt)
  clean_final-IsOrdered deleted cleanup (some key) same h = elim (Bool-cases (ports.delete key)) [
    | inl removed ↦
        let still : holds cleanup.staging_key (key ∷ deleted) ≡ true = ground arith in
        let here : holds key (key ∷ deleted) ≡ true = ground (arith, text_eq_refl key) in
        rw removed (
          removed-IsOrdered key deleted (finish ports cleanup).1 removed
            ((still, rw same here), tt))
    | inr kept ↦ rw kept (
        kept-IsOrdered key deleted (give_up ports cleanup).1 kept
          (give_up-IsOrdered deleted cleanup))
  ]

  clean_claim-IsOrdered :
      (deleted : List Text) (cleanup : UploadCleanup)
      → IsOrdered deleted (clean_claim ports cleanup).1
  unfolding clean_claim holds
  clean_claim-IsOrdered deleted cleanup = elim (Bool-cases (ports.delete cleanup.staging_key)) [
    | inl removed ↦
        let staging = cleanup.staging_key in
        let here : holds staging (staging ∷ deleted) ≡ true =
          ground (arith, text_eq_refl staging) in
        rw removed (
          removed-IsOrdered staging deleted
            (clean_final ports cleanup (owned_key cleanup.final_owned cleanup.final_key)).1 removed
            (clean_final-IsOrdered (staging ∷ deleted) cleanup
              (owned_key cleanup.final_owned cleanup.final_key) refl here))
    | inr kept ↦ rw kept (
        kept-IsOrdered cleanup.staging_key deleted (give_up ports cleanup).1 kept
          (give_up-IsOrdered deleted cleanup))
  ]

  recover-IsOrdered :
      (rounds round completed : ℕ) (deleted : List Text)
      → IsOrdered deleted (recover ports rounds round completed).1
  unfolding recover
  recover-IsOrdered zero round completed deleted = tt
  recover-IsOrdered (suc rounds) round completed deleted =
      bind-IsOrdered deleted (call claims (ports.claim_cleanup round)) _ tt (λ claimed.
        elim (Option-cases claimed) [
          | inl idle ↦ rw idle tt
          | inr (cleanup, found) ↦ rw found (
              bind-IsOrdered deleted (clean_claim ports cleanup) _
                (clean_claim-IsOrdered deleted cleanup)
                (λ changed.
                  recover-IsOrdered rounds (round + 1) (count_change changed completed) _))
        ])

  -- Whatever the ports answer, and whether the pass succeeds or not, a cleanup completes only after
  -- the blob store has deleted its staging blob, and its final blob if it owns one.
  pub reconcile-IsOrdered : (limit : ℕ) → IsOrdered [] (reconcile ports limit).1
  unfolding reconcile
  reconcile-IsOrdered limit =
      bind-IsOrdered [] (call expires ports.expire_worker) _ tt
        (λ done. recover-IsOrdered limit 0 0 [])

  recover-within :
      (rounds round completed : ℕ) {n : ℕ}
      → (recover ports rounds round completed).0 ≡ ok n
      → n ≤ completed + rounds
  unfolding recover
  recover-within zero round completed {n} e = ground arith
  recover-within (suc rounds) round completed {n} e =
      let (claimed, c, e, _) = >>=-traced-ok (call claims (ports.claim_cleanup round)) _ e in
      elim (Option-cases claimed) [
        | inl idle ↦ let same : completed ≡ n = ground arith in omega arith
        | inr (cleanup, found) ↦
            let (changed, _, e, _) = >>=-traced-ok (clean_claim ports cleanup) _ (rw found at e) in
            let small : count_change changed completed ≤ completed + 1 = ground arith in
            let rest = recover-within rounds (round + 1) (count_change changed completed) e in
            omega arith
      ]

  -- A pass completes at most as many cleanups as its limit.
  pub reconcile-within : (limit : ℕ) {n : ℕ} → (reconcile ports limit).0 ≡ ok n → n ≤ limit
  unfolding reconcile
  reconcile-within limit {n} e =
      let (done, _, e, _) = >>=-traced-ok (call expires ports.expire_worker) _ e in
      let within = recover-within limit 0 0 e in omega arith
