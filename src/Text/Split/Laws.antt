-- ===== src/Text/Split/Laws.antt =====
-- Laws of `split` and `join`: they are inverse where no part holds the separator.
use folioharbor.Prelude.{
  ℕ, ◌≡◌, refl, ap, true, false, Bool, List, [], ◌∷◌, ◌++◌, arith, ◌==◌, inl, inr, Bool-cases, All,
  all, all-append, is_empty,
}
use folioharbor.Text.Chars.{Text, contains}
use folioharbor.Text.Split.{push_head, split, join}

module _ (sep : ℕ) where
  abbrev pub IsOnePart : Text → Type 0
  IsOnePart part = contains sep part ≡ false

  push_head-IsOnePart :
      (c : ℕ) (ps : List Text)
      → (c == sep) ≡ false
      → All IsOnePart ps
      → All IsOnePart (push_head c ps)
  push_head-IsOnePart c [] h k = ground arith
  push_head-IsOnePart c (p ∷ ps) h k = ground arith

  pub split-IsOnePart : (s : Text) → All IsOnePart (split sep s)
  unfolding split
  split-IsOnePart [] = (refl, tt)
  split-IsOnePart (c ∷ s) = elim (Bool-cases (c == sep)) [
    | inl e ↦ rw e (refl, split-IsOnePart s)
    | inr e ↦ rw e (push_head-IsOnePart c (split sep s) e (split-IsOnePart s))
  ]

  push_head-all :
      (f : ℕ → Bool) (c : ℕ) (ps : List Text)
      → f c ≡ true
      → All (λ p. all f p ≡ true) ps
      → All (λ p. all f p ≡ true) (push_head c ps)
  push_head-all f c [] h k = ground arith
  push_head-all f c (p ∷ ps) h k = ground arith

  -- What holds of every character holds in every part.
  pub split-all :
      (f : ℕ → Bool) (s : Text) → all f s ≡ true → All (λ p. all f p ≡ true) (split sep s)
  unfolding split
  split-all f [] h = (refl, tt)
  split-all f (c ∷ s) h = elim (Bool-cases (c == sep)) [
    | inl e ↦ rw e (refl, split-all f s (ground arith))
    | inr e ↦ rw e (push_head-all f c (split sep s) (ground arith) (split-all f s (ground arith)))
  ]

  pub split_of_IsOnePart : (p : Text) → IsOnePart p → split sep p ≡ p ∷ []
  unfolding split
  split_of_IsOnePart [] h = refl
  split_of_IsOnePart (c ∷ p) h = ground (arith, split_of_IsOnePart p)

  split-append : (p s : Text) → IsOnePart p → split sep (p ++ (sep ∷ s)) ≡ p ∷ split sep s
  unfolding split
  split-append [] s h = ground arith
  split-append (c ∷ p) s h = ground (arith, split-append p s)

  -- Splitting a joined list gives its parts back.
  pub split-join :
      (p : Text) (ps : List Text) → All IsOnePart (p ∷ ps) → split sep (join sep (p ∷ ps)) ≡ p ∷ ps
  unfolding join
  split-join p [] h = split_of_IsOnePart p h.0
  split-join p (q ∷ ps) (h, k) =
      rw (split-append p (join sep (q ∷ ps)) h) (ap (λ t. p ∷ t) (split-join q ps k))

  pub join-all :
      (f : ℕ → Bool) (ps : List Text)
      → f sep ≡ true
      → All (λ p. all f p ≡ true) ps
      → all f (join sep ps) ≡ true
  unfolding join
  join-all f [] h k = refl
  join-all f (p ∷ []) h k = k.0
  join-all f (p ∷ q ∷ ps) h k =
      ground (arith, all-append f p (sep ∷ join sep (q ∷ ps)), join-all f (q ∷ ps))

  pub is_empty-join :
      (p : Text) (ps : List Text) → is_empty p ≡ false → is_empty (join sep (p ∷ ps)) ≡ false
  unfolding join
  is_empty-join p [] h = h
  is_empty-join [] (q ∷ ps) h = cc
  is_empty-join (c ∷ p) (q ∷ ps) h = refl

  join-push_head :
      (c : ℕ) (p : Text) (ps : List Text) → join sep (push_head c (p ∷ ps)) ≡ c ∷ join sep (p ∷ ps)
  unfolding join
  join-push_head c p [] = refl
  join-push_head c p (q ∷ ps) = refl

  pub split-cons : (s : Text) → (p : Text) × (ps : List Text) × (split sep s ≡ p ∷ ps)
  unfolding split
  split-cons [] = ([], [], refl)
  split-cons (c ∷ s) =
      let (p, ps, e) = split-cons s in
      elim (Bool-cases (c == sep)) [
        | inl h ↦ ([], p ∷ ps, rw (h, e))
        | inr h ↦ (c ∷ p, ps, rw (h, e))
      ]

  -- Joining the parts gives the text back.
  pub join-split : (s : Text) → join sep (split sep s) ≡ s
  unfolding split join
  join-split [] = refl
  join-split (c ∷ s) =
      let (p, ps, e) = split-cons s in
      elim (Bool-cases (c == sep)) [
        | inl h ↦ rw (h, e) (ground (arith, join-split s, e))
        | inr h ↦ rw (h, e, join-push_head c p ps, ← e, join-split s) refl
      ]
