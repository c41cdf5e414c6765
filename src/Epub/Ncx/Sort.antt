-- ===== src/Epub/Ncx/Sort.antt =====
-- The sort at the end of the NCX reader, `sort_by_key` in `NcxState::finish` of
-- crates/epub/src/ncx.rs: distinct keys below their number come out as 0, 1, 2 and so on.
use folioharbor.Prelude.{
  All, Bool-cases, List, [], ap, ap₂, arith, false, inl, inr, is_empty, leb, length, map, refl, suc,
  zero, ℕ, ◌+◌, ◌<◌, ◌↔◌, ◌∙◌, ◌∷◌, ◌≡◌, ◌≢◌, ◌≤◌,
}
use folioharbor.Epub.Ncx.State.{TocEntry}
use folioharbor.Epub.Ncx.Run.{insert, sort}
use folioharbor.Epub.Ncx.Invariant.{Distinct, entry_orders}

-- Rising, from `k` on.
abbrev pub Ascending : ℕ → List ℕ → Type 0
Ascending k [] = Unit
Ascending k (x ∷ xs) = (k ≤ x) × Ascending (suc x) xs

abbrev pub count_up : ℕ → ℕ → List ℕ
count_up k zero = []
count_up k (suc m) = k ∷ count_up (suc k) m

Ascending-le : (j k : ℕ) (xs : List ℕ) → j ≤ k → Ascending k xs → Ascending j xs
Ascending-le j k [] h a = tt
Ascending-le j k (x ∷ xs) h (b, a) = (omega arith, a)

insert-Ascending :
    (k o : ℕ) (entry : TocEntry) (toc : List (ℕ × TocEntry))
    → k ≤ o
    → All (λ x. o ≢ x) (entry_orders toc)
    → Ascending k (entry_orders toc)
    → Ascending k (entry_orders (insert (o, entry) toc))
unfolding insert
insert-Ascending k o entry [] h d a = (h, tt)
insert-Ascending k o entry ((x, e) ∷ toc) h d a = elim (Bool-cases (leb o x)) [
  | inl before ↦ rw before (h, (ground arith, a.1))
  | inr after ↦ rw after (a.0, insert-Ascending (suc x) o entry toc (ground arith) d.1 a.1)
]

module _ {ℓ} (P : ℕ × TocEntry → Type ℓ) where
  insert-All :
      (x : ℕ × TocEntry) (toc : List (ℕ × TocEntry)) → P x → All P toc → All P (insert x toc)
  unfolding insert
  insert-All (o, entry) [] p h = (p, tt)
  insert-All (o, entry) ((x, e) ∷ toc) p h = elim (Bool-cases (leb o x)) [
    | inl before ↦ rw before (p, h)
    | inr after ↦ rw after (h.0, insert-All (o, entry) toc p h.1)
  ]

  pub sort-All : (toc : List (ℕ × TocEntry)) → All P toc → All P (sort toc)
  unfolding sort
  sort-All [] h = tt
  sort-All (x ∷ toc) (p, h) = insert-All x (sort toc) p (sort-All toc h)

length-insert :
    (x : ℕ × TocEntry) (toc : List (ℕ × TocEntry)) → length (insert x toc) ≡ suc (length toc)
unfolding insert
length-insert (o, entry) [] = refl
length-insert (o, entry) ((x, e) ∷ toc) = ground (arith, length-insert (o, entry) toc)

pub insert_full :
    (x : ℕ × TocEntry) (toc : List (ℕ × TocEntry))
    → is_empty (map (λ p. p.1) (insert x toc)) ≡ false
unfolding insert
insert_full (o, entry) [] = refl
insert_full (o, entry) ((x, e) ∷ toc) = ground arith

pub length-sort : (toc : List (ℕ × TocEntry)) → length (sort toc) ≡ length toc
unfolding sort
length-sort [] = refl
length-sort (x ∷ toc) = length-insert x (sort toc) ∙ ap suc (length-sort toc)

All-orders :
    (Q : ℕ → Type 0) (toc : List (ℕ × TocEntry)) → All Q (entry_orders toc) ↔ All (λ p. Q p.0) toc
All-orders Q [] = (λ h. h, λ h. h)
All-orders Q (x ∷ toc) =
    (λ h. (h.0, (All-orders Q toc).0 h.1), λ h. (h.0, (All-orders Q toc).1 h.1))

All-orders-sort :
    (Q : ℕ → Type 0) (toc : List (ℕ × TocEntry))
    → All Q (entry_orders toc)
    → All Q (entry_orders (sort toc))
All-orders-sort Q toc h =
    (All-orders Q (sort toc)).1 (sort-All (λ p. Q p.0) toc ((All-orders Q toc).0 h))

sort-Ascending :
    (toc : List (ℕ × TocEntry))
    → Distinct (entry_orders toc)
    → Ascending 0 (entry_orders (sort toc))
unfolding sort
sort-Ascending [] d = tt
sort-Ascending ((o, entry) ∷ toc) (n, d) =
    insert-Ascending 0 o entry (sort toc) (omega arith) (All-orders-sort (λ x. o ≢ x) toc n)
      (sort-Ascending toc d)

Ascending-length :
    (k n : ℕ) (xs : List ℕ) → k ≤ n → Ascending k xs → All (λ x. x < n) xs → length xs + k ≤ n
Ascending-length k n [] h a b = omega arith
Ascending-length k n (x ∷ xs) h a b =
    omega (arith, Ascending-length (suc x) n xs (omega arith) a.1 b.1)

Ascending-count_up :
    (k n : ℕ) (xs : List ℕ)
    → Ascending k xs
    → All (λ x. x < n) xs
    → length xs + k ≡ n
    → xs ≡ count_up k (length xs)
Ascending-count_up k n [] a b e = refl
Ascending-count_up k n (x ∷ xs) a b e =
    let same : x ≡ k = omega (arith, Ascending-length (suc x) n xs (omega arith) a.1 b.1) in
    let rest = Ascending-count_up (suc x) n xs a.1 b.1 (omega arith) in
    ap₂ (λ y ys. y ∷ ys) same (rest ∙ ap (λ y. count_up (suc y) (length xs)) same)

length-orders : (toc : List (ℕ × TocEntry)) → length (entry_orders toc) ≡ length toc
length-orders [] = refl
length-orders (x ∷ toc) = ap suc (length-orders toc)

pub sort-count_up :
    (n : ℕ) (toc : List (ℕ × TocEntry))
    → Distinct (entry_orders toc)
    → All (λ o. o < n) (entry_orders toc)
    → length toc ≡ n
    → entry_orders (sort toc) ≡ count_up 0 n
sort-count_up n toc d b e =
    let total : length (entry_orders (sort toc)) ≡ n =
      length-orders (sort toc) ∙ length-sort toc ∙ e in
    Ascending-count_up 0 n (entry_orders (sort toc)) (sort-Ascending toc d)
      (All-orders-sort (λ o. o < n) toc b) (omega (arith, total))
    ∙ ap (count_up 0) total
