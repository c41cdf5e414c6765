-- ===== src/Epub/Package/Fallback/Laws.antt =====
-- The search along the fallbacks always ends, and finds the first readable item of the chain, if
-- there is one.
use folioharbor.Prelude.{
  All, All-map, Bool-cases, List, Option-cases, [], ap, arith, false, inl, inr, length, refl, some,
  suc, true, zero, ℕ, ◌+◌, ◌<◌, ◌↔◌, ◌∷◌, ◌≡◌,
}
use folioharbor.Prelude.Result.{err, ok}
use folioharbor.Text.Chars.{Text, text_eq, text_eq-eq}
use folioharbor.Domain.Publication.{holds}
use folioharbor.Domain.Publication.Laws.{Distinct}
use folioharbor.Epub.Error.{Checked, invalid_spine}
use folioharbor.Epub.Package.Manifest.{Manifest, ManifestItem, keys, lookup}
use folioharbor.Epub.Package.State.{PackageVersion}
use folioharbor.Epub.Package.Fallback.{is_readable_spine_item, readable_manifest_item, search}
use folioharbor.Epub.Package.Fallback.Pigeonhole.{holds-keys, length-Distinct, length-keys}

module _ (version : PackageVersion) (manifest : Manifest) where
  -- From an item that is not readable the search goes on at its fallback: `n` steps lead from the
  -- identifier to the readable item `found`.
  abbrev pub Leads : ℕ → Text → Text × ManifestItem → Type 0
  Leads zero id found =
      (found.0 ≡ id)
      × (lookup id manifest ≡ some found.1)
      × (is_readable_spine_item version found.1 ≡ true)
  Leads (suc n) id found =
      (item : ManifestItem) × (next : Text) × (lookup id manifest ≡ some item)
      × (is_readable_spine_item version item ≡ false)
      × (item.fallback ≡ some next)
      × Leads n next found

  Leads-steps :
      (k n : ℕ) (id : Text) (found : Text × ManifestItem)
      → Leads k id found
      → Leads n id found
      → k ≡ n
  Leads-steps zero zero id found l m = refl
  Leads-steps zero (suc n) id found (_, e, r) (item, _, e₂, r₂, _, _) =
      let same : found.1 ≡ item = ground arith in absurd (cc (same, r, r₂))
  Leads-steps (suc k) zero id found (item, _, e₂, r₂, _, _) (_, e, r) =
      let same : found.1 ≡ item = ground arith in absurd (cc (same, r, r₂))
  Leads-steps (suc k) (suc n) id found (item, next, e, r, f, l) (item₂, next₂, e₂, r₂, f₂, m) =
      let same : item ≡ item₂ = ground arith in
      let there : next₂ ≡ next = ground arith in
      ap suc (Leads-steps k n next found l (rw there at m))

  -- The search ends: its fuel and the visited items are more than the manifest's.
  search-ends :
      (fuel : ℕ) (current : Text) (visited : List Text)
      → length manifest < fuel + length visited
      → Distinct visited
      → All (λ id. holds id (keys manifest) ≡ true) visited
      → (r : Checked (Text × ManifestItem)) × (search version manifest fuel current visited
          ≡ some r)
  unfolding search
  search-ends zero current visited enough d h =
      absurd (omega (arith, length-Distinct visited (keys manifest) d h, length-keys manifest))
  search-ends (suc fuel) current visited enough d h = elim (Bool-cases (holds current visited)) [
    | inl again ↦ (err invalid_spine, rw again refl)
    | inr fresh ↦ elim (Option-cases (lookup current manifest)) [
      | inl missing ↦ (err invalid_spine, rw (fresh, missing) refl)
      | inr (item, stored) ↦ elim (Bool-cases (is_readable_spine_item version item)) [
        | inl readable ↦ (ok (current, item), rw (fresh, stored, readable) refl)
        | inr unreadable ↦ elim (Option-cases item.fallback) [
          | inl last ↦ (err invalid_spine, rw (fresh, stored, unreadable, last) refl)
          | inr (next, onward) ↦
              let (r, e) =
                search-ends fuel next (current ∷ visited) (omega arith) (fresh, d)
                  (holds-keys current manifest stored, h) in
              (r, rw (fresh, stored, unreadable, onward) e)
        ]
      ]
    ]
  ]

  -- The result of a search that ends at a readable item.
  search-Leads :
      (fuel : ℕ) (current : Text) (visited : List Text) (found : Text × ManifestItem)
      → search version manifest fuel current visited ≡ some (ok found)
      → (n : ℕ) × Leads n current found
  unfolding search
  search-Leads zero current visited found e = cc
  search-Leads (suc fuel) current visited found e = elim (Bool-cases (holds current visited)) [
    | inl again ↦ absurd (ground arith)
    | inr fresh ↦ elim (Option-cases (lookup current manifest)) [
      | inl missing ↦ absurd (ground arith)
      | inr (item, stored) ↦ elim (Bool-cases (is_readable_spine_item version item)) [
        | inl readable ↦
            let same : found ≡ (current, item) = ground arith in
            rw same (0, (refl, stored, readable))
        | inr unreadable ↦ elim (Option-cases item.fallback) [
          | inl last ↦ absurd (ground arith)
          | inr (next, onward) ↦
              let (n, l) =
                search-Leads fuel next (current ∷ visited) found
                  (rw (fresh, stored, unreadable, onward) at e) in
              (suc n, (item, next, stored, unreadable, onward, l))
        ]
      ]
    ]
  ]

  -- A visited item is further away than the current one.
  abbrev Further : ℕ → Text × ManifestItem → Text → Type 0
  Further n found id = (k : ℕ) × (n < k) × Leads k id found

  Further-fresh :
      (n : ℕ) (current : Text) (visited : List Text) (found : Text × ManifestItem)
      → Leads n current found
      → All (Further n found) visited
      → holds current visited ≡ false
  unfolding holds
  Further-fresh n current [] found l h = refl
  Further-fresh n current (id ∷ visited) found l ((k, further, m), h) =
      elim (Bool-cases (text_eq id current)) [
        | inl same ↦
            let equal : id ≡ current = text_eq-eq id current same in
            absurd (omega (arith, Leads-steps k n current found (rw equal at m) l))
        | inr different ↦ ground (arith, Further-fresh n current visited found l h)
      ]

  Further-less :
      (n : ℕ) (found : Text × ManifestItem) (visited : List Text)
      → All (Further (suc n) found) visited
      → All (Further n found) visited
  Further-less n found visited h = All-map (λ id (k, further, l). (k, omega arith, l)) visited h

  -- A search that ends finds the item that the fallbacks lead to.
  Leads-search :
      (fuel : ℕ) (current : Text) (visited : List Text) (n : ℕ) (found : Text × ManifestItem)
      {r : Checked (Text × ManifestItem)}
      → Leads n current found
      → All (Further n found) visited
      → search version manifest fuel current visited ≡ some r
      → r ≡ ok found
  unfolding search
  Leads-search zero current visited n found l h e = cc
  Leads-search (suc fuel) current visited zero found (same, stored, readable) h e =
      let fresh = Further-fresh zero current visited found (same, stored, readable) h in
      ground arith
  Leads-search (suc fuel) current visited (suc n) found (item, next, stored, r, onward, l) h e =
      let here : Leads (suc n) current found = (item, next, stored, r, onward, l) in
      let fresh = Further-fresh (suc n) current visited found here h in
      Leads-search fuel next (current ∷ visited) n found l
        ((suc n, omega arith, here), Further-less n found visited h)
        (rw (fresh, stored, r, onward) at e)

  -- The search along the fallbacks ends, whatever the manifest says, with an error or an item.
  pub readable_manifest_item-ends :
      (idref : Text)
      → (r : Checked (Text × ManifestItem)) × (readable_manifest_item version manifest idref
          ≡ some r)
  unfolding readable_manifest_item
  readable_manifest_item-ends idref =
      search-ends (suc (length manifest)) idref [] (omega arith) tt tt

  -- It gives an item exactly when that is readable and some number of fallbacks, over items that are
  -- not readable, lead to it from the identifier.
  pub readable_manifest_item_iff :
      (idref : Text) (found : Text × ManifestItem)
      → (readable_manifest_item version manifest idref ≡ some (ok found))
        ↔ (n : ℕ) × Leads n idref found
  unfolding readable_manifest_item
  readable_manifest_item_iff idref found = (
    λ e. search-Leads (suc (length manifest)) idref [] found e,
    λ (n, l).
        let (r, e) = search-ends (suc (length manifest)) idref [] (omega arith) tt tt in
        let same = Leads-search (suc (length manifest)) idref [] n found l tt e in rw same at e,
  )
