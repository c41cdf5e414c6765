-- ===== src/Catalog/Books/Laws.antt =====
-- The pages of a library's books hold each book once, in their order.
use mathlib.Core.List.{map-append, append_assoc}
use folioharbor.Prelude.{
  Bool-cases, List, Option, [], ap, arith, false, inl, inr, length, length-append, ltb, map, none,
  or_default, refl, some, suc, sym, take, true, zero, ℕ, ◌++◌, ◌+◌, ◌<◌, ◌==◌, ◌∙◌, ◌∷◌, ◌≡◌,
}
use folioharbor.Prelude.Result.{err, map_option, ok, ◌>>=◌}
use folioharbor.Text.Chars.{Text}
use folioharbor.App.{App, internal}
use folioharbor.Access.{AuthorizationGrant, library_ref, require, view_library}
use folioharbor.Catalog.Books.{
  BookSummary, Ports, VisibleCatalogItem, clamp, decode_cursor, default_page_size, encode_cursor,
  last_cursor, list_books, list_page, max_page_size, page_of, summary,
}

-- The rows of a page: all that are left, or as many as the limit, with their last one.
pub data Cut (limit : ℕ) (rows : List VisibleCatalogItem) : Type 0 where
  short : take (suc limit) rows ≡ rows → ltb limit (length rows) ≡ false → Cut limit rows
  long :
      (front : List VisibleCatalogItem) (row : VisibleCatalogItem) (rest : List VisibleCatalogItem)
      → rows ≡ front ++ row ∷ rest
      → ltb limit (length (take (suc limit) rows)) ≡ true
      → take limit (take (suc limit) rows) ≡ front ++ row ∷ []
      → Cut limit rows

cut-cons :
    (limit : ℕ) (first : VisibleCatalogItem) (rows : List VisibleCatalogItem)
    → Cut limit rows
    → Cut (suc limit) (first ∷ rows)
cut-cons limit first rows (short everything few) =
    short (ap (λ xs. first ∷ xs) everything) (ground (arith, few))
cut-cons limit first rows (long front row rest same many page) =
    long (first ∷ front) row rest (ap (λ xs. first ∷ xs) same) (ground (arith, many))
      (ap (λ xs. first ∷ xs) page)

cut : (limit : ℕ) (rows : List VisibleCatalogItem) → Cut (suc limit) rows
cut limit [] = short refl (ground arith)
cut zero (first ∷ []) = short refl (ground arith)
cut zero (first ∷ second ∷ rows) = long [] first (second ∷ rows) refl (ground arith) refl
cut (suc limit) (first ∷ rows) = cut-cons (suc limit) first rows (cut limit rows)

last_cursor-append :
    (ports : Ports) (front : List VisibleCatalogItem) (row : VisibleCatalogItem)
    → last_cursor ports (front ++ row ∷ []) ≡ some (encode_cursor ports row.holding_id)
unfolding last_cursor
last_cursor-append ports [] row = refl
last_cursor-append ports (first ∷ []) row = refl
last_cursor-append ports (first ∷ second ∷ front) row =
    last_cursor-append ports (second ∷ front) row

clamp-positive : (limit : ℕ) → (limit == 0) ≡ false → (m : ℕ) × (clamp limit ≡ suc m)
unfolding clamp
clamp-positive zero h = cc
clamp-positive (suc limit) h = elim (Bool-cases (ltb max_page_size (suc limit))) [
  | inl above ↦ (99, rw (above, clamp) refl)
  | inr within ↦ (limit, rw (within, clamp) refl)
]

-- What the pages rest on: the repository has the books of the library in one order, and answers with
-- the first of them, or with the first after the book of a holding; a cursor is decoded as it was
-- encoded.
pub record IsPaged (ports : Ports) (grant : AuthorizationGrant) (library request : ℕ)
    (books : List VisibleCatalogItem) : Type 0 where
  pub first : (n : ℕ) → ports.rows grant library none n request ≡ some (take n books)
  pub next :
      (front : List VisibleCatalogItem) (row : VisibleCatalogItem) (rest : List VisibleCatalogItem)
      → books ≡ front ++ row ∷ rest
      → (n : ℕ) → ports.rows grant library (some row.holding_id) n request ≡ some (take n rest)
  pub decoded : (bytes : List ℕ) → ports.base64_decode (ports.base64_encode bytes) ≡ some bytes
  pub identified : (id : ℕ) → ports.from_slice (ports.as_bytes id) ≡ some id

module _ (ports : Ports) (actor library request : ℕ) (limit : Option ℕ) where
  -- A reader that follows the cursors, through as many pages as the fuel allows.
  unfoldable pub walk : ℕ → Option Text → App (List BookSummary)
  walk zero cursor = err internal
  walk (suc fuel) cursor = do
    page ← list_books ports actor library request (record { cursor = cursor; limit = limit })
    elim page.next_cursor [
      | none ↦ ok page.items
      | some cursor' ↦ walk fuel (some cursor') >>= λ more. ok (page.items ++ more)
    ]

  module _ (grant : AuthorizationGrant) (books : List VisibleCatalogItem)
      (paged : IsPaged ports grant library request books)
      (granted : require ports.resolve actor view_library (library_ref library) ≡ ok grant)
      (positive : (or_default default_page_size limit == 0) ≡ false) where
    decode_cursor-encode_cursor : (id : ℕ) → decode_cursor ports (encode_cursor ports id) ≡ ok id
    unfolding decode_cursor encode_cursor
    decode_cursor-encode_cursor id =
        rw (paged.decoded (ports.as_bytes id), paged.identified id) refl

    -- A page, from where the rows that are left start.
    list_books-page :
        (m : ℕ) (cursor : Option Text) (after : Option ℕ) (rows : List VisibleCatalogItem)
        → clamp (or_default default_page_size limit) ≡ suc m
        → map_option (decode_cursor ports) cursor ≡ ok after
        → ((n : ℕ) → ports.rows grant library after n request ≡ some (take n rows))
        → list_books ports actor library request (record { cursor = cursor; limit = limit })
          ≡ ok (page_of ports (suc m) (take (suc (suc m)) rows))
    unfolding list_books list_page
    list_books-page m cursor after rows clamped read answers =
        let more : suc m + 1 ≡ suc (suc m) = omega arith in
        rw (positive, clamped, list_books, list_page, read, granted, answers, more) refl

    -- The page of a cut.
    page_of-short :
        (m : ℕ) (rows : List VisibleCatalogItem)
        → take (suc m) rows ≡ rows
        → ltb m (length rows) ≡ false
        → page_of ports m (take (suc m) rows)
          ≡ record { items = map summary rows; next_cursor = none }
    unfolding page_of
    page_of-short m rows everything few = rw (everything, page_of, few) refl

    page_of-long :
        (m : ℕ) (rows front : List VisibleCatalogItem) (row : VisibleCatalogItem)
        → ltb m (length (take (suc m) rows)) ≡ true
        → take m (take (suc m) rows) ≡ front ++ row ∷ []
        → page_of ports m (take (suc m) rows) ≡ record {
          items = map summary (front ++ row ∷ []);
          next_cursor = some (encode_cursor ports row.holding_id);
        }
    unfolding page_of
    page_of-long m rows front row many page =
        rw (page_of, many, page, last_cursor-append ports front row) refl

    walk-from :
        (m fuel : ℕ) (cursor : Option Text) (after : Option ℕ)
        (before rows : List VisibleCatalogItem)
        → clamp (or_default default_page_size limit) ≡ suc m
        → map_option (decode_cursor ports) cursor ≡ ok after
        → books ≡ before ++ rows
        → ((n : ℕ) → ports.rows grant library after n request ≡ some (take n rows))
        → length rows < fuel
        → walk fuel cursor ≡ ok (map summary rows)
    unfolding walk
    walk-from m zero cursor after before rows clamped read same answers enough =
        absurd (omega arith)
    walk-from m (suc fuel) cursor after before rows clamped read same answers enough =
        let page = list_books-page m cursor after rows clamped read answers in
        elim (cut m rows) [
          | short everything few ↦ rw (page, page_of-short (suc m) rows everything few) refl
          | long front row rest cutting many whole ↦
              let here : books ≡ (before ++ front) ++ row ∷ rest =
                same
                ∙ ap (λ xs. before ++ xs) cutting
                ∙ sym (append_assoc before front (row ∷ rest)) in
              let there : books ≡ ((before ++ front) ++ row ∷ []) ++ rest =
                here ∙ sym (append_assoc (before ++ front) (row ∷ []) rest) in
              let decoded : map_option (decode_cursor ports)
                    (some (encode_cursor ports row.holding_id))
                  ≡ ok (some row.holding_id) =
                rw (decode_cursor-encode_cursor row.holding_id) refl in
              let shorter : length rest < fuel =
                omega (arith, enough, ap length cutting, length-append front (row ∷ rest)) in
              let others =
                walk-from m fuel (some (encode_cursor ports row.holding_id)) (some row.holding_id)
                  ((before ++ front) ++ row ∷ []) rest clamped decoded there
                  (paged.next (before ++ front) row rest here) shorter in
              rw (page, page_of-long (suc m) rows front row many whole, others)
                (ap ok (
                  sym (map-append summary (front ++ row ∷ []) rest)
                  ∙ ap (map summary) (append_assoc front (row ∷ []) rest ∙ sym cutting)))
        ]

    -- A reader that follows the cursors from the first page on, with a limit other than 0, gets every
    -- book of the library once, in the order of the repository, if there is a grant and the repository
    -- answers in one order; as many pages as there are books, and one, are enough.
    pub list_books_complete :
        (fuel : ℕ) → length books < fuel → walk fuel none ≡ ok (map summary books)
    list_books_complete fuel enough =
        let (m, clamped) = clamp-positive (or_default default_page_size limit) positive in
        walk-from m fuel none none [] books clamped refl refl paged.first enough
