-- ===== src/Catalog/Tests.antt =====
-- A library with two books on two pages, and an instance of the theorem.
use folioharbor.Prelude.{
  List, Option, [], ap, arith, if◌then◌else◌, map, none, refl, some, sym, take, true, ℕ, ◌++◌, ◌==◌,
  ◌∙◌, ◌∷◌, ◌≡◌,
}
use folioharbor.Prelude.Result.{ok}
use folioharbor.Text.Chars.{codes}
use folioharbor.Domain.Codes.{RoleCode}
use folioharbor.Access.{
  AuthorizationFact, AuthorizationGrant, decide_fact, library_of, library_ref, require,
  view_library,
}
use folioharbor.Access.Laws.{grant_of_fact}
use folioharbor.Catalog.Books.{Ports, VisibleCatalogItem, summary}
use folioharbor.Catalog.Books.Laws.{IsPaged, list_books_complete, walk}

abbrev book : ℕ → VisibleCatalogItem
book id = record {
  holding_id = id;
  item_id = id;
  manifestation_id = id;
  package_id = id;
  primary_title = codes "Tales";
  authors = [];
  languages = [];
  identifiers = [];
  media_type = codes "application/epub+zip";
  can_download = true;
}

abbrev shelf : List VisibleCatalogItem
shelf = book 4 ∷ book 6 ∷ []

abbrev after_holding : Option ℕ → List VisibleCatalogItem
after_holding none = shelf
after_holding (some id) = if id == 4 then book 6 ∷ [] else []

abbrev one_byte : List ℕ → Option ℕ
one_byte (id ∷ []) = some id
one_byte _ = none

abbrev fact : AuthorizationFact
fact = record {
  library_id = 7;
  role = RoleCode.reader;
  membership_version = 1;
  discoverable = true;
  permitted = true;
}

abbrev ports : Ports
ports = record {
  resolve = λ actor action resource. some (some fact);
  rows = λ grant library after limit request. some (take limit (after_holding after));
  base64_encode = λ bytes. bytes;
  base64_decode = λ text. some text;
  as_bytes = λ id. id ∷ [];
  from_slice = one_byte;
}

abbrev grant : AuthorizationGrant
grant = grant_of_fact ports.resolve 1 view_library (library_ref 7) fact

granted : require ports.resolve 1 view_library (library_ref 7) ≡ ok grant
unfolding require decide_fact library_of
granted = refl

follows :
    (front : List VisibleCatalogItem) (row : VisibleCatalogItem) (rest : List VisibleCatalogItem)
    → shelf ≡ front ++ row ∷ rest
    → after_holding (some row.holding_id) ≡ rest
follows [] row rest e =
    let first : book 4 ≡ row = cc in
    let others : book 6 ∷ [] ≡ rest = cc in
    ap (λ r. after_holding (some r.holding_id)) (sym first) ∙ others
follows (_ ∷ []) row rest e =
    let last : book 6 ≡ row = cc in
    let others : [] ≡ rest = cc in ap (λ r. after_holding (some r.holding_id)) (sym last) ∙ others
follows (_ ∷ _ ∷ []) row rest e = cc
follows (_ ∷ _ ∷ _ ∷ _) row rest e = cc

shelf-IsPaged : IsPaged ports grant 7 9 shelf
shelf-IsPaged = record {
  first = λ n. refl;
  next = λ front row rest e n. ap (λ rows. some (take n rows)) (follows front row rest e);
  decoded = λ bytes. refl;
  identified = λ id. refl;
}

list_books_complete_example : walk ports 1 7 9 (some 1) 3 none ≡ ok (map summary shelf)
list_books_complete_example =
    list_books_complete ports 1 7 9 (some 1) grant shelf shelf-IsPaged granted refl 3 (omega arith)
