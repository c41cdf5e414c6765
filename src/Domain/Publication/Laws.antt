-- ===== src/Domain/Publication/Laws.antt =====
-- When the catalog takes a publication.
use folioharbor.Prelude.{
  All, Bool-cases, List, Option, [], all, ap, ap₂, arith, false, inl, inr, is_empty, length, none,
  refl, some, suc, sym, true, ◌&&◌, ◌||◌, ◌↔◌, ◌∙◌, ◌∷◌, ◌≡◌, ◌≤◌,
}
use folioharbor.Prelude.Result.{Result-cases, map_option, ok}
use folioharbor.Text.Chars.{Text, text_eq, text_eq-eq}
use folioharbor.Text.Split.{before}
use folioharbor.Domain.Metadata.{CatalogMetadata}
use folioharbor.Domain.Hrefs.{SpineEntry, TocEntry, normalized_href}
use folioharbor.Domain.Publication.{
  CatalogPublication, PublicationResource, collect_set, from_parser, holds, hrefs_of, is_outside,
}

-- No text stands twice.
abbrev pub Distinct : List Text → Type 0
Distinct [] = Unit
Distinct (x ∷ xs) = (holds x xs ≡ false) × Distinct xs

length-collect_set : (xs : List Text) → length (collect_set xs) ≤ length xs
unfolding collect_set
length-collect_set [] = omega arith
length-collect_set (x ∷ xs) = ground (arith, length-collect_set xs)

holds-collect_set : (value : Text) (xs : List Text) → holds value (collect_set xs) ≡ holds value xs
unfolding collect_set holds
holds-collect_set value [] = refl
holds-collect_set value (x ∷ xs) = elim (Bool-cases (holds x (collect_set xs))) [
  | inl again ↦ elim (Bool-cases (text_eq x value)) [
    | inl same ↦
        let e = text_eq-eq x value same in
        rw (again, same) (ap (λ y. holds y (collect_set xs)) (sym e) ∙ again)
    | inr other ↦ rw (again, other) (holds-collect_set value xs)
  ]
  | inr first ↦ rw first (ap (λ b. text_eq x value || b) (holds-collect_set value xs))
]

-- The set is as large as the list exactly when no text stands twice.
collect_set_iff : (xs : List Text) → (length (collect_set xs) ≡ length xs) ↔ Distinct xs
unfolding collect_set
collect_set_iff [] = ground arith
collect_set_iff (x ∷ xs) =
    ground (arith, length-collect_set xs, holds-collect_set x xs, collect_set_iff xs)

-- A link, without its fragment, names a resource.
abbrev pub Names : List PublicationResource → Text → Type 0
Names resources href = holds (before b'#' href) (hrefs_of resources) ≡ true

abbrev pub IsCover : List PublicationResource → Option Text → Type 0
IsCover resources none = Unit
IsCover resources (some cover) =
    (normalized_href cover ≡ ok cover) × (holds cover (hrefs_of resources) ≡ true)

pub record IsPublication (resources : List PublicationResource) (spine : List SpineEntry)
    (toc : List TocEntry) (cover : Option Text) : Type 0 where
  pub filled : is_empty resources ≡ false
  pub distinct : Distinct (hrefs_of resources)
  pub readable : is_empty spine ≡ false
  pub spine_named : All (λ entry. Names resources entry.href) spine
  pub toc_named : All (λ entry. Names resources entry.href) toc
  pub cover_named : IsCover resources cover

named_iff {ℓ} :
    {A : Type ℓ} (href : A → Text) (hrefs : List Text) (entries : List A)
    → (all (λ entry. holds (before b'#' (href entry)) (collect_set hrefs)) entries ≡ true)
      ↔ All (λ entry. holds (before b'#' (href entry)) hrefs ≡ true) entries
named_iff href hrefs [] = (λ e. tt, λ h. refl)
named_iff href hrefs (entry ∷ entries) =
    let rest = named_iff href hrefs entries in
    let same = holds-collect_set (before b'#' (href entry)) hrefs in
    (
      λ e. (sym same ∙ ground arith, rest.0 (ground arith)),
      λ h. ap₂ (λ p q. p && q) (same ∙ h.0) (rest.1 h.1),
    )

normalized_href_same :
    (value : Text) {checked : Text} → normalized_href value ≡ ok checked → checked ≡ value
unfolding normalized_href
normalized_href_same value e = ground arith

IsCover-checked :
    (resources : List PublicationResource) (cover : Option Text) {checked : Option Text}
    → map_option normalized_href cover ≡ ok checked
    → is_outside (collect_set (hrefs_of resources)) checked ≡ false
    → (checked ≡ cover) × IsCover resources cover
IsCover-checked resources none e inside = ground arith
IsCover-checked resources (some cover) e inside = elim (Result-cases (normalized_href cover)) [
  | inl (checked, accepted) ↦
      ground
        (arith, normalized_href_same cover accepted, holds-collect_set cover (hrefs_of resources))
  | inr (code, failed) ↦ absurd (ground arith)
]

cover_accepted :
    (resources : List PublicationResource) (cover : Option Text)
    → IsCover resources cover
    → (map_option normalized_href cover ≡ ok cover)
      × (is_outside (collect_set (hrefs_of resources)) cover ≡ false)
cover_accepted resources none h = (refl, refl)
cover_accepted resources (some cover) h =
    ground (arith, h.0, h.1, holds-collect_set cover (hrefs_of resources))

length-hrefs :
    (resources : List PublicationResource) → length (hrefs_of resources) ≡ length resources
length-hrefs [] = refl
length-hrefs (resource ∷ resources) = ap suc (length-hrefs resources)

from_parser-IsPublication :
    (metadata : CatalogMetadata) (resources : List PublicationResource) (spine : List SpineEntry)
    (toc : List TocEntry) (cover : Option Text) {publication : CatalogPublication}
    → from_parser metadata resources spine toc cover ≡ ok publication
    → IsPublication resources spine toc cover
unfolding from_parser
from_parser-IsPublication metadata resources spine toc cover {publication} e =
    elim (Result-cases (map_option normalized_href cover)) [
      | inl (checked, accepted) ↦
          let inside : is_outside (collect_set (hrefs_of resources)) checked ≡ false =
            ground arith in
          record {
            filled = ground arith;
            distinct =
                (collect_set_iff (hrefs_of resources)).0 (ground (arith, length-hrefs resources));
            readable = ground arith;
            spine_named =
                (named_iff (λ (entry : SpineEntry). entry.href) (hrefs_of resources) spine).0
                  (ground arith);
            toc_named =
                (named_iff (λ (entry : TocEntry). entry.href) (hrefs_of resources) toc).0
                  (ground arith);
            cover_named = (IsCover-checked resources cover accepted inside).1;
          }
      | inr (code, failed) ↦ absurd (ground arith)
    ]

from_parser_of :
    (metadata : CatalogMetadata) (resources : List PublicationResource) (spine : List SpineEntry)
    (toc : List TocEntry) (cover : Option Text)
    → IsPublication resources spine toc cover
    → from_parser metadata resources spine toc cover
      ≡ ok (record {
        metadata = metadata;
        resources = resources;
        spine = spine;
        toc = toc;
        cover_href = cover;
      })
unfolding from_parser
from_parser_of metadata resources spine toc cover h = ground (
  arith,
  h.filled,
  h.readable,
  (collect_set_iff (hrefs_of resources)).1 h.distinct,
  length-hrefs resources,
  (named_iff (λ (entry : SpineEntry). entry.href) (hrefs_of resources) spine).1 h.spine_named,
  (named_iff (λ (entry : TocEntry). entry.href) (hrefs_of resources) toc).1 h.toc_named,
  cover_accepted resources cover h.cover_named,
)

-- A publication that is taken is of the given parts.
pub from_parser-kept :
    (metadata : CatalogMetadata) (resources : List PublicationResource) (spine : List SpineEntry)
    (toc : List TocEntry) (cover : Option Text) {publication : CatalogPublication}
    → from_parser metadata resources spine toc cover ≡ ok publication
    → publication ≡ record {
      metadata = metadata;
      resources = resources;
      spine = spine;
      toc = toc;
      cover_href = cover;
    }
from_parser-kept metadata resources spine toc cover e =
    let h = from_parser-IsPublication metadata resources spine toc cover e in
    let made = from_parser_of metadata resources spine toc cover h in ground arith

-- The catalog takes a publication exactly when it has resources and a spine, no two resources of one
-- href, every entry of the spine and of the table of contents, without its fragment, among the
-- resources, and a cover, if any, that is a valid href among them too.
pub from_parser_iff :
    (metadata : CatalogMetadata) (resources : List PublicationResource) (spine : List SpineEntry)
    (toc : List TocEntry) (cover : Option Text)
    → ((publication : CatalogPublication) × (from_parser metadata resources spine toc cover
          ≡ ok publication))
      ↔ IsPublication resources spine toc cover
from_parser_iff metadata resources spine toc cover = (
  λ p. from_parser-IsPublication metadata resources spine toc cover p.1,
  λ h. (
    record {
      metadata = metadata;
      resources = resources;
      spine = spine;
      toc = toc;
      cover_href = cover;
    },
    from_parser_of metadata resources spine toc cover h,
  ),
)
