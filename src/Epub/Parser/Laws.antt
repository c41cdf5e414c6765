-- ===== src/Epub/Parser/Laws.antt =====
-- What holds of the publications that the parser accepts, and of its errors.
use folioharbor.Prelude.{All, List, [], ap, arith, inl, inr, refl, ℕ, ◌↔◌, ◌∙◌, ◌∷◌, ◌≡◌, ◌≢◌, ◌⊎◌}
use folioharbor.Prelude.Result.{
  >>=-eq-err, >>=-eq-ok, Result, Result-cases, err, map_all, map_err, map_err-eq-ok, ok,
}
use folioharbor.Text.Chars.{Text}
use folioharbor.Domain.Metadata.{CatalogMetadata, ParserMetadata}
use folioharbor.Domain.Metadata as DomainMetadata
use folioharbor.Domain.Metadata.Laws.{IsCatalogMetadata, from_parser-IsCatalogMetadata}
use folioharbor.Domain.Hrefs.{normalized_href}
use folioharbor.Domain.Publication.{CatalogPublication, PublicationResource, new_resource}
use folioharbor.Domain.Publication as DomainPublication
use folioharbor.Domain.Publication.Laws as PublicationLaws
use folioharbor.Imports.Process.{PublicationParserError}
use folioharbor.Uploads.Receive.{BlobStoreError}
use folioharbor.Epub.Error.{EpubErrorCode}
use folioharbor.Epub.Archive.{ParserLimits, BoundedArchive}
use folioharbor.Epub.Links.{IsTarget}
use folioharbor.Epub.Load.{read}
use folioharbor.Epub.Load.Laws.{IsBounded, entry_sizes, read-IsBounded}
use folioharbor.Epub.Reader.{Document}
use folioharbor.Epub.Container.{package_path}
use folioharbor.Epub.Package.State.{ParsedPublication, Resource}
use folioharbor.Epub.Package.Laws.{IsPublication, package_parse-IsPublication}
use folioharbor.Epub.Package.Contents.{IsSmall}
use folioharbor.Epub.Parser.{
  OpenedFile, inspect, map_epub_error, map_publication, map_storage_error, or_malformed, parse,
}

new_resource-href :
    (href media_type : Text) {r : PublicationResource}
    → new_resource href media_type ≡ ok r
    → r.href ≡ href
unfolding new_resource normalized_href
new_resource-href href media_type e = ground arith

-- The resources keep their links.
resources-linked :
    (P : Text → Type 0) (parsed : List Resource) {resources : List PublicationResource}
    → All (λ r. P r.href) parsed
    → map_all (λ (resource : Resource). new_resource resource.href resource.media_type) parsed
      ≡ ok resources
    → All (λ r. P r.href) resources
unfolding map_all
resources-linked P [] {resources} h e = let same : resources ≡ [] = ground arith in rw same tt
resources-linked P (r ∷ parsed) {resources} (p, h) e =
    let (made, m, e) = >>=-eq-ok (new_resource r.href r.media_type) _ e in
    let (rest, more, e) = >>=-eq-ok (map_all _ parsed) _ e in
    let same : resources ≡ made ∷ rest = ground arith in
    rw (same, new_resource-href r.href r.media_type m) (p, resources-linked P parsed h more)

or_malformed-eq-err {ℓ} :
    {A : Type ℓ} (r : DomainMetadata.Catalog A) {e : PublicationParserError}
    → or_malformed r ≡ err e
    → e ≡ PublicationParserError.malformed
or_malformed-eq-err (ok a) h = cc
or_malformed-eq-err (err e) h = ground arith

map_publication-eq-err :
    (parsed : ParsedPublication) {e : PublicationParserError}
    → map_publication parsed ≡ err e
    → e ≡ PublicationParserError.malformed
unfolding map_publication
map_publication-eq-err parsed {e} h =
    elim (>>=-eq-err (or_malformed (DomainMetadata.from_parser _)) _ h) [
      | inl m ↦ or_malformed-eq-err _ m
      | inr (metadata, _, h) ↦ elim (>>=-eq-err (or_malformed (map_all _ parsed.resources)) _ h) [
        | inl r ↦ or_malformed-eq-err _ r
        | inr (resources, _, h) ↦ elim (>>=-eq-err (or_malformed (map_all _ parsed.spine)) _ h) [
          | inl s ↦ or_malformed-eq-err _ s
          | inr (spine, _, h) ↦ elim (>>=-eq-err (or_malformed (map_all _ parsed.toc)) _ h) [
            | inl t ↦ or_malformed-eq-err _ t
            | inr (toc, _, h) ↦ or_malformed-eq-err _ h
          ]
        ]
      ]
    ]

module _ (limits : ParserLimits) where
  -- An accepted publication is one that the catalog takes, of an archive within the limits that holds
  -- each of its resources.
  pub record IsAccepted (publication : CatalogPublication) : Type 0 where
    pub archive : BoundedArchive
    pub within : IsBounded limits (entry_sizes archive.entries)
    pub resources_held : All (λ r. IsTarget archive r.href) publication.resources
    pub described : IsCatalogMetadata publication.metadata
    pub coherent :
        PublicationLaws.IsPublication publication.resources publication.spine publication.toc
          publication.cover_href

  map_publication-IsAccepted :
      (archive : BoundedArchive) (parsed : ParsedPublication) {publication : CatalogPublication}
      → IsBounded limits (entry_sizes archive.entries)
      → IsPublication archive parsed
      → map_publication parsed ≡ ok publication
      → IsAccepted publication
  unfolding map_publication
  map_publication-IsAccepted archive parsed {publication} within h e =
      let (metadata, m, e) = >>=-eq-ok (or_malformed (DomainMetadata.from_parser _)) _ e in
      let (resources, r, e) = >>=-eq-ok (or_malformed (map_all _ parsed.resources)) _ e in
      let (spine, s, e) = >>=-eq-ok (or_malformed (map_all _ parsed.spine)) _ e in
      let (toc, t, e) = >>=-eq-ok (or_malformed (map_all _ parsed.toc)) _ e in
      let taken = DomainPublication.from_parser metadata resources spine toc parsed.cover in
      let e' = map_err-eq-ok _ taken e in
      let coherent =
        (PublicationLaws.from_parser_iff metadata resources spine toc parsed.cover).0
          (publication, e') in
      let r' = map_err-eq-ok _ (map_all _ parsed.resources) r in
      let m' = map_err-eq-ok _ (DomainMetadata.from_parser _) m in
      let same = PublicationLaws.from_parser-kept metadata resources spine toc parsed.cover e' in
      rw same (record {
        archive = archive;
        within = within;
        resources_held = resources-linked (IsTarget archive) parsed.resources h.resources_linked r';
        described = (from_parser-IsCatalogMetadata _ m').0;
        coherent = coherent;
      })

  -- A publication that the parser accepts is one that the catalog takes: its metadata are in order,
  -- its resources have different links, and its spine, table of contents and cover name resources.
  -- Each of its resources is a normal path of an entry of an archive that is within the limits, if no
  -- document of the archive has more XML events than a machine word counts.
  pub parser_parse-IsAccepted :
      (xml : List ℕ → Document) (small : IsSmall xml) (opened : Result OpenedFile BlobStoreError)
      {publication : CatalogPublication}
      → parse xml limits opened ≡ ok publication
      → IsAccepted publication
  unfolding parse inspect
  parser_parse-IsAccepted xml small opened {publication} e =
      let (file, o, e) = >>=-eq-ok (map_err map_storage_error opened) _ e in
      let (parsed, p, e) = >>=-eq-ok (map_err map_epub_error (inspect xml file limits)) _ e in
      let p' = map_err-eq-ok _ (inspect xml file limits) p in
      let (archive, a, p') =
        >>=-eq-ok (read file.started file.source file.rewinds file.members limits) _ p' in
      let (path, found, p') = >>=-eq-ok (package_path xml archive) _ p' in
      let (_, within) =
        read-IsBounded file.started file.source file.rewinds file.members limits a in
      map_publication-IsAccepted archive parsed within
        (package_parse-IsPublication xml archive path small p') e

  -- The errors of a blob store that is asked for a blob or a range that it cannot have.
  abbrev pub IsMisuse : BlobStoreError → Type 0
  IsMisuse error =
      (error ≡ BlobStoreError.invalid_key)
      ⊎ ((error ≡ BlobStoreError.identity_mismatch) ⊎ (error ≡ BlobStoreError.invalid_range))

  storage_cases :
      (error : BlobStoreError)
      → ((map_storage_error error ≡ PublicationParserError.parser_unavailable)
          ↔ (error ≡ BlobStoreError.io))
        × ((map_storage_error error ≡ PublicationParserError.capacity)
            ↔ (error ≡ BlobStoreError.insufficient_capacity))
        × ((map_storage_error error ≡ PublicationParserError.configuration) ↔ IsMisuse error)
        × (map_storage_error error ≢ PublicationParserError.encrypted_content)
        × (map_storage_error error ≢ PublicationParserError.invalid_navigation)
  unfolding map_storage_error
  storage_cases BlobStoreError.io = ground arith
  storage_cases BlobStoreError.insufficient_capacity = ground arith
  storage_cases BlobStoreError.invalid_key = ground arith
  storage_cases BlobStoreError.identity_mismatch = ground arith
  storage_cases BlobStoreError.invalid_range = ground arith

  epub_cases :
      (code : EpubErrorCode)
      → (map_epub_error code ≢ PublicationParserError.parser_unavailable)
        × (map_epub_error code ≢ PublicationParserError.capacity)
        × (map_epub_error code ≢ PublicationParserError.configuration)
        × ((map_epub_error code ≡ PublicationParserError.encrypted_content)
            ↔ (code ≡ EpubErrorCode.encrypted_content))
        × ((map_epub_error code ≡ PublicationParserError.invalid_navigation)
            ↔ (code ≡ EpubErrorCode.invalid_navigation))
  unfolding map_epub_error
  epub_cases EpubErrorCode.encrypted_content = ground arith
  epub_cases EpubErrorCode.invalid_navigation = ground arith
  epub_cases _ = ground arith

  -- Which failures the parser gives, whatever the archive holds. The one that is tried again, that it
  -- is unavailable, comes from an input or output error of the blob store alone; those that wait for an
  -- operator come from the blob store alone too: capacity exactly where the store has too little of it,
  -- and configuration exactly where a key, an identity or a range is wrong. An encrypted archive and
  -- one with bad navigation are told apart from the other malformed ones.
  pub parser_parse_error_iff :
      (xml : List ℕ → Document) (opened : Result OpenedFile BlobStoreError)
      → ((parse xml limits opened ≡ err PublicationParserError.parser_unavailable)
          ↔ (opened ≡ err BlobStoreError.io))
        × ((parse xml limits opened ≡ err PublicationParserError.capacity)
            ↔ (opened ≡ err BlobStoreError.insufficient_capacity))
        × ((parse xml limits opened ≡ err PublicationParserError.configuration)
            ↔ (failure : BlobStoreError) × (opened ≡ err failure) × IsMisuse failure)
        × ((parse xml limits opened ≡ err PublicationParserError.encrypted_content)
            ↔ (file : OpenedFile) × (opened ≡ ok file)
              × (inspect xml file limits ≡ err EpubErrorCode.encrypted_content))
        × ((parse xml limits opened ≡ err PublicationParserError.invalid_navigation)
            ↔ (file : OpenedFile) × (opened ≡ ok file)
              × (inspect xml file limits ≡ err EpubErrorCode.invalid_navigation))
  unfolding parse
  parser_parse_error_iff xml (err error) =
      let (lasting, ample, misused, plain, found) = storage_cases error in
      (
        ground (arith, lasting),
        ground (arith, ample),
        (
          λ h. (error, refl, misused.0 (ground arith)),
          λ (failure, same, h).
              let known : failure ≡ error = ground arith in ap err (misused.1 (rw known at h)),
        ),
        ground (arith, plain),
        ground (arith, found),
      )
  parser_parse_error_iff xml (ok file) = elim (Result-cases (inspect xml file limits)) [
    | inl (parsed, e) ↦ rw e (
      (λ h. absurd (cc (map_publication-eq-err parsed h)), λ h. cc),
      (λ h. absurd (cc (map_publication-eq-err parsed h)), λ h. cc),
      (λ h. absurd (cc (map_publication-eq-err parsed h)), λ (failure, same, i). cc),
      (λ h. absurd (cc (map_publication-eq-err parsed h)), λ (x, same, i). cc),
      (λ h. absurd (cc (map_publication-eq-err parsed h)), λ (x, same, i). cc),
    )
    | inr (code, e) ↦
        let (lasting, ample, set_up, encrypted, lost) = epub_cases code in
        rw e (
          (λ h. absurd (lasting (ground arith)), λ h. cc),
          (λ h. absurd (ample (ground arith)), λ h. cc),
          (λ h. absurd (set_up (ground arith)), λ (failure, same, i). cc),
          (
            λ h. (file, refl, e ∙ ap err (encrypted.0 (ground arith))),
            λ (x, same, i).
                let known : code ≡ EpubErrorCode.encrypted_content = cc in
                ap err (encrypted.1 known),
          ),
          (
            λ h. (file, refl, e ∙ ap err (lost.0 (ground arith))),
            λ (x, same, i).
                let known : code ≡ EpubErrorCode.invalid_navigation = cc in ap err (lost.1 known),
          ),
        )
  ]
