-- ===== src/Epub/Parser.antt =====
-- The parser that the worker uses: `EpubParser::inspect`, `EpubPublicationParser::parse` and the
-- mappings to the catalog's values and errors in crates/epub/src/lib.rs.
pub mod Laws
mod Tests
use mathlib.Core.Option
use folioharbor.Prelude.{Bool, List, Option, ℕ}
use folioharbor.Prelude.Result.{Result, map_all, map_err, ◌>>=◌}
use folioharbor.Domain.Metadata.{CatalogMetadata, ParserMetadata}
use folioharbor.Domain.Metadata as DomainMetadata
use folioharbor.Domain.Hrefs.{new_spine, new_toc, SpineEntry}
use folioharbor.Domain.Publication.{CatalogPublication, PublicationResource, new_resource}
use folioharbor.Domain.Publication as DomainPublication
use folioharbor.Imports.Process.{PublicationParserError}
use folioharbor.Uploads.Receive.{BlobStoreError}
use folioharbor.Epub.Error.{Checked, EpubErrorCode}
use folioharbor.Epub.Archive.{ParserLimits}
use folioharbor.Epub.Eocd.{Source}
use folioharbor.Epub.Load.{Member, read}
use folioharbor.Epub.Reader.{Document}
use folioharbor.Epub.Ncx.State.{TocEntry}
use folioharbor.Epub.Container.{package_path}
use folioharbor.Epub.Package.State.{ParsedPublication, Resource, SpineItem}
use folioharbor.Epub.Package.Build as PackageBuild

-- An opened file: when its reading starts, its bytes, whether they can be read again, and what the
-- ZIP library finds in them then.
pub record OpenedFile : Type 0 where
  pub started : ℕ
  pub source : Source
  pub rewinds : Bool
  pub members : Option (List Member)

-- `EpubParser::inspect`
unfoldable pub inspect : (List ℕ → Document) → OpenedFile → ParserLimits → Checked ParsedPublication
inspect xml file limits = do
  archive ← read file.started file.source file.rewinds file.members limits
  path ← package_path xml archive
  PackageBuild.parse xml archive path

unfoldable pub map_epub_error : EpubErrorCode → PublicationParserError
map_epub_error EpubErrorCode.encrypted_content = PublicationParserError.encrypted_content
map_epub_error EpubErrorCode.invalid_navigation = PublicationParserError.invalid_navigation
map_epub_error _ = PublicationParserError.malformed

unfoldable pub map_storage_error : BlobStoreError → PublicationParserError
map_storage_error BlobStoreError.insufficient_capacity = PublicationParserError.capacity
map_storage_error BlobStoreError.invalid_key = PublicationParserError.configuration
map_storage_error BlobStoreError.identity_mismatch = PublicationParserError.configuration
map_storage_error BlobStoreError.invalid_range = PublicationParserError.configuration
map_storage_error BlobStoreError.io = PublicationParserError.parser_unavailable

abbrev pub or_malformed {ℓ} :
    {A : Type ℓ} → DomainMetadata.Catalog A → Result A PublicationParserError
or_malformed checked = map_err (λ _. PublicationParserError.malformed) checked

unfoldable pub map_publication :
    ParsedPublication → Result CatalogPublication PublicationParserError
map_publication parsed = do
  metadata ← or_malformed (
      DomainMetadata.from_parser (record {
        titles = parsed.metadata.titles;
        authors = parsed.metadata.authors;
        languages = parsed.metadata.languages;
        identifiers = parsed.metadata.identifiers;
      }))
  resources ← or_malformed (
      map_all (λ (resource : Resource). new_resource resource.href resource.media_type)
        parsed.resources)
  spine ←
      or_malformed (map_all (λ (item : SpineItem). new_spine item.href item.linear) parsed.spine)
  toc ← or_malformed (map_all (λ (entry : TocEntry). new_toc entry.label entry.href) parsed.toc)
  or_malformed (DomainPublication.from_parser metadata resources spine toc parsed.cover)

-- `EpubPublicationParser::parse`, with what the blob store opens.
unfoldable pub parse :
    (List ℕ → Document)
    → ParserLimits
    → Result OpenedFile BlobStoreError
    → Result CatalogPublication PublicationParserError
parse xml limits opened = do
  file ← map_err map_storage_error opened
  parsed ← map_err map_epub_error (inspect xml file limits)
  map_publication parsed
