-- ===== src/Domain/Tests.antt =====
-- Runs of the domain's functions, and instances of their theorems.
use folioharbor.Prelude.{List, [], map, none, refl, true, ℕ, ◌↔◌, ◌∷◌, ◌≡◌}
use folioharbor.Prelude.Result.{ok}
use folioharbor.Text.Chars.{Text, codes, trim, to_ascii_lowercase, is_control}
use folioharbor.Text.Split.{rsplit_once}
use folioharbor.Text.Utf8.{byte_len}
use folioharbor.Domain.Upload
use folioharbor.Domain.Upload.{UploadState}
use folioharbor.Domain.Upload.Laws.{Way, here, next}
use folioharbor.Domain.Lifecycle.{Duration, ItemLifecycle, advance, delete, purge}
use folioharbor.Domain.Lifecycle.Laws.{IsMade, Op, history, history-IsMade}
use folioharbor.Domain.Email
use folioharbor.Domain.Metadata
use folioharbor.Domain.Metadata.{ParserMetadata, CatalogMetadata}
use folioharbor.Domain.Metadata.Laws.{IsCatalogMetadata, from_parser-IsCatalogMetadata}
use folioharbor.Domain.Hrefs.{SpineEntry}
use folioharbor.Domain.Publication
use folioharbor.Domain.Publication.{PublicationResource, CatalogPublication}
use folioharbor.Domain.Publication.Laws.{IsPublication, from_parser_iff}

abbrev way_to_ready : Way UploadState.created UploadState.ready
unfolding Upload.can_transition_to
way_to_ready =
    let w1 : Way UploadState.created UploadState.receiving =
      next {t = UploadState.created} here refl in
    let w2 : Way UploadState.created UploadState.received = next w1 refl in
    let w3 : Way UploadState.created UploadState.queued = next w2 refl in
    let w4 : Way UploadState.created UploadState.validating = next w3 refl in
    let w5 : Way UploadState.created UploadState.importing = next w4 refl in next w5 refl

abbrev ops : List (ℕ × Op)
ops = (16, Op.purges) ∷ (15, Op.advances) ∷ (5, Op.deletes (Duration.forward 10)) ∷ []

lives : history ops ≡ ItemLifecycle.purged 5 15 16
unfolding history delete advance purge
lives = refl

history-IsMade_example : IsMade (history ops) ops
history-IsMade_example = history-IsMade ops

abbrev given : Text
given = codes "  Ada.L@Example.ORG "

abbrev kept : Text
kept = codes "Ada.L@example.org"

parses : Email.parse given ≡ ok kept
unfolding Email.parse rsplit_once to_ascii_lowercase
parses = refl

abbrev parsed : ParserMetadata
parsed = record {
  titles = codes " Emma " ∷ [];
  authors = codes "J. Austen" ∷ [];
  languages = [];
  identifiers = [];
}

abbrev catalogued : CatalogMetadata
catalogued = record {
  titles = codes "Emma" ∷ [];
  authors = codes "J. Austen" ∷ [];
  languages = [];
  identifiers = [];
}

catalogues : Metadata.from_parser parsed ≡ ok catalogued
unfolding Metadata.from_parser byte_len Metadata.parse_text is_control
catalogues = refl

from_parser-IsCatalogMetadata_example :
    IsCatalogMetadata catalogued
    × (catalogued.titles ≡ map trim parsed.titles)
    × (catalogued.authors ≡ map trim parsed.authors)
    × (catalogued.languages ≡ map trim parsed.languages)
    × (catalogued.identifiers ≡ map trim parsed.identifiers)
from_parser-IsCatalogMetadata_example =
    from_parser-IsCatalogMetadata parsed {kept = catalogued} catalogues

abbrev resources : List PublicationResource
resources = record { href = codes "t/a.xhtml"; media_type = codes "application/xhtml+xml" } ∷ []

abbrev spine : List SpineEntry
spine = record { href = codes "t/a.xhtml"; linear = true } ∷ []

from_parser_iff_example :
    ((publication : CatalogPublication) × (Publication.from_parser catalogued resources spine []
          none
        ≡ ok publication))
    ↔ IsPublication resources spine [] none
from_parser_iff_example = from_parser_iff catalogued resources spine [] none
