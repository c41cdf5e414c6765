-- ===== src/Epub/Parser/Tests.antt =====
-- A run of the parser on the sample book, from the bytes of its archive to the catalog, and
-- instances of the theorems.
use mathlib.Core.Option
use folioharbor.Prelude.{List, String, [], false, none, refl, some, true, ℕ, ◌↔◌, ◌∷◌, ◌≡◌}
use folioharbor.Prelude.Result.{Result, err, map_all, ok}
use folioharbor.Text.Chars.{codes, is_ascii_alphanumeric, is_control, is_whitespace, trim}
use folioharbor.Text.Split.{before, join, rsplit_once, split, split_once}
use folioharbor.Text.Words.{has_word, nonempty, parts, split_ascii_whitespace}
use folioharbor.Text.Utf8.{byte_len, decode, encode}
use folioharbor.Domain.Metadata as Metadata
use folioharbor.Domain.Hrefs.{
  hex_digit, is_bad_fragment, is_bad_path, locate, new_spine, new_toc, normalized_href,
  normalized_locator, percent_decoded, unescape, validate_path,
}
use folioharbor.Domain.Publication as Publication
use folioharbor.Imports.Process.{PublicationParserError}
use folioharbor.Uploads.Receive.{BlobStoreError}
use folioharbor.Epub.Error.{EpubErrorCode}
use folioharbor.Epub.Path.{new, normalize_path, resolve_path}
use folioharbor.Epub.Archive.{check_deadline, check_processing, contains, default_limits, get}
use folioharbor.Epub.Xml.{optional_attribute, required_attribute}
use folioharbor.Epub.Links.{find_link, strip_fragment}
use folioharbor.Epub.Reader.{read_events}
use folioharbor.Epub.Eocd.{
  check_counts, check_eocd, check_place, check_tail, find_eocd, find_eocd_below, is_eocd, preflight,
  read_u16, read_u32,
}
use folioharbor.Epub.Load.{
  Member, check_header, check_limits, fill, load, open_member, opened, read, scan,
}
use folioharbor.Epub.Container as Container
use folioharbor.Epub.Navigation as Navigation
use folioharbor.Epub.Package.Items as Items
use folioharbor.Epub.Package.State as State
use folioharbor.Epub.Package.Steps as Steps
use folioharbor.Epub.Package.Run as Run
use folioharbor.Epub.Package.Manifest as Manifest
use folioharbor.Epub.Package.Fallback as Fallback
use folioharbor.Epub.Package.Navigate as Navigate
use folioharbor.Epub.Package.Build as Build
use folioharbor.Epub.Parser as Parser
use folioharbor.Epub.Parser.Laws.{
  IsAccepted, IsMisuse, parser_parse-IsAccepted, parser_parse_error_iff,
}
use folioharbor.Epub.Sample.{xml, xml_small}

-- A record of four entries, without a comment.
abbrev tail_bytes : List ℕ
tail_bytes =
    80 ∷ 75 ∷ 5 ∷ 6 ∷ 0 ∷ 0 ∷ 0 ∷ 0 ∷ 4 ∷ 0 ∷ 4 ∷ 0 ∷ 0 ∷ 0 ∷ 0 ∷ 0 ∷ 0 ∷ 0 ∷ 0 ∷ 0 ∷ 0 ∷ 0 ∷ []

abbrev member : String → ℕ → Member
member name byte = record {
  before_header = 2;
  header =
      some (record { encrypted = false; name_raw = codes name; size = 1; compressed_size = 1 });
  before_opening = 3;
  opening = opened (record { before_read = 4; outcome = some (byte ∷ []) } ∷ []) 6;
}

abbrev file : Parser.OpenedFile
file = record {
  started = 0;
  source = record { source_len = some 22; read_exact = λ offset n. some tail_bytes; elapsed = 1 };
  rewinds = true;
  members = some (
      member "META-INF/container.xml" 1
      ∷ member "p.opf" 2
      ∷ member "n.xhtml" 3
      ∷ member "c.xhtml" 4
      ∷ []);
}

abbrev taken : Publication.CatalogPublication
taken = record {
  metadata = record { titles = codes "T" ∷ []; authors = []; languages = []; identifiers = [] };
  resources =
      record { href = codes "c.xhtml"; media_type = codes "application/xhtml+xml" }
      ∷ record { href = codes "n.xhtml"; media_type = codes "application/xhtml+xml" }
      ∷ [];
  spine = record { href = codes "c.xhtml"; linear = true } ∷ [];
  toc = record { label = codes "One"; href = codes "c.xhtml#s" } ∷ [];
  cover_href = none;
}

accepts : Parser.parse xml default_limits (ok file) ≡ ok taken
unfolding Option.bind Metadata.from_parser Metadata.parse_text Metadata.map_values byte_len encode
    is_control is_ascii_alphanumeric is_whitespace Publication.new_resource Publication.from_parser
    Publication.collect_set normalized_href validate_path percent_decoded unescape hex_digit
    is_bad_path new_spine new_toc normalized_locator locate is_bad_fragment Parser.parse
    Parser.inspect Parser.map_publication read preflight check_tail find_eocd find_eocd_below
    is_eocd check_eocd read_u16 read_u32 check_counts check_place check_deadline scan check_header
    check_limits normalize_path decode load open_member fill Container.package_path
    Container.on_event Container.enter Container.on_empty Container.take_rootfile Container.on_end
    Container.finish map_all Publication.holds read_events check_processing new get contains split
    join has_word split_ascii_whitespace nonempty parts required_attribute optional_attribute
    find_link strip_fragment resolve_path rsplit_once split_once before trim Navigation.parse
    Navigation.new_state Navigation.on_event Navigation.enter Navigation.start_tag
    Navigation.has_toc_type Navigation.start_nav Navigation.start_anchor Navigation.close_anchor
    Navigation.empty_nav Navigation.finish Navigation.leave Navigation.on_empty Navigation.on_end
    Navigation.text_value Items.is_structural Items.package_link Items.parse_manifest_item
    Items.insert_new Items.add_manifest_item Items.add_spine_ref Items.set_cover_id
    Items.set_property Items.add_metadata_meta Items.set_guide_cover Items.add_guide_reference
    Items.add_child State.new_state State.parse_version State.push_warning
    State.push_compatibility_warning Steps.open_once Steps.open_section Steps.start_section
    Steps.start_root Steps.start_field Steps.enter Steps.on_start Steps.on_empty Run.push_metadata
    Run.take_text Run.on_text Run.on_end Run.on_event Run.finish Run.read_document Manifest.text_lt
    Manifest.lookup Manifest.insert_item Manifest.values Fallback.is_readable_spine_item
    Fallback.search Fallback.readable_manifest_item Navigate.navigation_items Navigate.ncx_choice
    Navigate.nav_choice Navigate.preferred_navigation Navigate.navigation_alternatives
    Navigate.item_bytes Navigate.parse_navigation_document Navigate.alternative_toc Navigate.toc_by
    Navigate.select_toc Build.catalog_media_type Build.resolve_spine Build.resource_of
    Build.find_file Build.manifest_resource_href Build.find_cover_image Build.cover_of
    Build.build_publication Build.parse
accepts = refl

parser_parse-IsAccepted_example : IsAccepted default_limits taken
parser_parse-IsAccepted_example =
    parser_parse-IsAccepted default_limits xml xml_small (ok file) {publication = taken} accepts

abbrev failed : Result Parser.OpenedFile BlobStoreError
failed = err BlobStoreError.io

parser_parse_error_iff_example :
    ((Parser.parse xml default_limits failed ≡ err PublicationParserError.parser_unavailable)
      ↔ (failed ≡ err BlobStoreError.io))
    × ((Parser.parse xml default_limits failed ≡ err PublicationParserError.capacity)
        ↔ (failed ≡ err BlobStoreError.insufficient_capacity))
    × ((Parser.parse xml default_limits failed ≡ err PublicationParserError.configuration)
        ↔ (failure : BlobStoreError) × (failed ≡ err failure) × IsMisuse default_limits failure)
    × ((Parser.parse xml default_limits failed ≡ err PublicationParserError.encrypted_content)
        ↔ (file : Parser.OpenedFile) × (failed ≡ ok file)
          × (Parser.inspect xml file default_limits ≡ err EpubErrorCode.encrypted_content))
    × ((Parser.parse xml default_limits failed ≡ err PublicationParserError.invalid_navigation)
        ↔ (file : Parser.OpenedFile) × (failed ≡ ok file)
          × (Parser.inspect xml file default_limits ≡ err EpubErrorCode.invalid_navigation))
parser_parse_error_iff_example = parser_parse_error_iff default_limits xml failed
