-- ===== src/Epub/Package/Tests.antt =====
-- The readers on the sample book, and instances of the theorems.
use mathlib.Core.Option
use folioharbor.Prelude.{
  All, List, Option, String, [], false, is_empty, none, refl, some, true, ℕ, ◌↔◌, ◌∷◌, ◌≡◌,
}
use folioharbor.Prelude.Result.{err, map_all, ok}
use folioharbor.Text.Chars.{Text, codes, trim}
use folioharbor.Text.Split.{before, join, rsplit_once, split, split_once}
use folioharbor.Text.Words.{has_word, nonempty, parts, split_ascii_whitespace}
use folioharbor.Epub.Path.{new, resolve_path}
use folioharbor.Epub.Path.Laws.{IsNormal}
use folioharbor.Epub.Archive.{check_processing, contains, get}
use folioharbor.Epub.Xml.{optional_attribute, required_attribute}
use folioharbor.Epub.Error.{Checked, invalid_spine}
use folioharbor.Epub.Links.{find_link, strip_fragment}
use folioharbor.Epub.Reader.{read_events}
use folioharbor.Epub.Ncx.State.{TocEntry}
use folioharbor.Epub.Ncx.Invariant.{IsEntry}
use folioharbor.Epub.Container as Container
use folioharbor.Epub.Container.Laws.{package_path-held}
use folioharbor.Epub.Navigation as Navigation
use folioharbor.Epub.Navigation.Laws.{nav_parse-IsEntry}
use folioharbor.Epub.Package.Items as Items
use folioharbor.Epub.Package.State as State
use folioharbor.Epub.Package.Steps as Steps
use folioharbor.Epub.Package.Run as Run
use folioharbor.Epub.Package.Manifest as Manifest
use folioharbor.Epub.Package.Fallback as Fallback
use folioharbor.Epub.Package.Navigate as Navigate
use folioharbor.Epub.Package.Build as Build
use folioharbor.Epub.Package.State.{ParsedPublication}
use folioharbor.Epub.Package.Laws.{IsPublication, package_parse-IsPublication}
use folioharbor.Epub.Package.Fallback.Laws.{
  Leads, readable_manifest_item-ends, readable_manifest_item_iff,
}
use folioharbor.Domain.Publication.{holds}
use folioharbor.Epub.Sample.{archive, xml, xml_small}

finds_package : Container.package_path xml archive ≡ ok (codes "p.opf")
unfolding read_events check_processing new get contains split join Container.package_path
    Container.on_event Container.enter Container.on_empty Container.take_rootfile Container.on_end
    Container.finish
finds_package = refl

package_path-held_example : IsNormal (codes "p.opf") × (contains archive (codes "p.opf") ≡ true)
package_path-held_example = package_path-held archive xml {path = codes "p.opf"} finds_package

abbrev contents : List TocEntry
contents = record { label = codes "One"; href = codes "c.xhtml#s" } ∷ []

reads_navigation : Navigation.parse archive (xml (3 ∷ [])) (codes "n.xhtml") ≡ ok contents
unfolding read_events check_processing new get contains split join has_word split_ascii_whitespace
    nonempty parts required_attribute optional_attribute find_link strip_fragment resolve_path
    rsplit_once split_once before trim Navigation.parse Navigation.new_state Navigation.on_event
    Navigation.enter Navigation.start_tag Navigation.has_toc_type Navigation.start_nav
    Navigation.start_anchor Navigation.close_anchor Navigation.empty_nav Navigation.finish
    Navigation.leave Navigation.on_empty Navigation.on_end Navigation.text_value
reads_navigation = refl

nav_parse-IsEntry_example : All (IsEntry archive) contents × (is_empty contents ≡ false)
nav_parse-IsEntry_example =
    nav_parse-IsEntry archive (codes "n.xhtml") (xml (3 ∷ [])) {toc = contents} reads_navigation

abbrev book : ParsedPublication
book = record {
  metadata = record { titles = codes "T" ∷ []; authors = []; languages = []; identifiers = [] };
  spine = record { href = codes "c.xhtml"; linear = true } ∷ [];
  resources =
      record { id = codes "c"; href = codes "c.xhtml"; media_type = codes "application/xhtml+xml" }
      ∷ record {
        id = codes "n";
        href = codes "n.xhtml";
        media_type = codes "application/xhtml+xml";
      }
      ∷ [];
  toc = contents;
  cover = none;
  warnings = [];
}

reads_book : Build.parse xml archive (codes "p.opf") ≡ ok book
unfolding Option.bind map_all holds read_events check_processing new get contains split join
    has_word split_ascii_whitespace nonempty parts required_attribute optional_attribute find_link
    strip_fragment resolve_path rsplit_once split_once before trim Navigation.parse
    Navigation.new_state Navigation.on_event Navigation.enter Navigation.start_tag
    Navigation.has_toc_type Navigation.start_nav Navigation.start_anchor Navigation.close_anchor
    Navigation.empty_nav Navigation.finish Navigation.leave Navigation.on_empty Navigation.on_end
    Navigation.text_value Items.is_structural Items.package_link Items.parse_manifest_item
    Items.insert_new Items.add_manifest_item Items.add_spine_ref Items.set_cover_id
    Items.set_property Items.add_metadata_meta Items.set_guide_cover Items.add_guide_reference
    Items.add_child State.new_state State.parse_version State.push_warning
    State.push_compatibility_warning Steps.open_once Steps.open_section Steps.start_section
    Steps.start_root Steps.start_field Steps.enter Steps.on_start Steps.on_empty Run.push_metadata
    Run.take_text Run.on_text Run.on_end Run.on_event Run.finish Run.read_document Manifest.text_lt
    Manifest.lookup Manifest.insert_item Manifest.values Fallback.is_readable_spine_item
    Fallback.search Fallback.readable_manifest_item Navigate.navigation_items Navigate.ncx_choice
    Navigate.nav_choice Navigate.preferred_navigation Navigate.navigation_alternatives
    Navigate.item_bytes Navigate.parse_navigation_document Navigate.alternative_toc Navigate.toc_by
    Navigate.select_toc Build.catalog_media_type Build.resolve_spine Build.resource_of
    Build.find_file Build.manifest_resource_href Build.find_cover_image Build.cover_of
    Build.build_publication Build.parse
reads_book = refl

package_parse-IsPublication_example : IsPublication archive book
package_parse-IsPublication_example =
    package_parse-IsPublication xml archive (codes "p.opf") xml_small {p = book} reads_book

-- A chain of two fallbacks, and one that goes round.
abbrev item : String → String → Option Text → Manifest.ManifestItem
item href media_type fallback = record {
  href = codes href;
  media_type = codes media_type;
  properties = [];
  fallback = fallback;
}

abbrev chain : Manifest.Manifest
chain =
    (codes "a", item "a.pdf" "application/pdf" (some (codes "b")))
    ∷ (codes "b", item "b.svg" "image/svg+xml" none)
    ∷ (codes "r", item "r.pdf" "application/pdf" (some (codes "r")))
    ∷ []

goes_round :
    Fallback.readable_manifest_item State.epub_three chain (codes "r") ≡ some (err invalid_spine)
unfolding Fallback.readable_manifest_item Fallback.search Fallback.is_readable_spine_item
    Manifest.lookup holds
goes_round = refl

readable_manifest_item-ends_example :
    (r : Checked (Text × Manifest.ManifestItem)) × (Fallback.readable_manifest_item State.epub_three
        chain
        (codes "r")
      ≡ some r)
readable_manifest_item-ends_example = readable_manifest_item-ends State.epub_three chain (codes "r")

readable_manifest_item_iff_example :
    (Fallback.readable_manifest_item State.epub_three chain (codes "a")
      ≡ some (ok (codes "b", item "b.svg" "image/svg+xml" none)))
    ↔ (n : ℕ) × Leads State.epub_three chain n
        (codes "a")
        (codes "b", item "b.svg" "image/svg+xml" none)
readable_manifest_item_iff_example =
    readable_manifest_item_iff State.epub_three chain (codes "a")
      (codes "b", item "b.svg" "image/svg+xml" none)
