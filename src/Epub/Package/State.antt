-- ===== src/Epub/Package/State.antt =====
-- The data of the reader of the package document: the types of crates/epub/src/package.rs.
use folioharbor.Prelude.{
  Bool, List, Option, [], false, if◌then◌else◌, leb, length, ltb, none, some, take, ℕ, ◌++◌, ◌-◌,
  ◌||◌, ◌∷◌,
}
use folioharbor.Prelude.Result.{err}
use folioharbor.Text.Chars.{Text, codes, text_eq}
use folioharbor.Epub.Error.{Checked, invalid_package}
use folioharbor.Epub.Path.{EpubPath}
use folioharbor.Epub.Ncx.State.{TocEntry}
use folioharbor.Epub.Package.Manifest.{Manifest}

abbrev pub opf_ns : Text
opf_ns = codes "http://www.idpf.org/2007/opf"

abbrev pub dc_ns : Text
dc_ns = codes "http://purl.org/dc/elements/1.1/"

abbrev pub max_warnings : ℕ
max_warnings = 32

pub data PackageVersion : Type 0 where
  epub_two epub_three : PackageVersion

-- `PackageVersion::parse`
unfoldable pub parse_version : Option Text → Option PackageVersion
parse_version none = none
parse_version (some value) =
    if text_eq value (codes "2.0") || text_eq value (codes "2.0.1")
    then some epub_two
    else if text_eq value (codes "3.0")
        || text_eq value (codes "3.1")
        || text_eq value (codes "3.2")
        || text_eq value (codes "3.3")
    then some epub_three
    else none

pub record Metadata : Type 0 where
  pub titles : List Text
  pub authors : List Text
  pub languages : List Text
  pub identifiers : List Text

pub record Resource : Type 0 where
  pub id : Text
  pub href : EpubPath
  pub media_type : Text

pub record SpineItem : Type 0 where
  pub href : EpubPath
  pub linear : Bool

pub record ParsedPublication : Type 0 where
  pub metadata : Metadata
  pub spine : List SpineItem
  pub resources : List Resource
  pub toc : List TocEntry
  pub cover : Option EpubPath
  pub warnings : List Text

pub record PackageDocument : Type 0 where
  pub version : PackageVersion
  pub metadata : Metadata
  pub manifest : Manifest
  pub order : List Text
  pub spine_refs : List (Text × Bool)
  pub ncx_id : Option Text
  pub epub_two_cover_id : Option Text
  pub guide_cover : Option EpubPath
  pub warnings : List Text

pub data PackageSection : Type 0 where
  metadata_section manifest_section spine_section guide_section : PackageSection

-- The archive and the document's own path are arguments here; the set of seen sections is a list.
pub record PackageState : Type 0 where
  pub document : PackageDocument
  pub metadata_field : Option Text
  pub unknown_property : Option Text
  pub depth : ℕ
  pub saw_package : Bool
  pub seen_sections : List PackageSection
  pub section : Option PackageSection

unfoldable pub new_state : PackageState
new_state = record {
  document = record {
    version = epub_three;
    metadata = record { titles = []; authors = []; languages = []; identifiers = [] };
    manifest = [];
    order = [];
    spine_refs = [];
    ncx_id = none;
    epub_two_cover_id = none;
    guide_cover = none;
    warnings = [];
  };
  metadata_field = none;
  unknown_property = none;
  depth = 0;
  saw_package = false;
  seen_sections = [];
  section = none;
}

abbrev pub invalid {ℓ} : {A : Type ℓ} → Checked A
invalid = err invalid_package

unfoldable pub push_warning : List Text → Text → List Text
push_warning warnings warning =
    if ltb (length warnings) max_warnings then warnings ++ warning ∷ [] else warnings

unfoldable pub push_compatibility_warning : List Text → Text → List Text
push_compatibility_warning warnings warning =
    if leb max_warnings (length warnings)
    then warning ∷ take (max_warnings - 1) warnings
    else warning ∷ warnings
