-- ===== src/Epub/Sample.antt =====
-- A small book of one chapter with a navigation document, for the tests.
use folioharbor.Prelude.{
  List, String, [], arith, if◌then◌else◌, length, none, some, ℕ, ◌==◌, ◌∷◌, ◌≤◌,
}
use folioharbor.Text.Chars.{Text, codes}
use folioharbor.Epub.Archive.{BoundedArchive, default_limits}
use folioharbor.Epub.Xml.{
  Attribute, Element, Event, Reading, attribute, empty, end_of, start, text, usize_max,
}
use folioharbor.Epub.Reader.{Document}
use folioharbor.Epub.Container.{container_ns}
use folioharbor.Epub.Navigation.{epub_ns, xhtml_ns}
use folioharbor.Epub.Package.State.{opf_ns, dc_ns}

abbrev pub archive : BoundedArchive
archive = record {
  entries =
      (codes "META-INF/container.xml", 1 ∷ [])
      ∷ (codes "p.opf", 2 ∷ [])
      ∷ (codes "n.xhtml", 3 ∷ [])
      ∷ (codes "c.xhtml", 4 ∷ [])
      ∷ [];
  limits = default_limits;
}

abbrev at_once : Event → Reading
at_once event = record { elapsed = 0; elapsed_inside = 0; event = event }

abbrev tag : Text → Text → List Attribute → Element
tag namespace name attributes = record {
  namespace = some namespace;
  local_name = name;
  attributes = attributes;
}

abbrev has : String → String → Attribute
has name value = attribute none (codes name) (some (codes value))

abbrev opens : Text → String → List Attribute → Reading
opens namespace name attributes = at_once (start (tag namespace (codes name) attributes))

abbrev closes : Text → String → Reading
closes namespace name = at_once (end_of (tag namespace (codes name) []))

abbrev alone : Text → String → List Attribute → Reading
alone namespace name attributes = at_once (empty (tag namespace (codes name) attributes))

abbrev says : String → Reading
says value = at_once (text (some (codes value)))

abbrev pub container_document : List Reading
container_document =
    opens container_ns "container" []
    ∷ opens container_ns "rootfiles" []
    ∷ alone container_ns "rootfile" (has "full-path" "p.opf" ∷ [])
    ∷ closes container_ns "rootfiles"
    ∷ closes container_ns "container"
    ∷ []

abbrev pub package_document : List Reading
package_document =
    opens opf_ns "package" (has "version" "3.0" ∷ [])
    ∷ opens opf_ns "metadata" []
    ∷ opens dc_ns "title" []
    ∷ says "T"
    ∷ closes dc_ns "title"
    ∷ closes opf_ns "metadata"
    ∷ opens opf_ns "manifest" []
    ∷ alone opf_ns "item"
        (has "id" "c" ∷ has "href" "c.xhtml" ∷ has "media-type" "application/xhtml+xml" ∷ [])
    ∷ alone opf_ns "item" (
        has "id" "n"
        ∷ has "href" "n.xhtml"
        ∷ has "media-type" "application/xhtml+xml"
        ∷ has "properties" "nav"
        ∷ [])
    ∷ closes opf_ns "manifest"
    ∷ opens opf_ns "spine" []
    ∷ alone opf_ns "itemref" (has "idref" "c" ∷ [])
    ∷ closes opf_ns "spine"
    ∷ closes opf_ns "package"
    ∷ []

abbrev pub navigation_document : List Reading
navigation_document =
    opens xhtml_ns "html" []
    ∷ opens xhtml_ns "nav" (attribute (some epub_ns) (codes "type") (some (codes "toc")) ∷ [])
    ∷ opens xhtml_ns "a" (has "href" "c.xhtml#s" ∷ [])
    ∷ says " One "
    ∷ closes xhtml_ns "a"
    ∷ closes xhtml_ns "nav"
    ∷ closes xhtml_ns "html"
    ∷ []

-- The events of a file, by its first byte.
abbrev readings_of : List ℕ → List Reading
readings_of [] = []
readings_of (b ∷ bytes) =
    if b == 1
    then container_document
    else if b == 2
    then package_document
    else if b == 3
    then navigation_document
    else []

abbrev pub xml : List ℕ → Document
xml bytes = record { readings = readings_of bytes; last = 0 }

pub xml_small : (bytes : List ℕ) → length (xml bytes).readings ≤ usize_max
xml_small [] = omega arith
xml_small (b ∷ bytes) = ground arith
