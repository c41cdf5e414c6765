-- ===== src/Epub/Ncx/Tests.antt =====
-- A table of contents of two chapters, the second inside the first, and instances of the theorems.
use folioharbor.Prelude.{
  All, List, [], arith, false, is_empty, length, map, none, refl, some, ◌∷◌, ◌≡◌,
}
use folioharbor.Prelude.Result.{ok}
use folioharbor.Text.Chars.{Text, codes, trim}
use folioharbor.Text.Split.{split, split_once, rsplit_once, before, join}
use folioharbor.Epub.Path.{resolve_path, new}
use folioharbor.Epub.Archive.{BoundedArchive, default_limits, check_processing, contains}
use folioharbor.Epub.Xml.{
  Attribute, attribute, Element, Event, start, empty, end_of, text, Reading, required_attribute,
}
use folioharbor.Epub.Ncx.State.{ncx_ns, TocEntry, new_state}
use folioharbor.Epub.Ncx.Run.{parse}
use folioharbor.Epub.Ncx.Invariant.{IsEntry}
use folioharbor.Epub.Ncx.Order.{opened_in, parse-IsEntry}
use folioharbor.Epub.Ncx.Places.{in_order, places_of}
use folioharbor.Epub.Ncx.Places.Laws.{parse-places}

abbrev archive : BoundedArchive
archive = record {
  entries = (codes "t/a.xhtml", []) ∷ (codes "t/b.xhtml", []) ∷ [];
  limits = default_limits;
}

abbrev element : Text → List Attribute → Element
element name attributes = record {
  namespace = some ncx_ns;
  local_name = name;
  attributes = attributes;
}

abbrev at_once : Event → Reading
at_once event = record { elapsed = 0; elapsed_inside = 0; event = event }

abbrev opens : Text → Reading
opens name = at_once (start (element name []))

abbrev closes : Text → Reading
closes name = at_once (end_of (element name []))

abbrev label_and_link : Text → Text → List Reading → List Reading
label_and_link label link rest =
    opens (codes "navLabel")
    ∷ opens (codes "text")
    ∷ at_once (text (some label))
    ∷ closes (codes "text")
    ∷ closes (codes "navLabel")
    ∷ at_once (empty (element (codes "content") (attribute none (codes "src") (some link) ∷ [])))
    ∷ rest

abbrev document : List Reading
document =
    opens (codes "ncx")
    ∷ opens (codes "navMap")
    ∷ opens (codes "navPoint")
    ∷ label_and_link (codes " One ") (codes "t/a.xhtml") (
        opens (codes "navPoint")
        ∷ label_and_link (codes "Two") (codes "t/b.xhtml#x") (
            closes (codes "navPoint")
            ∷ closes (codes "navPoint")
            ∷ closes (codes "navMap")
            ∷ closes (codes "ncx")
            ∷ []))

abbrev contents : List TocEntry
contents =
    record { label = codes "One"; href = codes "t/a.xhtml" }
    ∷ record { label = codes "Two"; href = codes "t/b.xhtml#x" }
    ∷ []

parses : parse archive (codes "toc.ncx") document 0 ≡ ok contents
unfolding parse resolve_path new split split_once rsplit_once before join trim contains
    check_processing required_attribute
parses = refl

parse-IsEntry_example : All (IsEntry archive) contents × (is_empty contents ≡ false)
parse-IsEntry_example =
    parse-IsEntry archive (codes "toc.ncx") document 0 {toc = contents} (omega arith) parses

parse-places_example :
    (in_order (places_of archive (codes "toc.ncx") document new_state []) ≡ map some contents)
    × (length contents ≡ opened_in document)
parse-places_example =
    parse-places archive (codes "toc.ncx") document 0 {toc = contents} (omega arith) parses
