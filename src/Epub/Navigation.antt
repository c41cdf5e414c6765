-- ===== src/Epub/Navigation.antt =====
-- The reader of an EPUB 3 navigation document: crates/epub/src/navigation.rs. The events of the
-- document are a parameter.
pub mod Laws
use folioharbor.Prelude.{
  Bool, List, Option, [], false, if◌then◌else◌, is_empty, is_some, none, not, some, true, ℕ, ◌&&◌,
  ◌++◌, ◌-◌, ◌==◌, ◌||◌, ◌∷◌,
}
use folioharbor.Prelude.Result.{ok, err, ok_or, ◌>>=◌, ◌>>◌}
use folioharbor.Text.Chars.{Text, codes, text_eq, trim}
use folioharbor.Text.Words.{has_word}
use folioharbor.Epub.Error.{Checked, invalid_navigation}
use folioharbor.Epub.Path.{EpubPath}
use folioharbor.Epub.Archive.{BoundedArchive, check_processing}
use folioharbor.Epub.Xml.{
  Attribute, Element, Event, attribute, empty, end_of, is_namespace, malformed, malformed_attribute,
  required_attribute, saturating_suc, start, text,
}
use folioharbor.Epub.Links.{find_link}
use folioharbor.Epub.Reader.{Document, read_events}
use folioharbor.Epub.Ncx.State.{TocEntry, fail, is_at}

abbrev pub xhtml_ns : Text
xhtml_ns = codes "http://www.w3.org/1999/xhtml"

abbrev pub epub_ns : Text
epub_ns = codes "http://www.idpf.org/2007/ops"

-- An open anchor: its depth, its link, and its text so far.
pub record Anchor : Type 0 where
  pub anchor_depth : ℕ
  pub href : EpubPath
  pub label : Text

-- The archive and the document's own path are arguments here.
pub record NavigationState : Type 0 where
  pub saw_html : Bool
  pub saw_toc : Bool
  pub toc_depth : Option ℕ
  pub current_anchor : Option Anchor
  pub toc : List TocEntry
  pub depth : ℕ

unfoldable pub new_state : NavigationState
new_state = record {
  saw_html = false;
  saw_toc = false;
  toc_depth = none;
  current_anchor = none;
  toc = [];
  depth = 0;
}

-- The first attribute `type` of the EPUB namespace, whose words are looked at.
unfoldable pub has_toc_type : List Attribute → Checked Bool
has_toc_type [] = ok false
has_toc_type (malformed_attribute ∷ attributes) = fail
has_toc_type (attribute namespace local value ∷ attributes) =
    let others = has_toc_type attributes in
    if is_namespace namespace epub_ns && text_eq local (codes "type")
    then (ok_or value invalid_navigation >>= λ words. ok (has_word words (codes "toc")))
    else others

-- The start of a `nav` or an `a`.
unfoldable pub start_nav : Bool → NavigationState → Checked NavigationState
start_nav is_toc s =
    if not is_toc
    then ok s
    else if s.saw_toc || is_some s.toc_depth
    then fail
    else ok (record s { saw_toc = true; toc_depth = some s.depth })

unfoldable pub start_anchor :
    BoundedArchive → EpubPath → List Attribute → NavigationState → Checked NavigationState
start_anchor archive nav_path attributes s = if is_some s.current_anchor then fail else do
  reference ← required_attribute invalid_navigation attributes (codes "href")
  href ← find_link invalid_navigation (λ code. invalid_navigation) archive nav_path reference
  ok (record s {
    current_anchor = some (record { anchor_depth = s.depth; href = href; label = [] });
  })

-- The second half of `start`, with whether the element is of XHTML.
unfoldable pub start_tag :
    BoundedArchive → EpubPath → Bool → Element → NavigationState → Checked NavigationState
start_tag archive nav_path ours element s =
    if ours && text_eq element.local_name (codes "nav")
    then (has_toc_type element.attributes >>= λ is_toc. start_nav is_toc s)
    else if ours && (text_eq element.local_name (codes "a") && is_some s.toc_depth)
    then start_anchor archive nav_path element.attributes s
    else ok s

-- The first half: the root is `html`, and no other element is.
unfoldable pub enter :
    BoundedArchive → EpubPath → Element → NavigationState → Checked NavigationState
enter archive nav_path element s =
    let ours = is_namespace element.namespace xhtml_ns in
    let is_html = text_eq element.local_name (codes "html") in
    if s.depth == 1
    then (if not ours || not is_html
        then fail
        else start_tag archive nav_path ours element (record s { saw_html = true }))
    else if ours && is_html
    then fail
    else start_tag archive nav_path ours element s

unfoldable pub empty_nav : Bool → NavigationState → Checked NavigationState
empty_nav is_toc s =
    if not is_toc then ok s else if s.saw_toc then fail else ok (record s { saw_toc = true })

unfoldable pub on_empty : Element → NavigationState → Checked NavigationState
on_empty element s =
    if is_namespace element.namespace xhtml_ns && text_eq element.local_name (codes "nav")
    then (has_toc_type element.attributes >>= λ is_toc. empty_nav is_toc s)
    else ok s

-- A text goes to the open anchor; outside of one it is not decoded.
unfoldable pub text_value : Option Text → Option Anchor → NavigationState → Checked NavigationState
text_value value none s = ok s
text_value value (some anchor) s = ok_or value invalid_navigation >>= λ decoded.
    ok (record s { current_anchor = some (record anchor { label = anchor.label ++ decoded }) })

abbrev pub is_anchor_at : Option Anchor → ℕ → Bool
is_anchor_at none depth = false
is_anchor_at (some anchor) depth = anchor.anchor_depth == depth

-- The end of the open anchor.
unfoldable pub close_anchor : Option Anchor → NavigationState → Checked NavigationState
close_anchor none s = fail
close_anchor (some anchor) s =
    if is_empty (trim anchor.label)
    then fail
    else ok (record s {
      current_anchor = none;
      toc = s.toc ++ record { label = trim anchor.label; href = anchor.href } ∷ [];
    })

-- The rest of `end`.
unfoldable pub leave : Bool → Text → NavigationState → Checked NavigationState
leave ours local s =
    if s.depth == 1 && (not ours || not (text_eq local (codes "html")))
    then fail
    else ok (record s {
      toc_depth =
          if ours && (text_eq local (codes "nav") && is_at s.toc_depth s.depth)
          then none
          else s.toc_depth;
      depth = s.depth - 1;
    })

unfoldable pub on_end : Element → NavigationState → Checked NavigationState
on_end element s =
    let ours = is_namespace element.namespace xhtml_ns in
    let local = element.local_name in
    (if ours && (text_eq local (codes "a") && is_anchor_at s.current_anchor s.depth)
      then close_anchor s.current_anchor s
      else ok s)
    >>= λ s'. leave ours local s'

unfoldable pub on_event :
    BoundedArchive → EpubPath → ℕ → Event → NavigationState → Checked NavigationState
on_event archive nav_path elapsed (start element) s =
    let deeper = record s { depth = saturating_suc s.depth } in
    check_processing archive elapsed deeper.depth >> enter archive nav_path element deeper
on_event archive nav_path elapsed (empty element) s = on_empty element s
on_event archive nav_path elapsed (text value) s = text_value value s.current_anchor s
on_event archive nav_path elapsed (end_of element) s = on_end element s
on_event archive nav_path elapsed malformed s = fail
on_event archive nav_path elapsed _ s = ok s

unfoldable pub finish : NavigationState → Checked (List TocEntry)
finish s =
    if not s.saw_html
      || not s.saw_toc
      || is_empty s.toc
      || not (s.depth == 0)
      || is_some s.toc_depth
    then fail
    else ok s.toc

unfoldable pub parse : BoundedArchive → Document → EpubPath → Checked (List TocEntry)
parse archive document nav_path =
    read_events (λ s. s.depth) (on_event archive nav_path) archive document.readings document.last
      new_state
    >>= finish
