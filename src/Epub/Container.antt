-- ===== src/Epub/Container.antt =====
-- The reader of `META-INF/container.xml`: `package_path` of crates/epub/src/container.rs. The XML
-- library is a parameter: `xml` gives the events of a document.
pub mod Laws
use folioharbor.Prelude.{
  Bool, List, Option, [], false, if◌then◌else◌, is_some, none, not, some, true, ℕ, ◌&&◌, ◌-◌, ◌==◌,
  ◌||◌, ◌∷◌,
}
use folioharbor.Prelude.Result.{ok, err, ok_or, ◌>>=◌, ◌>>◌}
use folioharbor.Text.Chars.{Text, codes, text_eq}
use folioharbor.Epub.Error.{Checked, invalid_container, missing_package}
use folioharbor.Epub.Path.{EpubPath, new}
use folioharbor.Epub.Archive.{BoundedArchive, get, contains, check_processing}
use folioharbor.Epub.Xml.{
  Attribute, Element, Event, attribute, empty, end_of, is_namespace, malformed, malformed_attribute,
  saturating_suc, start,
}
use folioharbor.Epub.Reader.{Document, read_events}

abbrev pub container_path_text : Text
container_path_text = codes "META-INF/container.xml"

abbrev pub container_ns : Text
container_ns = codes "urn:oasis:names:tc:opendocument:xmlns:container"

-- The variables of the loop.
pub record ContainerState : Type 0 where
  pub rootfile : Option EpubPath
  pub depth : ℕ
  pub saw_container : Bool
  pub saw_rootfiles : Bool
  pub in_rootfiles : Bool

abbrev pub start_state : ContainerState
start_state = record {
  rootfile = none;
  depth = 0;
  saw_container = false;
  saw_rootfiles = false;
  in_rootfiles = false;
}

abbrev invalid {ℓ} : {A : Type ℓ} → Checked A
invalid = err invalid_container

-- A start tag, behind the check of the depth.
unfoldable pub enter : Element → ContainerState → Checked ContainerState
enter element s =
    let ours = is_namespace element.namespace container_ns in
    let local = element.local_name in
    if s.depth == 1
    then (if not ours || not (text_eq local (codes "container"))
        then invalid
        else ok (record s { saw_container = true }))
    else if s.depth == 2 && text_eq local (codes "rootfiles")
    then (if not ours || not s.saw_container || s.saw_rootfiles
        then invalid
        else ok (record s { saw_rootfiles = true; in_rootfiles = true }))
    else if text_eq local (codes "container") || text_eq local (codes "rootfile")
    then invalid
    else ok s

-- The loop over the attributes of a `rootfile`.
unfoldable pub take_rootfile : List Attribute → ContainerState → Checked ContainerState
take_rootfile [] s = ok s
take_rootfile (malformed_attribute ∷ attributes) s = invalid
take_rootfile (attribute _ local value ∷ attributes) s =
    let others = take_rootfile attributes s in
    if not (text_eq local (codes "full-path")) then others else do
      decoded ← ok_or value invalid_container
      path ← new decoded
      if is_some s.rootfile
          then invalid
          else take_rootfile attributes (record s { rootfile = some path })

-- An empty tag.
unfoldable pub on_empty : Element → ContainerState → Checked ContainerState
on_empty element s =
    let local = element.local_name in
    if is_namespace element.namespace container_ns
      && (text_eq local (codes "rootfile") && (s.depth == 2 && s.in_rootfiles))
    then take_rootfile element.attributes s
    else if text_eq local (codes "container")
        || text_eq local (codes "rootfiles")
        || text_eq local (codes "rootfile")
    then invalid
    else ok s

unfoldable pub on_end : Element → ContainerState → Checked ContainerState
on_end element s =
    let ours = is_namespace element.namespace container_ns in
    let local = element.local_name in
    if s.depth == 2 && text_eq local (codes "rootfiles")
    then (if not ours || not s.in_rootfiles
        then invalid
        else ok (record s { in_rootfiles = false; depth = s.depth - 1 }))
    else if s.depth == 1 && (not ours || not (text_eq local (codes "container")))
    then invalid
    else ok (record s { depth = s.depth - 1 })

unfoldable pub on_event : BoundedArchive → ℕ → Event → ContainerState → Checked ContainerState
on_event archive elapsed (start element) s =
    let deeper = record s { depth = saturating_suc s.depth } in
    check_processing archive elapsed deeper.depth >> enter element deeper
on_event archive elapsed (empty element) s = on_empty element s
on_event archive elapsed (end_of element) s = on_end element s
on_event archive elapsed malformed s = invalid
on_event archive elapsed _ s = ok s

abbrev pub is_unfinished : ContainerState → Bool
is_unfinished s = not s.saw_container || not s.saw_rootfiles || not (s.depth == 0) || s.in_rootfiles

-- The end of the loop.
unfoldable pub finish : BoundedArchive → ContainerState → Checked EpubPath
finish archive s = if is_unfinished s then invalid else do
  path ← ok_or s.rootfile invalid_container
  if contains archive path then ok path else err missing_package

unfoldable pub package_path : (List ℕ → Document) → BoundedArchive → Checked EpubPath
package_path xml archive = do
  container_path ← new container_path_text
  bytes ← ok_or (get archive container_path) invalid_container
  s ←
      read_events (λ s. s.depth) (on_event archive) archive (xml bytes).readings (xml bytes).last
        start_state
  finish archive s
