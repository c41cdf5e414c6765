-- ===== src/Epub/Ncx/Steps.antt =====
-- What the NCX reader does at the start of an element: `start`, `empty` and their helpers in
-- crates/epub/src/ncx.rs.
use folioharbor.Prelude.{
  ℕ, true, false, not, ◌||◌, ◌&&◌, Option, none, some, List, [], ◌∷◌, if◌then◌else◌, ◌==◌, is_some,
  is_empty,
}
use folioharbor.Prelude.Result.{ok, ◌>>=◌, ◌>>◌}
use folioharbor.Text.Chars.{codes, text_eq}
use folioharbor.Epub.Error.{Checked, invalid_navigation}
use folioharbor.Epub.Path.{EpubPath}
use folioharbor.Epub.Links.{find_link}
use folioharbor.Epub.Archive.{BoundedArchive, check_processing}
use folioharbor.Epub.Xml.{Element, is_namespace, required_attribute, saturating_suc}
use folioharbor.Epub.Ncx.State.{
  ncx_ns, NavPoint, Label, NcxState, fail, Tag, ncx, nav_map, nav_point, nav_label, text_tag,
  content, other_tag, tag_of,
}

unfoldable pub start_nav_point : NcxState → Checked NcxState
start_nav_point s =
    if not (is_some s.nav_map_depth) || is_some s.label
    then fail
    else ok (record s {
      next_order = saturating_suc s.next_order;
      nav_points =
          record { depth = s.depth; order = s.next_order; label = none; href = none }
          ∷ s.nav_points;
    })

unfoldable pub start_label : NcxState → List NavPoint → Checked NcxState
start_label s [] = fail
start_label s (point ∷ points) =
    if is_some s.label || is_some point.label || not (s.depth == saturating_suc point.depth)
    then fail
    else ok (record s {
      label =
          some
            (record { nav_label_depth = s.depth; text_depth = none; saw_text = false; value = [] });
    })

unfoldable pub start_text : NcxState → Option Label → Checked NcxState
start_text s none = fail
start_text s (some label) =
    if label.saw_text
      || is_some label.text_depth
      || not (s.depth == saturating_suc label.nav_label_depth)
    then fail
    else ok
        (record s { label = some (record label { saw_text = true; text_depth = some s.depth }) })

-- The link's file must be an entry of the archive.
unfoldable pub target_of : BoundedArchive → EpubPath → Element → Checked EpubPath
unfolding find_link
target_of archive ncx_path element =
    required_attribute invalid_navigation element.attributes (codes "src") >>= λ source.
    find_link invalid_navigation (λ _. invalid_navigation) archive ncx_path source

unfoldable pub set_target :
    BoundedArchive → EpubPath → Element → NcxState → List NavPoint → Checked NcxState
unfolding target_of
set_target archive ncx_path element s [] = fail
set_target archive ncx_path element s (point ∷ points) =
    if is_some point.href
    then fail
    else (target_of archive ncx_path element >>= λ href.
        ok (record s { nav_points = record point { href = some href } ∷ points }))

unfoldable pub start_tag : BoundedArchive → EpubPath → Element → NcxState → Tag → Checked NcxState
unfolding start_nav_point start_label start_text set_target
start_tag archive ncx_path element s ncx = fail
start_tag archive ncx_path element s nav_map =
    if not (s.depth == 2) || s.saw_nav_map
    then fail
    else ok (record s { saw_nav_map = true; nav_map_depth = some s.depth })
start_tag archive ncx_path element s nav_point = start_nav_point s
start_tag archive ncx_path element s nav_label = start_label s s.nav_points
start_tag archive ncx_path element s text_tag =
    if is_some s.label || not (is_empty s.nav_points) then start_text s s.label else ok s
start_tag archive ncx_path element s content = set_target archive ncx_path element s s.nav_points
start_tag archive ncx_path element s other_tag = ok s

-- `start` behind the check of the depth.
unfoldable pub enter : BoundedArchive → EpubPath → Element → NcxState → Checked NcxState
unfolding start_tag
enter archive ncx_path element s =
    let is_ncx = is_namespace element.namespace ncx_ns in
    if s.depth == 1
    then (if not is_ncx || not (text_eq element.local_name (codes "ncx")) || s.saw_ncx
        then fail
        else ok (record s { saw_ncx = true }))
    else if is_some s.label && not is_ncx
    then fail
    else if not is_ncx
    then ok s
    else start_tag archive ncx_path element s (tag_of element.local_name)

unfoldable pub on_start : BoundedArchive → EpubPath → ℕ → Element → NcxState → Checked NcxState
unfolding enter
on_start archive ncx_path elapsed element s =
    let deeper = record s { depth = saturating_suc s.depth } in
    check_processing archive elapsed deeper.depth >> enter archive ncx_path element deeper

unfoldable pub empty_tag : BoundedArchive → EpubPath → Element → NcxState → Tag → Checked NcxState
unfolding set_target
empty_tag archive ncx_path element s content = set_target archive ncx_path element s s.nav_points
empty_tag archive ncx_path element s text_tag = ok s
empty_tag archive ncx_path element s other_tag = ok s
empty_tag archive ncx_path element s _ = fail

unfoldable pub on_empty : BoundedArchive → EpubPath → Element → NcxState → Checked NcxState
unfolding empty_tag
on_empty archive ncx_path element s =
    if is_some s.label
    then fail
    else if not (is_namespace element.namespace ncx_ns)
    then ok s
    else empty_tag archive ncx_path element s (tag_of element.local_name)
