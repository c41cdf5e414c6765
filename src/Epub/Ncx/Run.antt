-- ===== src/Epub/Ncx/Run.antt =====
-- Text, the end of an element, the loop and the result of the NCX reader: crates/epub/src/ncx.rs.
use folioharbor.Prelude.{
  ℕ, ◌-◌, Bool, not, ◌||◌, ◌&&◌, Option, none, some, List, [], ◌∷◌, ◌++◌, map, if◌then◌else◌, leb,
  ◌==◌, is_some, is_empty,
}
use folioharbor.Prelude.Result.{ok, ok_or, ◌>>=◌, ◌>>◌}
use folioharbor.Text.Chars.{Text, codes, text_eq, trim}
use folioharbor.Epub.Error.{Checked, invalid_navigation}
use folioharbor.Epub.Path.{EpubPath}
use folioharbor.Epub.Archive.{BoundedArchive, check_processing}
use folioharbor.Epub.Xml.{
  Element, Event, start, empty, end_of, text, cdata, other, malformed, Reading, is_namespace,
}
use folioharbor.Epub.Ncx.State.{
  ncx_ns, TocEntry, NavPoint, Label, NcxState, new_state, fail, is_at, Tag, nav_map, nav_point,
  nav_label, text_tag, tag_of,
}
use folioharbor.Epub.Ncx.Steps.{on_start, on_empty}

unfoldable pub text_value : Text → NcxState → Option Label → Checked NcxState
text_value value s (some label) =
    if is_at label.text_depth s.depth
    then ok (record s { label = some (record label { value = label.value ++ value }) })
    else if not (is_empty (trim value))
    then fail
    else ok s
text_value value s none =
    if not (is_empty s.nav_points) && not (is_empty (trim value)) then fail else ok s

-- `text` and `cdata`, for a value that may not be decoded.
unfoldable pub on_text : Option Text → NcxState → Checked NcxState
unfolding text_value
on_text value s = ok_or value invalid_navigation >>= λ decoded. text_value decoded s s.label

unfoldable pub end_text : NcxState → Option Label → Checked NcxState
end_text s none = if is_empty s.nav_points then ok s else fail
end_text s (some label) =
    if is_at label.text_depth s.depth
    then ok (record s { label = some (record label { text_depth = none }) })
    else fail

unfoldable pub attach_label : NcxState → Label → List NavPoint → Checked NcxState
attach_label s label [] = fail
attach_label s label (point ∷ points) =
    if is_some point.label
    then fail
    else ok
        (record s { label = none; nav_points = record point { label = some label.value } ∷ points })

-- `self.label.take()`, then the text goes to the innermost point.
unfoldable pub end_label : NcxState → Option Label → Checked NcxState
unfolding attach_label
end_label s none = fail
end_label s (some label) =
    if not (label.nav_label_depth == s.depth) || is_some label.text_depth || not label.saw_text
    then fail
    else attach_label s label s.nav_points

-- A point is closed at its own depth, with a label that is not blank and a target.
unfoldable pub end_nav_point : NcxState → List NavPoint → Checked NcxState
end_nav_point s [] = fail
end_nav_point s (point ∷ points) =
    if not (point.depth == s.depth)
    then fail
    else (ok_or point.label invalid_navigation >>= λ label.
        ok_or point.href invalid_navigation >>= λ href.
        if is_empty (trim label)
        then fail
        else ok (record s {
          nav_points = points;
          toc = s.toc ++ (point.order, record { label = trim label; href = href }) ∷ [];
        }))

unfoldable pub end_nav_map : NcxState → Checked NcxState
end_nav_map s =
    if not (is_at s.nav_map_depth s.depth) || not (is_empty s.nav_points)
    then fail
    else ok (record s { nav_map_depth = none })

unfoldable pub end_tag : NcxState → Tag → Checked NcxState
unfolding end_text end_label end_nav_point end_nav_map
end_tag s text_tag = end_text s s.label
end_tag s nav_label = end_label s s.label
end_tag s nav_point = end_nav_point s s.nav_points
end_tag s nav_map = end_nav_map s
end_tag s _ = ok s

-- The end of the element, at the root only of the root itself.
unfoldable pub leave : Bool → Text → NcxState → Checked NcxState
leave is_ncx local s =
    if s.depth == 1 && (not is_ncx || not (text_eq local (codes "ncx")))
    then fail
    else ok (record s { depth = s.depth - 1 })

unfoldable pub on_end : Element → NcxState → Checked NcxState
unfolding end_tag leave
on_end element s =
    let is_ncx = is_namespace element.namespace ncx_ns in
    (if is_ncx then end_tag s (tag_of element.local_name) else ok s) >>= λ s'.
    leave is_ncx element.local_name s'

unfoldable pub on_event : BoundedArchive → EpubPath → ℕ → Event → NcxState → Checked NcxState
unfolding on_start on_empty on_text on_end
on_event archive ncx_path elapsed (start element) s = on_start archive ncx_path elapsed element s
on_event archive ncx_path elapsed (empty element) s = on_empty archive ncx_path element s
on_event archive ncx_path elapsed (end_of element) s = on_end element s
on_event archive ncx_path elapsed (text value) s = on_text value s
on_event archive ncx_path elapsed (cdata value) s = on_text value s
on_event archive ncx_path elapsed other s = ok s
on_event archive ncx_path elapsed malformed s = fail

-- The loop, up to the end of the file, where the clock shows `last`.
unfoldable pub run : BoundedArchive → EpubPath → List Reading → ℕ → NcxState → Checked NcxState
unfolding on_event
run archive ncx_path [] last s = check_processing archive last s.depth >> ok s
run archive ncx_path (r ∷ readings) last s =
    check_processing archive r.elapsed s.depth
    >> (on_event archive ncx_path r.elapsed_inside r.event s >>= λ s'.
        run archive ncx_path readings last s')

-- `sort_by_key`, which is stable.
unfoldable pub insert : ℕ × TocEntry → List (ℕ × TocEntry) → List (ℕ × TocEntry)
insert (order, entry) [] = (order, entry) ∷ []
insert (order, entry) ((o, e) ∷ rest) =
    let later = insert (order, entry) rest in
    if leb order o then (order, entry) ∷ (o, e) ∷ rest else (o, e) ∷ later

unfoldable pub sort : List (ℕ × TocEntry) → List (ℕ × TocEntry)
unfolding insert
sort [] = []
sort (x ∷ xs) = insert x (sort xs)

abbrev pub is_unfinished : NcxState → Bool
is_unfinished s =
    not s.saw_ncx
    || not s.saw_nav_map
    || not (s.depth == 0)
    || is_some s.nav_map_depth
    || is_some s.label
    || not (is_empty s.nav_points)
    || is_empty s.toc

unfoldable pub finish : NcxState → Checked (List TocEntry)
unfolding sort
finish s = if is_unfinished s then fail else ok (map (λ p. p.1) (sort s.toc))

unfoldable pub parse : BoundedArchive → EpubPath → List Reading → ℕ → Checked (List TocEntry)
unfolding run finish new_state
parse archive ncx_path readings last =
    run archive ncx_path readings last new_state >>= λ s. finish s
