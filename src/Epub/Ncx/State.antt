-- ===== src/Epub/Ncx/State.antt =====
-- The data of the NCX reader: `NcxState` and its parts in crates/epub/src/ncx.rs.
use folioharbor.Prelude.{ℕ, Bool, false, Option, none, some, List, [], if◌then◌else◌, ◌==◌}
use folioharbor.Prelude.Result.{err}
use folioharbor.Text.Chars.{Text, codes, text_eq}
use folioharbor.Epub.Error.{Checked, invalid_navigation}
use folioharbor.Epub.Path.{EpubPath}

abbrev pub ncx_ns : Text
ncx_ns = codes "http://www.daisy.org/z3986/2005/ncx/"

pub record TocEntry : Type 0 where
  pub label : Text
  pub href : EpubPath

pub record NavPoint : Type 0 where
  pub depth : ℕ
  pub order : ℕ
  pub label : Option Text
  pub href : Option EpubPath

pub record Label : Type 0 where
  pub nav_label_depth : ℕ
  pub text_depth : Option ℕ
  pub saw_text : Bool
  pub value : Text

-- The stack of open points has the innermost first; the archive and the file's own path, which the
-- source keeps in the state too, are arguments here.
pub record NcxState : Type 0 where
  pub saw_ncx : Bool
  pub saw_nav_map : Bool
  pub nav_map_depth : Option ℕ
  pub nav_points : List NavPoint
  pub label : Option Label
  pub toc : List (ℕ × TocEntry)
  pub next_order : ℕ
  pub depth : ℕ

unfoldable pub new_state : NcxState
new_state = record {
  saw_ncx = false;
  saw_nav_map = false;
  nav_map_depth = none;
  nav_points = [];
  label = none;
  toc = [];
  next_order = 0;
  depth = 0;
}

abbrev pub fail {ℓ} : {A : Type ℓ} → Checked A
fail = err invalid_navigation

-- `option == Some(depth)`
abbrev pub is_at : Option ℕ → ℕ → Bool
is_at none depth = false
is_at (some d) depth = d == depth

-- The names that mean something to `start`.
pub data Tag : Type 0 where
  ncx nav_map nav_point nav_label text_tag content other_tag : Tag

abbrev pub tag_of : Text → Tag
tag_of name =
    if text_eq name (codes "ncx")
    then ncx
    else if text_eq name (codes "navMap")
    then nav_map
    else if text_eq name (codes "navPoint")
    then nav_point
    else if text_eq name (codes "navLabel")
    then nav_label
    else if text_eq name (codes "text")
    then text_tag
    else if text_eq name (codes "content")
    then content
    else other_tag
