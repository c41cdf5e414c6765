-- ===== src/Epub/Path/Tests.antt =====
-- Runs of the path functions, and instances of their theorems.
use folioharbor.Prelude.{false, none, refl, some, true, ◌↔◌, ◌≡◌, ◌⊎◌}
use folioharbor.Prelude.Result.{err, ok}
use folioharbor.Text.Chars.{codes}
use folioharbor.Text.Split.{split, split_once, rsplit_once, before, join}
use folioharbor.Epub.Error.{unsafe_path}
use folioharbor.Epub.Path.{normalize_path, resolve_path}
use folioharbor.Epub.Path.Laws.{}
use folioharbor.Epub.Path.Depth.{IsRefusedText, levels, normalize_path_error_iff}
use folioharbor.Epub.Path.Resolve.{}

normalize_path_runs :
    (normalize_path (codes "OEBPS/./text/../ch1.xhtml") false ≡ ok (codes "OEBPS/ch1.xhtml"))
    × (normalize_path (codes "a/../../b") false ≡ err unsafe_path)
    × (normalize_path (codes "a/..") false ≡ err unsafe_path)
    × (normalize_path (codes "c.xhtml#s1") true ≡ ok (codes "c.xhtml#s1"))
    × (normalize_path (codes "c.xhtml#") true ≡ ok (codes "c.xhtml"))
unfolding normalize_path split split_once join
normalize_path_runs = (refl, refl, refl, refl, refl)

resolve_path_runs :
    (resolve_path (codes "OEBPS/toc.ncx") (codes "text/c.xhtml#p")
      ≡ ok (codes "OEBPS/text/c.xhtml#p"))
    × (resolve_path (codes "OEBPS/toc.ncx") (codes "../../x") ≡ err unsafe_path)
    × (resolve_path (codes "OEBPS/a.xhtml#q") (codes "#p") ≡ ok (codes "OEBPS/a.xhtml#p"))
unfolding resolve_path split split_once rsplit_once before join
resolve_path_runs = (refl, refl, refl)

normalize_path_error_iff_example : (normalize_path (codes "a/../../b") false ≡ err unsafe_path) ↔ (
    (unsafe_path ≡ unsafe_path)
    × (IsRefusedText (codes "a/../../b")
        ⊎ (levels 0 (split b'/' (codes "a/../../b")) ≡ none)
        ⊎ (levels 0 (split b'/' (codes "a/../../b")) ≡ some 0)))
normalize_path_error_iff_example = normalize_path_error_iff (codes "a/../../b") {code = unsafe_path}
