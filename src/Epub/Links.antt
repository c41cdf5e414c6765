-- ===== src/Epub/Links.antt =====
-- Links inside an archive: what the readers of crates/epub/src do with a reference, each with its own
-- `strip_fragment`.
use folioharbor.Prelude.{not, true, if◌then◌else◌, ◌≡◌, arith}
use folioharbor.Prelude.Result.{ok, err, map_err, map_err-eq-ok, >>=-eq-ok, ◌>>=◌}
use folioharbor.Text.Chars.{Text}
use folioharbor.Text.Split.{before}
use folioharbor.Epub.Error.{Checked, EpubErrorCode}
use folioharbor.Epub.Path.{EpubPath, new, resolve_path}
use folioharbor.Epub.Path.Laws.{IsNormal}
use folioharbor.Epub.Path.Resolve.{resolve_path-IsNormal, resolve_path-new}
use folioharbor.Epub.Archive.{BoundedArchive, contains}

-- `strip_fragment`
unfoldable pub strip_fragment : EpubPath → Checked EpubPath
strip_fragment path = new (before b'#' path)

-- A reference of the file `base`, resolved; its file must be an entry of the archive. `code` is the
-- reader's error, and `stripping` what it makes of an error of `strip_fragment`.
unfoldable pub find_link :
    EpubErrorCode
    → (EpubErrorCode → EpubErrorCode)
    → BoundedArchive
    → EpubPath
    → Text
    → Checked EpubPath
unfolding strip_fragment
find_link code stripping archive base reference =
    map_err (λ _. code) (resolve_path base reference) >>= λ href.
    map_err stripping (strip_fragment href) >>= λ file.
    if not (contains archive file) then err code else ok href

module _ (archive : BoundedArchive) where
  -- The file that a link names, without its fragment, is a normal path of the archive.
  pub record IsTarget (href : EpubPath) : Type 0 where
    pub normal : IsNormal (before b'#' href)
    pub held : contains archive (before b'#' href) ≡ true

  pub find_link-IsTarget :
      (code : EpubErrorCode) (stripping : EpubErrorCode → EpubErrorCode) (base : EpubPath)
      (reference : Text) {href : EpubPath}
      → find_link code stripping archive base reference ≡ ok href
      → IsTarget href
  unfolding find_link strip_fragment
  find_link-IsTarget code stripping base reference {href} e =
      let (link, resolved, e₂) =
        >>=-eq-ok (map_err (λ _. code) (resolve_path base reference)) _ e in
      let (file, made, e₃) = >>=-eq-ok (map_err stripping (new (before b'#' link))) _ e₂ in
      let resolved' = map_err-eq-ok _ (resolve_path base reference) resolved in
      let made' = map_err-eq-ok _ (new (before b'#' link)) made in
      let same_link : link ≡ href = ground arith in
      let same_file : file ≡ before b'#' link =
        cc (made', resolve_path-new base reference resolved') in
      let held : contains archive file ≡ true = ground arith in
      rw (← same_link) (record {
        normal = resolve_path-IsNormal base reference resolved';
        held = rw same_file at held;
      })
