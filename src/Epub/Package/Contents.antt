-- ===== src/Epub/Package/Contents.antt =====
-- The links of the table of contents that `select_toc` of crates/epub/src/package.rs chooses.
use folioharbor.Prelude.{
  All, All-map, List, Option, [], arith, length, map, none, some, ℕ, ◌∷◌, ◌≡◌, ◌≤◌,
}
use folioharbor.Prelude.Result.{>>=-eq-ok, ok}
use folioharbor.Text.Chars.{Text}
use folioharbor.Epub.Archive.{BoundedArchive}
use folioharbor.Epub.Xml.{usize_max}
use folioharbor.Epub.Links.{IsTarget}
use folioharbor.Epub.Reader.{Document}
use folioharbor.Epub.Ncx.State.{TocEntry}
use folioharbor.Epub.Ncx.Order.{parse-IsEntry}
use folioharbor.Epub.Ncx.Invariant.{IsEntry}
use folioharbor.Epub.Navigation.Laws.{nav_parse-IsEntry}
use folioharbor.Epub.Package.Manifest.{values}
use folioharbor.Epub.Package.State.{PackageDocument, SpineItem}
use folioharbor.Epub.Package.Navigate.{
  NavigationDocument, alternative_toc, item_bytes, nav_document, navigation_alternatives,
  ncx_document, parse_navigation_document, preferred_navigation, select_toc, spine_entry, toc_by,
}

-- A document that is an entry of an archive has no more events than a machine word counts.
abbrev pub IsSmall : (List ℕ → Document) → Type 0
IsSmall xml = (bytes : List ℕ) → length (xml bytes).readings ≤ usize_max

module _ (xml : List ℕ → Document) (archive : BoundedArchive) where
  abbrev pub HasLink : TocEntry → Type 0
  HasLink entry = IsTarget archive entry.href

  entries-HasLink : (toc : List TocEntry) → All (IsEntry archive) toc → All HasLink toc
  entries-HasLink toc h = All-map (λ entry (e : IsEntry archive entry). e.target) toc h

  parse_navigation_document-HasLink :
      (small : IsSmall xml) (document : NavigationDocument) {toc : List TocEntry}
      → parse_navigation_document xml archive document ≡ ok toc
      → All HasLink toc
  unfolding parse_navigation_document
  parse_navigation_document-HasLink small (ncx_document item) {toc} e =
      let (bytes, _, e) = >>=-eq-ok (item_bytes archive item) _ e in
      entries-HasLink toc
        (parse-IsEntry archive item.href (xml bytes).readings (xml bytes).last (small bytes) e).0
  parse_navigation_document-HasLink small (nav_document item) {toc} e =
      let (bytes, _, e) = >>=-eq-ok (item_bytes archive item) _ e in
      entries-HasLink toc (nav_parse-IsEntry archive item.href (xml bytes) e).0

  spine-HasLink :
      (spine : List SpineItem)
      → All (λ item. IsTarget archive item.href) spine
      → All HasLink (map spine_entry spine)
  spine-HasLink [] h = tt
  spine-HasLink (item ∷ spine) (p, h) = (p, spine-HasLink spine h)

  alternative_toc-HasLink :
      (small : IsSmall xml) (spine : List SpineItem) (alternatives : List NavigationDocument)
      {contents : List TocEntry × Option Text}
      → All (λ item. IsTarget archive item.href) spine
      → alternative_toc xml archive spine alternatives ≡ ok contents
      → All HasLink contents.0
  unfolding alternative_toc
  alternative_toc-HasLink small spine [] {contents} h e =
      let same : contents.0 ≡ map spine_entry spine = ground arith in
      rw same (spine-HasLink spine h)
  alternative_toc-HasLink small spine (alternative ∷ []) {contents} h e =
      let (toc, parsed, e) = >>=-eq-ok (parse_navigation_document xml archive alternative) _ e in
      let same : contents.0 ≡ toc = ground arith in
      rw same (parse_navigation_document-HasLink small alternative parsed)
  alternative_toc-HasLink small spine (_ ∷ _ ∷ alternatives) h e = cc

  toc_by-HasLink :
      (small : IsSmall xml) (d : PackageDocument) (spine : List SpineItem)
      (preferred : Option NavigationDocument) {contents : List TocEntry × Option Text}
      → All (λ item. IsTarget archive item.href) spine
      → toc_by xml archive d spine preferred ≡ ok contents
      → All HasLink contents.0
  unfolding toc_by
  toc_by-HasLink small d spine (some document) {contents} h e =
      let (toc, parsed, e) = >>=-eq-ok (parse_navigation_document xml archive document) _ e in
      let same : contents.0 ≡ toc = ground arith in
      rw same (parse_navigation_document-HasLink small document parsed)
  toc_by-HasLink small d spine none h e =
      alternative_toc-HasLink small spine (navigation_alternatives (values d.manifest)) h e

  pub select_toc-HasLink :
      (small : IsSmall xml) (d : PackageDocument) (spine : List SpineItem)
      {contents : List TocEntry × Option Text}
      → All (λ item. IsTarget archive item.href) spine
      → select_toc xml archive d spine ≡ ok contents
      → All HasLink contents.0
  unfolding select_toc
  select_toc-HasLink small d spine {contents} h e =
      let (preferred, _, e) = >>=-eq-ok (preferred_navigation d.version d) _ e in
      toc_by-HasLink small d spine preferred h e
