-- ===== src/Epub/Package/Covers.antt =====
-- The cover and the table of contents that `build_publication` of crates/epub/src/package.rs takes
-- for a sound document.
use mathlib.Core.Option
use folioharbor.Prelude.{
  All, Bool-cases, List, Option, Option-cases, [], arith, inl, inr, none, refl, some, ℕ, ◌∷◌, ◌≡◌,
}
use folioharbor.Prelude.Result.{Result-cases, ok}
use folioharbor.Text.Chars.{Text, codes, text_eq}
use folioharbor.Text.Split.{before}
use folioharbor.Text.Words.{has_word}
use folioharbor.Epub.Path.{EpubPath, new}
use folioharbor.Epub.Path.Depth.{normalize_path_of_IsNormal}
use folioharbor.Epub.Archive.{BoundedArchive}
use folioharbor.Epub.Links.{IsTarget, strip_fragment}
use folioharbor.Epub.Package.Manifest.{Manifest, ManifestItem, lookup, lookup-All, values}
use folioharbor.Epub.Package.State.{PackageDocument}
use folioharbor.Epub.Package.Sound.{IsGuide, IsSound}
use folioharbor.Epub.Package.Build.{
  cover_of, find_cover_image, find_file, manifest_resource_href, or_else,
}

before-before : (sep : ℕ) (s : Text) → before sep (before sep s) ≡ before sep s
unfolding before
before-before sep [] = refl
before-before sep (c ∷ s) = ground (arith, before-before sep s)

module _ (archive : BoundedArchive) where
  abbrev Linked : ManifestItem → Type 0
  Linked item = IsTarget archive item.href

  strip_fragment-IsTarget :
      (href : EpubPath) {file : EpubPath}
      → IsTarget archive href
      → strip_fragment href ≡ ok file
      → IsTarget archive file
  unfolding strip_fragment new
  strip_fragment-IsTarget href {file} h e =
      let fixed = normalize_path_of_IsNormal (before b'#' href) h.normal in
      let same : file ≡ before b'#' href = ground arith in
      rw same (record {
        normal = rw (before-before b'#' href) h.normal;
        held = rw (before-before b'#' href) h.held;
      })

  find_file-IsTarget :
      (file : EpubPath) (items : List ManifestItem)
      → All Linked items
      → IsGuide archive (find_file file items)
  unfolding find_file
  find_file-IsTarget file [] h = tt
  find_file-IsTarget file (item ∷ items) (p, h) = elim (Result-cases (strip_fragment item.href)) [
    | inr (code, failed) ↦ rw (failed, find_file) (find_file-IsTarget file items h)
    | inl (href, stripped) ↦ elim (Bool-cases (text_eq href file)) [
      | inl same ↦ rw (stripped, same, find_file) (strip_fragment-IsTarget item.href p stripped)
      | inr different ↦ rw (stripped, different, find_file) (find_file-IsTarget file items h)
    ]
  ]

  manifest_resource_href-IsTarget :
      (items : List ManifestItem) (href : EpubPath)
      → All Linked items
      → IsGuide archive (manifest_resource_href items href)
  unfolding manifest_resource_href
  manifest_resource_href-IsTarget items href h = elim (Result-cases (strip_fragment href)) [
    | inr (code, failed) ↦ rw (failed, manifest_resource_href) tt
    | inl (file, stripped) ↦ rw (stripped, manifest_resource_href) (find_file-IsTarget file items h)
  ]

  find_cover_image-IsTarget :
      (items : List ManifestItem) → All Linked items → IsGuide archive (find_cover_image items)
  unfolding find_cover_image
  find_cover_image-IsTarget [] h = tt
  find_cover_image-IsTarget (item ∷ items) (p, h) =
      elim (Bool-cases (has_word item.properties (codes "cover-image"))) [
        | inl cover ↦ rw cover p
        | inr plain ↦ rw plain (find_cover_image-IsTarget items h)
      ]

  or_else-IsTarget :
      (first second : Option EpubPath)
      → IsGuide archive first
      → IsGuide archive second
      → IsGuide archive (or_else first second)
  or_else-IsTarget none second h k = k
  or_else-IsTarget (some href) second h k = h

  values-Linked :
      (manifest : Manifest)
      → All (λ p. IsTarget archive p.1.href) manifest
      → All Linked (values manifest)
  unfolding values
  values-Linked [] h = tt
  values-Linked (held ∷ manifest) (p, h) = (p, values-Linked manifest h)

  named_cover-IsTarget :
      (manifest : Manifest) (id : Option Text)
      → All (λ p. IsTarget archive p.1.href) manifest
      → IsGuide archive (
          Option.map (λ (item : ManifestItem). item.href) (Option.bind id (λ j. lookup j manifest)))
  unfolding Option.bind
  named_cover-IsTarget manifest none h = tt
  named_cover-IsTarget manifest (some id) h = elim (Option-cases (lookup id manifest)) [
    | inl missing ↦ rw missing tt
    | inr (item, stored) ↦
        rw stored (lookup-All (λ p. IsTarget archive p.1.href) id manifest h stored)
  ]

  bound_cover-IsTarget :
      (items : List ManifestItem) (cover : Option EpubPath)
      → All Linked items
      → IsGuide archive (Option.bind cover (λ href. manifest_resource_href items href))
  unfolding Option.bind
  bound_cover-IsTarget items none h = tt
  bound_cover-IsTarget items (some cover) h = manifest_resource_href-IsTarget items cover h

  pub cover_of-IsTarget : (d : PackageDocument) → IsSound archive d → IsGuide archive (cover_of d)
  unfolding cover_of
  cover_of-IsTarget d h =
      let items = values-Linked d.manifest h.linked in
      or_else-IsTarget _ _ (named_cover-IsTarget d.manifest d.epub_two_cover_id h.linked) (
        or_else-IsTarget _ _ (find_cover_image-IsTarget (values d.manifest) items)
          (bound_cover-IsTarget (values d.manifest) d.guide_cover items))
