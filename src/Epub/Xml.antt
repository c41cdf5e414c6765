-- ===== src/Epub/Xml.antt =====
-- What the XML reader (quick_xml, a third-party library) hands to the source: a sequence of events
-- with resolved namespaces. Its input is not modelled: the readers of the source are modelled as
-- functions of this sequence, whatever it is.
use folioharbor.Prelude.{
  ℕ, ◌+◌, ◌-◌, ◌^◌, Bool, false, Option, none, some, List, [], ◌∷◌, if◌then◌else◌, ltb,
}
use folioharbor.Prelude.Result.{err, map_option, ok, ok_or, ◌>>=◌}
use folioharbor.Text.Chars.{Text, text_eq}
use folioharbor.Epub.Error.{Checked, EpubErrorCode}

-- An attribute that the reader refuses, or the namespace of its prefix, if that is bound, its local
-- name, and its value, if that can be decoded.
pub data Attribute : Type 0 where
  malformed_attribute : Attribute
  attribute : Option Text → Text → Option Text → Attribute

-- `namespace` is `none` where the prefix is not bound.
pub record Element : Type 0 where
  pub namespace : Option Text
  pub local_name : Text
  pub attributes : List Attribute

-- A text is `none` where it cannot be decoded.
pub data Event : Type 0 where
  start empty end_of : Element → Event
  text cdata : Option Text → Event
  other malformed : Event

-- An event with what the clock shows when its round begins, and when its element is entered.
pub record Reading : Type 0 where
  pub elapsed : ℕ
  pub elapsed_inside : ℕ
  pub event : Event

abbrev pub is_namespace : Option Text → Text → Bool
is_namespace none expected = false
is_namespace (some value) expected = text_eq value expected

-- `attribute`: the first attribute of that local name; one that is refused before it is an error.
unfoldable pub optional_attribute : EpubErrorCode → List Attribute → Text → Checked (Option Text)
optional_attribute code [] name = ok none
optional_attribute code (malformed_attribute ∷ attributes) name = err code
optional_attribute code (attribute _ local value ∷ attributes) name =
    let rest = optional_attribute code attributes name in
    if text_eq local name then map_option (λ v. ok_or v code) (some value) else rest

-- `required_attribute`
unfoldable pub required_attribute : EpubErrorCode → List Attribute → Text → Checked Text
unfolding optional_attribute
required_attribute code attributes name =
    optional_attribute code attributes name >>= λ found. ok_or found code

abbrev pub usize_max : ℕ
usize_max = 2 ^ 64 - 1

abbrev pub saturating_suc : ℕ → ℕ
saturating_suc n = if ltb n usize_max then n + 1 else n
