-- ===== src/Download/Stream/Laws.antt =====
-- How many bytes a download sends, and which.
use folioharbor.Prelude.{
  Bool, Bool-cases, List, Option-cases, [], ap, arith, drop, false, inl, inr, is_empty, length,
  length-append, length-take-drop, refl, some, suc, sym, take, take-split, true, zero, ℕ, ◌++◌, ◌+◌,
  ◌-◌, ◌<◌, ◌==◌, ◌↔◌, ◌∙◌, ◌∷◌, ◌≡◌, ◌≤◌,
}
use folioharbor.Download.Stream.{
  Item, Reader, chunk, failed, is_good, next_length, streaming_body, truncated, unfold_body,
}

abbrev pub sent : List Item → List ℕ
sent [] = []
sent (chunk bytes ∷ items) = bytes ++ sent items
sent (truncated ∷ items) = sent items
sent (failed ∷ items) = sent items

abbrev pub is_clean : List Item → Bool
is_clean [] = true
is_clean (chunk bytes ∷ items) = is_clean items
is_clean (truncated ∷ items) = false
is_clean (failed ∷ items) = false

-- The stream is whole if no error was sent; otherwise it is short.
abbrev pub IsSent : ℕ → List Item → Type 0
IsSent remaining items =
    (length (sent items) ≤ remaining)
    × ((is_clean items ≡ true) ↔ (length (sent items) ≡ remaining))

nonempty_length : (bytes : List ℕ) → is_empty bytes ≡ false → 0 < length bytes
nonempty_length [] e = cc
nonempty_length (b ∷ bytes) e = omega arith

good_bounds :
    (bytes : List ℕ) (remaining : ℕ)
    → is_good bytes (next_length remaining) ≡ true
    → (0 < length bytes) × (length bytes ≤ remaining)
good_bounds bytes remaining good = ground (arith, nonempty_length bytes)

IsSent-chunk :
    (bytes : List ℕ) (items : List Item) (remaining : ℕ)
    → length bytes ≤ remaining
    → IsSent (remaining - length bytes) items
    → IsSent remaining (chunk bytes ∷ items)
IsSent-chunk bytes items remaining h (short, whole) =
    let len = length-append bytes (sent items) in
    (
      omega (arith, len),
      ((λ clean. omega (arith, len, whole.0 clean)), λ e. whole.1 (omega (arith, len))),
    )

IsSent-error :
    (item : Item) (remaining : ℕ)
    → (remaining == 0) ≡ false
    → is_clean (item ∷ []) ≡ false
    → sent (item ∷ []) ≡ []
    → IsSent remaining (item ∷ [])
IsSent-error item remaining more bad none_sent = rw (none_sent, bad) (ground arith)

unfold_body-IsSent :
    (read : Reader) (fuel calls offset remaining : ℕ)
    → remaining < fuel
    → (items : List Item) × (unfold_body read fuel calls offset remaining ≡ some items)
      × IsSent remaining items
unfolding unfold_body
unfold_body-IsSent read zero calls offset remaining h = elim h [ ]
unfold_body-IsSent read (suc fuel) calls offset remaining h = elim (Bool-cases (remaining == 0)) [
  | inl done ↦ ([], rw done, ground arith)
  | inr more ↦ elim (Option-cases (read calls offset (next_length remaining))) [
    | inl broken ↦ (failed ∷ [], rw (more, broken), IsSent-error failed remaining more refl refl)
    | inr (bytes, got) ↦ elim (Bool-cases (is_good bytes (next_length remaining))) [
      | inl good ↦
          let (pos, fits) = good_bounds bytes remaining good in
          let (items, ran, counted) =
            unfold_body-IsSent read fuel (calls + 1) (offset + length bytes)
              (remaining - length bytes) (omega arith) in
          (
            chunk bytes ∷ items,
            rw (more, got, good, ran),
            IsSent-chunk bytes items remaining fits counted,
          )
      | inr bad ↦
          (truncated ∷ [], rw (more, got, bad), IsSent-error truncated remaining more refl refl)
    ]
  ]
]

-- Whatever the store answers, the body of a download ends, sends at most as many bytes as the range
-- is long, and exactly as many when it sends no error.
pub streaming_body-IsSent :
    (read : Reader) (start remaining : ℕ)
    → (items : List Item) × (streaming_body read start remaining ≡ some items)
      × (length (sent items) ≤ remaining)
      × ((is_clean items ≡ true) ↔ (length (sent items) ≡ remaining))
unfolding streaming_body
streaming_body-IsSent read start remaining =
    let (items, ran, (short, whole)) =
      unfold_body-IsSent read (suc remaining) 0 start remaining (omega arith) in
    (items, ran, short, whole)

-- A store that holds `content`, and may answer with fewer bytes than it is asked for.
abbrev pub IsHonest : Reader → List ℕ → Type 0
IsHonest read content =
    (calls offset asked : ℕ)
    → 0 < asked
    → offset + asked ≤ length content
    → (given : ℕ) × (0 < given)
      × (given ≤ asked)
      × (read calls offset asked ≡ some (take given (drop offset content)))

next_length_bounds :
    (remaining : ℕ)
    → (remaining == 0) ≡ false
    → (0 < next_length remaining) × (next_length remaining ≤ remaining)
next_length_bounds remaining more = ground arith

is_good_of :
    (bytes : List ℕ) (given asked : ℕ)
    → length bytes ≡ given
    → 0 < given
    → given ≤ asked
    → is_good bytes asked ≡ true
is_good_of [] given asked e pos fits = absurd (omega arith)
is_good_of (b ∷ bytes) given asked e pos fits = ground arith

zero_of : (n : ℕ) → (n == 0) ≡ true → 0 ≡ n
zero_of n e = ground arith

split_remaining : (n k : ℕ) → k ≤ n → n ≡ k + (n - k)
split_remaining n k h = omega arith

unfold_body-honest :
    (read : Reader) (content : List ℕ) (fuel calls offset remaining : ℕ)
    → IsHonest read content
    → offset + remaining ≤ length content
    → remaining < fuel
    → (items : List Item) × (unfold_body read fuel calls offset remaining ≡ some items)
      × (sent items ≡ take remaining (drop offset content))
      × (is_clean items ≡ true)
unfolding unfold_body
unfold_body-honest read content zero calls offset remaining honest inside h = elim h [ ]
unfold_body-honest read content (suc fuel) calls offset remaining honest inside h =
    elim (Bool-cases (remaining == 0)) [
      | inl done ↦
          ([], rw done, ap (λ n. take n (drop offset content)) (zero_of remaining done), refl)
      | inr more ↦
          let (pos, fits) = next_length_bounds remaining more in
          let (given, some_given, enough, got) =
            honest calls offset (next_length remaining) pos (omega arith) in
          let bytes : List ℕ = take given (drop offset content) in
          let size : length bytes ≡ given = length-take-drop given offset content (omega arith) in
          let (items, ran, same, clean) =
            unfold_body-honest read content fuel (calls + 1) (offset + length bytes)
              (remaining - length bytes) honest (omega (arith, size)) (omega (arith, size)) in
          let good = is_good_of bytes given (next_length remaining) size some_given enough in
          let parts : take remaining (drop offset content) ≡ bytes ++ sent items =
            ap (λ n. take n (drop offset content)) (split_remaining remaining given (omega arith))
            ∙ take-split given (remaining - given) offset content
            ∙ ap (λ n. bytes ++ take (remaining - n) (drop (offset + n) content)) (sym size)
            ∙ ap (λ ys. bytes ++ ys) (sym same) in
          (chunk bytes ∷ items, rw (more, got, good, ran), sym parts, clean)
    ]

-- A store that holds the content and answers each call with some of the bytes asked for makes the
-- body the bytes of the range, in order and without an error, if the range lies in the content.
pub streaming_body-honest :
    (read : Reader) (content : List ℕ) (start remaining : ℕ)
    → IsHonest read content
    → start + remaining ≤ length content
    → (items : List Item) × (streaming_body read start remaining ≡ some items)
      × (sent items ≡ take remaining (drop start content))
      × (is_clean items ≡ true)
unfolding streaming_body
streaming_body-honest read content start remaining honest inside =
    unfold_body-honest read content (suc remaining) 0 start remaining honest inside (omega arith)
