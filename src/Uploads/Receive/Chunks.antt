-- ===== src/Uploads/Receive/Chunks.antt =====
-- The chunks of `bytes.chunks(MAX_APPEND_BYTES)` put together again.
use folioharbor.Prelude.{
  List, [], ap, arith, drop, length, refl, suc, take, zero, ℕ, ◌++◌, ◌-◌, ◌∙◌, ◌∷◌, ◌≡◌, ◌≤◌,
}
use folioharbor.Uploads.Receive.{chunks, chunks_on, max_append_bytes}

abbrev pub concat : List (List ℕ) → List ℕ
concat [] = []
concat (xs ∷ xss) = xs ++ concat xss

take-drop_same {ℓ} : {A : Type ℓ} (n : ℕ) (xs : List A) → take n xs ++ drop n xs ≡ xs
take-drop_same zero xs = refl
take-drop_same (suc n) [] = refl
take-drop_same (suc n) (x ∷ xs) = ap (λ ys. x ∷ ys) (take-drop_same n xs)

length-drop {ℓ} : {A : Type ℓ} (n : ℕ) (xs : List A) → length (drop n xs) ≤ length xs
length-drop zero xs = omega arith
length-drop (suc n) [] = omega arith
length-drop (suc n) (x ∷ xs) = let rest = length-drop n xs in omega (arith, rest)

concat-chunks_on :
    (fuel size : ℕ) (bytes : List ℕ)
    → length bytes ≤ fuel
    → concat (chunks_on fuel (suc size) bytes) ≡ bytes
unfolding chunks_on
concat-chunks_on zero size [] h = refl
concat-chunks_on zero size (b ∷ bytes) h = absurd (omega (arith, h))
concat-chunks_on (suc fuel) size [] h = refl
concat-chunks_on (suc fuel) size (b ∷ bytes) h =
    let short = length-drop size bytes in
    let rest = concat-chunks_on fuel size (drop size bytes) (omega (arith, h, short)) in
    ap (λ t. b ∷ take size bytes ++ t) rest ∙ ap (λ t. b ∷ t) (take-drop_same size bytes)

pub concat-chunks : (bytes : List ℕ) → concat (chunks max_append_bytes bytes) ≡ bytes
unfolding chunks
concat-chunks bytes = concat-chunks_on (length bytes) (max_append_bytes - 1) bytes (omega arith)
