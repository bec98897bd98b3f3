-- ===== src/Replication/Chunks.antt =====
-- The chunks of ids that are asked for (datacake-eventual-consistency/src/replication/poller.rs).
use mathlib.Core.List
use datacake.Base.{
  sym, ℕ, zero, suc, ◌≤◌, ◌<◌, ◌≡◌, refl, ap, ◌∙◌, List, [], ◌∷◌, ◌++◌, map, length, take, drop,
  arith,
}
use datacake.Base.Sort.{All}
use datacake.Keyspace.Storage.{DocumentMetadata}
use datacake.Replication.Fetch.{
  max_number_of_docs_per_fetch, chunks_of, chunks, id_of, doc_id_chunks,
}

abbrev pub concat {ℓ} : {A : Type ℓ} → List (List A) → List A
concat [] = []
concat (xs ∷ xss) = xs ++ concat xss

module _ {ℓ} {A : Type ℓ} where
  length-take : (n : ℕ) (xs : List A) → length (take n xs) ≤ n
  length-take zero xs = omega arith
  length-take (suc n) [] = omega arith
  length-take (suc n) (x ∷ xs) = omega (arith, length-take n xs)

  length-drop : (n : ℕ) (xs : List A) → length (drop n xs) ≤ length xs
  length-drop zero xs = omega arith
  length-drop (suc n) [] = omega arith
  length-drop (suc n) (x ∷ xs) = omega (arith, length-drop n xs)

  take-drop : (n : ℕ) (xs : List A) → take n xs ++ drop n xs ≡ xs
  take-drop zero xs = refl
  take-drop (suc n) [] = refl
  take-drop (suc n) (x ∷ xs) = ap (λ l. x ∷ l) (take-drop n xs)

  -- A chunk is not empty and not longer than the size.
  abbrev pub IsChunk : ℕ → List A → Type 0
  IsChunk size xs = (0 < length xs) × (length xs ≤ size)

  chunks_of-IsChunk : (fuel n : ℕ) (xs : List A) → All (IsChunk (suc n)) (chunks_of fuel (suc n) xs)
  unfolding chunks_of
  chunks_of-IsChunk zero n xs = tt
  chunks_of-IsChunk (suc fuel) n [] = tt
  chunks_of-IsChunk (suc fuel) n (x ∷ xs) =
      ((omega arith, omega (arith, length-take n xs)), chunks_of-IsChunk fuel n (drop n xs))

  concat-chunks_of :
      (fuel n : ℕ) (xs : List A) → length xs ≤ fuel → concat (chunks_of fuel (suc n) xs) ≡ xs
  unfolding chunks_of
  concat-chunks_of zero n [] h = refl
  concat-chunks_of zero n (x ∷ xs) h = absurd (omega arith)
  concat-chunks_of (suc fuel) n [] h = refl
  concat-chunks_of (suc fuel) n (x ∷ xs) h =
      ap (λ l. x ∷ (take n xs ++ l))
        (concat-chunks_of fuel n (drop n xs) (omega (arith, length-drop n xs)))
      ∙ ap (λ l. x ∷ l) (take-drop n xs)

length-map {ℓ κ} :
    {A : Type ℓ} {B : Type κ} (f : A → B) (xs : List A) → length (map f xs) ≡ length xs
length-map f [] = omega arith
length-map f (x ∷ xs) = omega (arith, length-map f xs)

ids-IsChunk :
    (size : ℕ) (l : List (List DocumentMetadata))
    → All (IsChunk size) l
    → All (IsChunk size) (map (map id_of) l)
ids-IsChunk size [] a = tt
ids-IsChunk size (docs ∷ l) a = (
  (omega (arith, a.0, length-map id_of docs), omega (arith, a.0, length-map id_of docs)),
  ids-IsChunk size l a.1,
)

map-append : (x y : List DocumentMetadata) → map id_of (x ++ y) ≡ map id_of x ++ map id_of y
map-append [] y = refl
map-append (d ∷ x) y = ap (λ l. d.id ∷ l) (map-append x y)

concat-ids : (l : List (List DocumentMetadata)) → concat (map (map id_of) l) ≡ map id_of (concat l)
concat-ids [] = refl
concat-ids (docs ∷ l) =
    rw (map-append docs (concat l)) (ap (λ r. map id_of docs ++ r) (concat-ids l))

-- Every chunk has at least one and at most 50 000 ids, and together they are those of the modified
-- documents, in order.
pub doc_id_chunks_lem :
    (modified : List DocumentMetadata)
    → All (IsChunk max_number_of_docs_per_fetch) (doc_id_chunks modified)
      × (concat (doc_id_chunks modified) ≡ map id_of modified)
unfolding doc_id_chunks chunks
doc_id_chunks_lem modified =
    let split = chunks max_number_of_docs_per_fetch modified in
    (
      ids-IsChunk max_number_of_docs_per_fetch split
          (chunks_of-IsChunk (length modified) 49_999 modified),
      concat-ids split
          ∙ ap (map id_of) (concat-chunks_of (length modified) 49_999 modified (omega arith)),
    )

pub concat-append {ℓ} : {A : Type ℓ} (x y : List (List A)) → concat (x ++ y) ≡ concat x ++ concat y
concat-append [] y = refl
concat-append (xs ∷ x) y =
    ap (λ l. xs ++ l) (concat-append x y) ∙ sym (List.append_assoc xs (concat x) (concat y))
