-- ===== src/Rpc/Body.antt =====
-- Bodies of requests and replies (datacake-rpc/src/utils.rs, body.rs and request.rs).
use datacake.Base.{ℕ, inl, inr, sym, ◌≡◌, refl, ap, ◌∙◌, List, [], ◌∷◌, ◌++◌}
use datacake.Base.Result.{Result, ok, err, Result-cases}
use datacake.Base.Text.{Text}
use datacake.Rpc.Status.{Status, internal, invalid}
use datacake.Rpc.View.{Bytes, Codec, DataView, to_view_bytes, using}

-- A body as it arrives: the chunks that `data` yields, or the message of an error.
abbrev pub Body : Type 0
Body = List (Result Text Bytes)

-- The `while` loop over the rest of the chunks.
unfoldable pub extend_rest : Body → Bytes → Result Text Bytes
extend_rest [] vec = ok vec
extend_rest (err e ∷ body) vec = err e
extend_rest (ok buf ∷ body) vec = extend_rest body (vec ++ buf)

unfoldable pub to_aligned : Body → Result Text Bytes
unfolding extend_rest
to_aligned [] = ok []
to_aligned (err e ∷ body) = err e
to_aligned (ok first ∷ []) = ok first
to_aligned (ok first ∷ err e ∷ body) = err e
to_aligned (ok first ∷ ok second ∷ body) = extend_rest body (first ++ second)

-- `Body::from` of a vector: no chunk where it is empty.
unfoldable pub body_from : Bytes → Body
body_from [] = []
body_from (b ∷ bs) = ok (b ∷ bs) ∷ []

module _ (crc : Bytes → ℕ) where
  unfoldable pub from_body : Body → Result Status DataView
  unfolding to_aligned
  from_body body = elim (to_aligned body) [
    | err e ↦ err (internal e)
    | ok bytes ↦ elim (using crc bytes) [ ok view ↦ ok view | err e ↦ err invalid ]
  ]

  -- The bytes of the body; `try_into_body` is the same.
  unfoldable pub try_as_body : {T : Type 0} → Codec T → T → Result Status Bytes
  try_as_body codec value = elim (to_view_bytes crc codec value) [
    | ok bytes ↦ ok bytes
    | err e ↦ err (internal e)
  ]

-- All chunks in order, or the first error.
abbrev pub joined : Body → Result Text Bytes
joined [] = ok []
joined (err e ∷ body) = err e
joined (ok buf ∷ body) = elim (joined body) [ ok rest ↦ ok (buf ++ rest) | err e ↦ err e ]

append_nil : (bs : Bytes) → bs ++ [] ≡ bs
append_nil [] = refl
append_nil (b ∷ bs) = ap (λ l. b ∷ l) (append_nil bs)

append_assoc : (x y z : Bytes) → (x ++ y) ++ z ≡ x ++ (y ++ z)
append_assoc [] y z = refl
append_assoc (a ∷ x) y z = ap (λ l. a ∷ l) (append_assoc x y z)

extend_rest_lem :
    (body : Body) (vec : Bytes)
    → extend_rest body vec ≡ elim (joined body) [ ok rest ↦ ok (vec ++ rest) | err e ↦ err e ]
unfolding extend_rest
extend_rest_lem [] vec = ap ok (sym (append_nil vec))
extend_rest_lem (err e ∷ body) vec = refl
extend_rest_lem (ok buf ∷ body) vec =
    extend_rest_lem body (vec ++ buf) ∙ elim (Result-cases (joined body)) [
      | inl (rest, h) ↦ rw h (ap ok (append_assoc vec buf rest))
      | inr (e, h) ↦ rw h refl
    ]

-- A body is read as all its chunks in order, however it was cut into chunks, and its first error
-- ends the reading.
pub to_aligned_lem : (body : Body) → to_aligned body ≡ joined body
unfolding to_aligned
to_aligned_lem [] = refl
to_aligned_lem (err e ∷ body) = refl
to_aligned_lem (ok first ∷ []) = ap ok (sym (append_nil first))
to_aligned_lem (ok first ∷ err e ∷ body) = refl
to_aligned_lem (ok first ∷ ok second ∷ body) =
    extend_rest_lem body (first ++ second) ∙ elim (Result-cases (joined body)) [
      | inl (rest, h) ↦ rw h (ap ok (append_assoc first second rest))
      | inr (e, h) ↦ rw h refl
    ]
