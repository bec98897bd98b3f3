-- ===== src/Store/Distribution.antt =====
-- The count of acknowledgements (datacake-eventual-consistency/src/lib.rs and error.rs).
use mathlib.Core.List.{Perm, Permᴰ}
use mathlib.Core.Logic.{∥∥₁_elim}
use datacake.Base.{
  ℕ, ◌+◌, ◌≡◌, ◌≤◌, ◌<◌, refl, ◌∙◌, Bool, true, false, not, List, [], ◌∷◌, map, ◌==◌, if◌then◌else◌,
  length, arith,
}
use datacake.Base.Result.{Result, ok, err, is_ok}
use datacake.Base.Text.{Text}
use datacake.Timestamp.Fields.{Duration, from_secs}
use datacake.Selector.Cycler.{SocketAddr, Nodes}
use datacake.Selector.Select.{ConsistencyError, consistency_failure}
use datacake.Keyspace.Storage.{BulkMutationError}
use datacake.Rpc.Status.{Status}

pub data StoreError (E : Type 0) : Type 0 where
  chitchat_error : Text → StoreError E
  unknown_error : Text → StoreError E
  storage_error : E → StoreError E
  bulk_storage_error : BulkMutationError E → StoreError E
  consistency_error : ConsistencyError → StoreError E
  transport_error : SocketAddr → Text → StoreError E
  rpc_error : SocketAddr → Status → StoreError E

abbrev pub timeout : Duration
timeout = from_secs 2

ℕ-set : IsSet ℕ
ℕ-set = hlevel

module _ {E : Type 0} where
  -- The loop over the answers, in the order in which they come.
  unfoldable pub count_success : List (Result (StoreError E) (Unit {0})) → ℕ → ℕ
  count_success [] num_success = num_success
  count_success (ok u ∷ requests) num_success = count_success requests (num_success + 1)
  count_success (err e ∷ requests) num_success = count_success requests num_success

  -- `requests` are the answers to the calls of the factory, in the order in which they come.
  unfoldable pub handle_consistency_distribution :
      Nodes → List (Result (StoreError E) (Unit {0})) → Result (StoreError E) (Unit {0})
  unfolding count_success
  handle_consistency_distribution nodes requests =
      let num_required = length nodes in
      let num_success = count_success requests 0 in
      if not (num_success == num_required)
      then err (consistency_error (consistency_failure num_success num_required timeout))
      else ok tt

  -- The nodes whose answer is an acknowledgement.
  abbrev pub acknowledged : (SocketAddr → Result (StoreError E) (Unit {0})) → Nodes → ℕ
  acknowledged call [] = 0
  acknowledged call (node ∷ nodes) = (if is_ok (call node) then 1 else 0) + acknowledged call nodes

  abbrev pub all_acknowledge : (SocketAddr → Result (StoreError E) (Unit {0})) → Nodes → Bool
  all_acknowledge call [] = true
  all_acknowledge call (node ∷ nodes) =
      let rest = all_acknowledge call nodes in if is_ok (call node) then rest else false

  count_success-add :
      (l : List (Result (StoreError E) (Unit {0}))) (n : ℕ)
      → count_success l n ≡ count_success l 0 + n
  unfolding count_success
  count_success-add [] n = omega arith
  count_success-add (ok u ∷ l) n = omega (arith, count_success-add l (n + 1), count_success-add l 1)
  count_success-add (err e ∷ l) n = count_success-add l n

  count_success-map :
      (call : SocketAddr → Result (StoreError E) (Unit {0})) (nodes : Nodes)
      → count_success (map call nodes) 0 ≡ acknowledged call nodes
  unfolding count_success
  count_success-map call [] = refl
  count_success-map call (node ∷ nodes) =
      elim (call node)
        as (λ r.
          count_success (r ∷ map call nodes) 0
          ≡ (if is_ok r then 1 else 0) + acknowledged call nodes) [
            | ok u ↦
                omega (arith, count_success-add (map call nodes) 1, count_success-map call nodes)
            | err e ↦ omega (arith, count_success-map call nodes)
          ]

  acknowledged_le :
      (call : SocketAddr → Result (StoreError E) (Unit {0})) (nodes : Nodes)
      → (acknowledged call nodes ≤ length nodes)
        × ((acknowledged call nodes == length nodes) ≡ all_acknowledge call nodes)
  acknowledged_le call [] = (omega arith, refl)
  acknowledged_le call (node ∷ nodes) =
      let (le, same) = acknowledged_le call nodes in (ground (arith, le), ground (arith, le, same))

  count_next :
      (a : Result (StoreError E) (Unit {0})) (l m : List (Result (StoreError E) (Unit {0})))
      → ((n : ℕ) → count_success l n ≡ count_success m n)
      → (n : ℕ) → count_success (a ∷ l) n ≡ count_success (a ∷ m) n
  unfolding count_success
  count_next (ok u) l m h n = h (n + 1)
  count_next (err e) l m h n = h n

  count_swap :
      (a b : Result (StoreError E) (Unit {0})) (l : List (Result (StoreError E) (Unit {0}))) (n : ℕ)
      → count_success (a ∷ b ∷ l) n ≡ count_success (b ∷ a ∷ l) n
  unfolding count_success
  count_swap (ok u) (ok v) l n = refl
  count_swap (ok u) (err e) l n = refl
  count_swap (err e) (ok u) l n = refl
  count_swap (err e) (err f) l n = refl

  count_success_permᴰ :
      {l m : List (Result (StoreError E) (Unit {0}))}
      → Permᴰ l m
      → (n : ℕ) → count_success l n ≡ count_success m n
  unfolding count_success
  count_success_permᴰ Permᴰ.nil n = refl
  count_success_permᴰ (Permᴰ.cons {a = a} e d) n =
      rw (← e) (count_next a _ _ (count_success_permᴰ d) n)
  count_success_permᴰ (Permᴰ.swap {a = a} {b = b} {l = l} e f) n =
      rw (← e, ← f) (count_swap a b l n)
  count_success_permᴰ (Permᴰ.trans d e) n = count_success_permᴰ d n ∙ count_success_permᴰ e n

  -- Whatever the order in which the answers of the selected nodes come, the distribution succeeds
  -- exactly where every one of them is an acknowledgement; otherwise it fails with the number of
  -- acknowledgements, which is below the number that is required.
  pub handle_consistency_distribution_lem :
      (call : SocketAddr → Result (StoreError E) (Unit {0})) (nodes : Nodes)
      (answers : List (Result (StoreError E) (Unit {0})))
      → Perm answers (map call nodes)
      → let n = acknowledged call nodes in
        (handle_consistency_distribution nodes answers ≡ (
          if all_acknowledge call nodes
          then ok tt
          else err (consistency_error (consistency_failure n (length nodes) timeout))))
        × (all_acknowledge call nodes ≡ false → n < length nodes)
  unfolding handle_consistency_distribution
  handle_consistency_distribution_lem call nodes answers perm =
      let counted : count_success answers 0 ≡ acknowledged call nodes =
        ∥∥₁_elim perm (ℕ-set _ _) (λ d. count_success_permᴰ d 0) ∙ count_success-map call nodes in
      let (le, same) = acknowledged_le call nodes in
      (rw counted (ground (arith, same)), λ h. ground (arith, le, same))
