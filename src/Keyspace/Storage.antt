-- ===== src/Keyspace/Storage.antt =====
-- Documents and the storage interface (datacake-eventual-consistency/src/core.rs and storage.rs).
use datacake.Base.{ℕ, Bool, Option, List}
use datacake.Base.Result.{Result}
use datacake.Timestamp.Fields.{HlcTimestamp}
use datacake.Orswot.Set.{Key}

-- The name of a keyspace. Names are only compared: a string is a number, its place in their order.
abbrev pub Name : Type 0
Name = ℕ

pub record DocumentMetadata : Type 0 where
  pub id : Key
  pub last_updated : HlcTimestamp

pub record Document : Type 0 where
  pub metadata : DocumentMetadata
  pub buffer : List ℕ

pub record BulkMutationError (E : Type 0) : Type 0 where
  pub inner : E
  pub successful_doc_ids : List Key

-- The calls that a keyspace makes of its storage. A call that is given an iterator also answers
-- how many documents it has taken from it.
pub record Storage (St E Ctx : Type 0) : Type 0 where
  pub put_with_ctx : Name → Document → Option Ctx → St → St × Result E (Unit {0})
  pub multi_put_with_ctx :
      Name → List Document → Option Ctx → St → St × ℕ × Result (BulkMutationError E) (Unit {0})
  pub mark_as_tombstone : Name → Key → HlcTimestamp → St → St × Result E (Unit {0})
  pub mark_many_as_tombstone :
      Name → List DocumentMetadata → St → St × ℕ × Result (BulkMutationError E) (Unit {0})
  pub remove_tombstones : Name → List Key → St → St × Result (BulkMutationError E) (Unit {0})
  pub get_keyspace_list : St → Result E (List Name)
  pub iter_metadata : Name → St → Result E (List (Key × (HlcTimestamp × Bool)))
