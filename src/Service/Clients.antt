-- ===== src/Service/Clients.antt =====
-- The clients of the services (datacake-eventual-consistency/src/rpc/client.rs). `send` is the call
-- of the RPC client with the reply already read back; the result is beside the time that the
-- client's clock is given to observe, if any.
use datacake.Base.{ℕ, Option, none, some, List}
use datacake.Base.Result.{Result, ok, err}
use datacake.Timestamp.Fields.{HlcTimestamp}
use datacake.Orswot.Set.{Key, OrSWotSet}
use datacake.Selector.Cycler.{SocketAddr}
use datacake.Membership.Member.{NodeId}
use datacake.Keyspace.Storage.{Name, DocumentMetadata, Document}
use datacake.Keyspace.Timestamps.{KeyspaceTimestamps}
use datacake.Keyspace.Group.{KeyspaceInfo}
use datacake.Rpc.Status.{Status, invalid}
use datacake.Replication.Distributor.{MultiPutPayload, MultiRemovePayload, BatchPayload}
use datacake.Service.Consistency.{PutPayload, RemovePayload}
use datacake.Service.Replication.{GetState, KeyspaceOrSwotSet, FetchDocs, FetchedDocs}

abbrev pub Observed : Type 0 → Type 0
Observed A = Option HlcTimestamp × Result Status A

-- `?`, then `register_ts` and `Ok(())`.
unfoldable pub acknowledge : Result Status HlcTimestamp → Observed (Unit {0})
acknowledge (ok ts) = (some ts, ok tt)
acknowledge (err e) = (none, err e)

-- `now` is the time that the client's clock answers.
unfoldable pub put :
    (PutPayload → Result Status HlcTimestamp)
    → HlcTimestamp
    → Name
    → Document
    → NodeId
    → SocketAddr
    → Observed (Unit {0})
unfolding acknowledge
put send now keyspace document node_id node_addr = acknowledge (
    send record {
      keyspace = keyspace;
      document = document;
      ctx = some record { node_id = node_id; node_addr = node_addr };
      timestamp = now;
    })

unfoldable pub multi_put :
    (MultiPutPayload → Result Status HlcTimestamp)
    → HlcTimestamp
    → Name
    → List Document
    → NodeId
    → SocketAddr
    → Observed (Unit {0})
unfolding acknowledge
multi_put send now keyspace documents node_id node_addr = acknowledge (
    send record {
      keyspace = keyspace;
      documents = documents;
      ctx = some record { node_id = node_id; node_addr = node_addr };
      timestamp = now;
    })

unfoldable pub del :
    (RemovePayload → Result Status HlcTimestamp)
    → HlcTimestamp
    → Name
    → Key
    → HlcTimestamp
    → Observed (Unit {0})
unfolding acknowledge
del send now keyspace id ts = acknowledge (
    send record {
      keyspace = keyspace;
      document = record { id = id; last_updated = ts };
      timestamp = now;
    })

unfoldable pub multi_del :
    (MultiRemovePayload → Result Status HlcTimestamp)
    → HlcTimestamp
    → Name
    → List DocumentMetadata
    → Observed (Unit {0})
unfolding acknowledge
multi_del send now keyspace documents =
    acknowledge (send record { keyspace = keyspace; documents = documents; timestamp = now })

unfoldable pub apply_batch :
    (BatchPayload → Result Status HlcTimestamp) → BatchPayload → Observed (Unit {0})
unfolding acknowledge
apply_batch send batch = acknowledge (send batch)

unfoldable pub poll_keyspace :
    (HlcTimestamp → Result Status KeyspaceInfo) → HlcTimestamp → Observed KeyspaceTimestamps
poll_keyspace send now = elim (send now) [
  | err e ↦ (none, err e)
  | ok info ↦ (some info.timestamp, ok info.keyspace_timestamps)
]

-- `from_bytes` reads an archived set. The timestamp is observed also where that fails.
unfoldable pub get_state :
    (GetState → Result Status KeyspaceOrSwotSet)
    → (List ℕ → Option OrSWotSet)
    → HlcTimestamp
    → Name
    → Observed (HlcTimestamp × OrSWotSet)
get_state send from_bytes now keyspace =
    elim (send record { keyspace = keyspace; timestamp = now }) [
      | err e ↦ (none, err e)
      | ok inner ↦ (
        some inner.timestamp,
        elim (from_bytes inner.set) [
          | none ↦ err invalid
          | some state ↦ ok (inner.last_updated, state)
        ],
      )
    ]

-- The answer is `none` where the payload does not read back: then `unwrap` panics.
unfoldable pub fetch_docs :
    (FetchDocs → Result Status (Option FetchedDocs))
    → HlcTimestamp
    → Name
    → List Key
    → Option (Observed (List Document))
fetch_docs send now keyspace doc_ids =
    elim (send record { keyspace = keyspace; doc_ids = doc_ids; timestamp = now }) [
      | err e ↦ some (none, err e)
      | ok inner ↦ elim inner [
        | none ↦ none
        | some payload ↦ some (some payload.timestamp, ok payload.documents)
      ]
    ]
