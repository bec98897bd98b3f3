-- ===== src/Lib.antt =====
-- A model of datacake, a toolkit of eventually consistent replication, and what holds of it.
--
-- Parts and files. Paths are from the root of the repository.
--   Timestamp/*  datacake-crdt/src/timestamp.rs. `HLCTimestamp` is the number in its `u64`; `send`
--                and `recv` take the system clock as an argument and return the new clock beside
--                their answer (Send, Recv). Fields holds the accessors and `pack`.
--   Orswot/*     datacake-crdt/src/orswot.rs. Versions is `NodeVersions`; Set, Diff and Merge are
--                the methods of `OrSWotSet`; Slot is the abstract view, what a set says of one
--                key. Updates, Observed, Replica and Convergence are about single operations and
--                their delivery, Merge* about `merge`, Safety and Safe* about the stamps called
--                safe, Purge, Changes and WillApply about purges, `diff` and `will_apply`.
--   Clock/*      datacake-node/src/clock.rs: the events of the clock actor.
--   Keyspace/*   datacake-eventual-consistency/src/keyspace/actor.rs and group.rs: the handlers of
--                a keyspace over a storage that is a parameter, the group of keyspaces and its
--                loading; core.rs and storage.rs beside it: documents, the storage interface and
--                the watch over a task's progress. MemStore is the storage in memory of
--                test_utils.rs; Agreement and the Bulk files are about a keyspace beside its storage,
--                NoPanic about bulk sets on their own; Contract, BulkContract and MemStoreInvariant
--                about the storage in memory.
--   Selector/*   datacake-node/src/nodes_selector.rs: the choice of replicas.
--   Membership/* datacake-node/src/node.rs, lib.rs and rpc/network.rs: how members are built from
--                the gossip state (Member), a turn of `watch_membership_changes` (Watch), what a
--                change lists (Changes, Live), and the table of connections (Network).
--   Rpc/*        datacake-rpc/src: statuses (Status), the buffer with its checksum (View), bodies
--                (Body), the table of handlers (Registry, Removal), the server's dispatch of a
--                request (Server), the client's reading of the answer (Client), and a call over a
--                network (Exchange).
--   Replication/* datacake-eventual-consistency/src/replication: distributor.rs, the batches built
--                over the mutations and membership changes queued at a tick (Distributor, Batches);
--                poller.rs, the keyspace tracker and a round of polls (Tracker, Polling), the
--                synchronisation of a keyspace (Sync, SyncEnd), the fetching of documents (Fetch,
--                Chunks, FetchLog, Fetching).
--   Service/*    datacake-eventual-consistency/src/rpc: a node with its keyspaces (Node, Agreement),
--                the handlers of consistency_impl.rs and replication_impl.rs (Consistency,
--                Replication), the calls of client.rs (Clients).
--   Store/*      datacake-eventual-consistency/src/lib.rs and error.rs: the count of
--                acknowledgements (Distribution) and the four mutations of a handle (Handle,
--                Writes).
--   Base/*       shared: Boolean tests on the native numbers, bits, association lists, and the
--                ordered and hash maps of the Rust library as lists.
--   Tests/*      tests on concrete inputs, and each theorem applied.
-- A keyspace orders its work by the timestamps of the clock, keeps an `OrSWotSet`, and replicates
-- it: the set's `diff` is what a poll fetches, its insert and delete what a received batch runs. A
-- store handle writes to its own keyspace, queues the mutation for the distributor, and calls the
-- consistency service of the nodes that the selector names; the poller repairs what is missed. The
-- members they all call come from the membership watch, and the calls go through the RPC framework.
--
-- Conventions. A `Duration` is its nanoseconds. A fixed-width integer is a natural number, masked
-- or bounded where the source masks or checks it. `Option` with `none` is a panic where a function
-- can panic, and `Result` is the source's `Result`. `BTreeMap` is a list sorted by key; `HashMap`
-- a list without repeated keys, whose order no statement depends on. Loops are structural
-- recursion on the collection; where a loop takes fuel, its file says why the fuel suffices.
--
-- Bounds and fuel. The loop that waits for a synchronisation is run on fuel: each check comes at
-- its tick of 250 ms or later, 5 s without progress end it, and progress is counted at most once for
-- each request for documents, so that some fuel is enough. The cutting of a list into chunks takes its
-- length, and the selection of a quorum one turn more than the nodes it needs.
--
-- Not modelled: the archives of rkyv, the checksum, the hash and the HTTP transport, which are
-- parameters of Rpc; the gossip protocol of the chitchat library, whose state is a parameter of
-- Membership; the storage back ends (datacake-sqlite, datacake-lmdb), which run statements of
-- external databases; logging; and the scheduling of tasks: an actor's messages are handled one at
-- a time, so a run of it is the sequence of its handlers, and a handler that awaits others is the
-- sequence of its calls.
pub mod Base
pub mod Timestamp
pub mod Orswot
pub mod Clock
pub mod Keyspace
pub mod Selector
pub mod Membership
pub mod Rpc
pub mod Replication
pub mod Service
pub mod Store
pub mod Tests
