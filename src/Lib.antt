-- ===== src/Lib.antt =====
-- A model of the Aether engine, a distributed search engine for aircraft positions, and its proofs.
--
-- A coordinator keeps a registry of the shard nodes, and routes queries to the leader of each shard. A
-- key (icao24) hashes to a shard, or to a virtual shard that the registry's placement table assigns to
-- a group of nodes. The decisions of the operators, the placement table and the drain set, are
-- replicated by a raft group of coordinators; a member of a raft group keeps its log on disk.
--
--   Shard      crates/common/src/shard.rs (fnv1a_64, shard_for, vshard_for) and the ownership test of
--              crates/shard-node/src/ingest.rs (ShardAssignment::owns, Ownership::owns).
--   Registry   crates/coordinator/src/registry.rs. State holds the record and its constructors, the
--              placement table (reassign_vshard, validate_reassign) and the drain set; Members holds
--              register_at and heartbeat; Failover holds reap_dead, report_raft_leader and
--              promote_orphaned_shards; Snapshot holds snapshot and members_of; Step makes all
--              calls one step from a registry to the next (restore is set_authority), and run folds a
--              history of calls.
--              A HashMap is an association list in which the iteration order is the list's. The
--              loops that stop at a first match return an Option. Invariant says what a
--              well-formed registry is.
--   Reconcile  crates/shard-node/src/raft/reconcile.rs: the proposals of one tick of
--              run_membership_reconciler, for the members that the coordinator's list_shard_members
--              gives. The sets that openraft holds are lists.
--   Control    crates/coordinator/src/control.rs: ControlApp::apply, snapshot_bytes and restore. The
--              bincode calls are the parameter Bincode, with the law that decoding undoes encoding.
--              Replicas has histories in which a replica's own calls and commands are interleaved.
--   Filter     crates/common/src/filter.rs: validate and passes. Shape reads a condition by a schema
--              of named columns; f64 is the parameter Floats, with one law on its comparisons.
--   Wal        crates/consensus/src/wal.rs. State: WalRecord and WalState::apply. Frame: frame, and the
--              loop of Wal::open over the bytes of a segment. Log: the segments, append and rotate,
--              and the mutations append_entries, truncate_from (here truncate), save_committed and
--              purge (here purge_to). Open: Wal::open on a list of files in sequence order. The types
--              of openraft, bincode and the crc32 checksum are parameters (Codec), with the laws that
--              decoding undoes encoding and that a checksum is a u32; Log takes the length of a
--              serialized record instead. A segment is held with the records of its file.
--   Fanout     crates/coordinator/src/fanout.rs: merge_search_responses, dedup_by_aircraft (one round
--              of its loop is keep), cmp_hits (here ranks_before), build_manifest and, in Running,
--              ProgressiveMerge, whose new is start here. A score is a parameter (Scores), with the
--              laws that the comparison of f64 has where no score is NaN; observation times (i64) are
--              natural numbers.
--   Hybrid     crates/coordinator/src/hybrid.rs: rrf_fuse; its closure fold is fuse_list, and f64 is the
--              parameter Fractions.
--   Outranking the order by score and name in which Index and Hybrid rank their hits, as a relation.
--   LogStorage crates/consensus/src/storage.rs (LogStore, in Memory) and WalLogStore of wal.rs (in Disk),
--              the two stores that raft can run on: the calls that change a store are the constructors
--              of LogCall, step applies one, run a history. A BTreeMap is an association list too;
--              its ordered reads are range_entries and next_back.
--   StateMachine
--              crates/consensus/src/storage.rs, StateMachineStore over an application (App, the trait
--              StateMachineApp of crates/consensus/src/lib.rs with its laws) and over the types of
--              openraft (Raft) and bincode (Format): apply, build_snapshot, install_snapshot, persist,
--              with_snapshot_dir and open_durable. The snapshot directory is an association list from
--              the index in a file's name to the file's bytes. Restart has histories of a member
--              between two starts; Boot is about the S3 tier; Instances makes ControlApp an App.
--   Tokens     tokenize, which crates/shard-node/src/index.rs and crates/memory/src/lib.rs both declare,
--              on lists of code points; the Unicode tables are the parameter Letters.
--   Index      crates/shard-node/src/index.rs: new, insert (its two branches are replace and admit),
--              remove, documents and, in Search, search. A panic is none. f64, the environment's BM25
--              parameters and Letters are the parameter Analysis. Corpus has the map of aircraft that an
--              index stands for, Frequencies the words of a document, counted, Ranked
--              the scores that such a map gives, and Histories runs changes.
--   Quant      crates/shard-node/src/quant.rs: quantize and hamming. A u64 word is the list of its bits;
--              f32 is the parameter Floats.
--   Vectors    crates/shard-node/src/vector.rs: insert (its two branches are observe and append), remove,
--              rebuild and, in Search, search_flat, search_quantized, search_hnsw and search. A panic is
--              none. The embedder, the graph of hnsw_rs, the unstable sort of the standard library and
--              f64 are the parameter Space, with the laws that a graph answers ids which were inserted
--              and that a sort permutes. A String that the code builds is a list of code points.
--   Store      crates/shard-node/src/store.rs (ShardStore) over Index and Vectors, and ShardApp of
--              crates/shard-node/src/raft/mod.rs (apply, snapshot_bytes, restore) with prost as the
--              parameter Prost, with the law that a decoded message equals the encoded one, its maps as
--              maps. Contents has the contents of a shard in the abstract, a function from names to
--              documents, and what commands do to them.
--   Memory     crates/memory/src/lib.rs: remember (its governed part is write), sweep_namespace, sweep,
--              len and recall. Quota and Recall have histories of writes and sweeps.
--   Auth       crates/coordinator/src/auth.rs: from_env on the words of the token file's lines, and require
--              on the text of a request's authorization metadata.
--   Prelude    the shared helpers: tests on numbers, lists, the association maps and sets, sorting.
--
-- Instants and durations are natural numbers of milliseconds; a saturating difference of instants is
-- subtraction on natural numbers. The u64 placement version wraps at 2^64 and the hash multiplies
-- modulo 2^64; a cast to u32 is % 2 ^ 32. The scan runs on fuel, one more than there are bytes: each
-- round consumes a header of eight bytes, so it never runs out. append and rotate call each other, on
-- fuel 2, which is enough where a checkpoint record does not fill a segment of 8 MiB.
--
-- Not modelled: the network, the file system's errors, clocks, locks (each call holds the registry's
-- lock for its whole duration, so that calls are steps), floating-point scoring, and the components
-- around the core: the calls of the shards, embedders, ingest feeds and the agents.
mod Prelude
pub mod Auth
pub mod Control
pub mod Fanout
pub mod Filter
pub mod Hybrid
pub mod Index
pub mod LogStorage
pub mod Memory
pub mod Outranking
pub mod Quant
pub mod Reconcile
pub mod Registry
pub mod Shard
pub mod StateMachine
pub mod Store
pub mod Tokens
pub mod Vectors
pub mod Wal
