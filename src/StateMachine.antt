-- ===== src/StateMachine.antt =====
-- crates/consensus/src/storage.rs, StateMachineStore: the state machine of a raft member over the
-- state of an application, with its snapshots in memory, in a directory and in S3.
pub mod Replay
pub mod Restart
pub mod Boot
pub mod Instances
pub mod Tests
use aether_engine.Prelude.{
  ℕ, ◌+◌, ◌%◌, ◌^◌, ◌≡◌, Bool, true, false, List, [], ◌∷◌, Option, none, some, if◌then◌else◌, ltb,
}
use aether_engine.Prelude.HashMap.{HashMap}

-- `StateMachineApp`, and what its snapshots promise: two states are the same if commands cannot tell
-- them apart, and a restored snapshot is the same as the state that it was taken of, whatever stood
-- there before.
pub record App : Type 1 where
  pub State : Type 0
  pub Config : Type 0
  pub Payload : Type 0
  pub Data : Type 0
  pub config : State → Config
  pub apply : State → Payload → State × ℕ
  pub snapshot_bytes : State → Data
  pub restore : State → Data → State × ℕ
  pub Same : State → State → Type 0
  pub Same_refl : (s : State) → Same s s
  pub apply_config : (s : State) (p : Payload) → config (apply s p).0 ≡ config s
  pub restore_config : (s : State) (d : Data) → config (restore s d).0 ≡ config s
  pub apply_same : (s t : State) (p : Payload) → Same s t → Same (apply s p).0 (apply t p).0
  pub restore_same :
      (s t : State) (d : Data) → config s ≡ config t → Same (restore s d).0 (restore t d).0
  pub restore_snapshot :
      (s t : State) → config s ≡ config t → Same (restore t (snapshot_bytes s)).0 s

-- openraft's log ids and memberships, and `bincode` on snapshot files.
pub record Raft (Data : Type 0) : Type 1 where
  pub LogId : Type 0
  pub index : LogId → ℕ
  pub Membership : Type 0
  pub no_membership : Membership
  pub Bytes : Type 0

pub record StoredMembership (LogId Membership : Type 0) : Type 0 where
  pub log_id : Option LogId
  pub membership : Membership

-- The snapshot id is the number in `snap-{n}`.
pub record SnapshotMeta (LogId Membership : Type 0) : Type 0 where
  pub last_log_id : Option LogId
  pub last_membership : StoredMembership LogId Membership
  pub snapshot_id : ℕ

-- `StoredSnapshot`, and `SnapshotFile` with it.
pub record SnapshotFile (LogId Membership Data : Type 0) : Type 0 where
  pub meta : SnapshotMeta LogId Membership
  pub data_bytes : Data

pub data EntryPayload (Payload Membership : Type 0) : Type 0 where
  blank : EntryPayload Payload Membership
  normal : Payload → EntryPayload Payload Membership
  membership_change : Membership → EntryPayload Payload Membership

-- What was serialized deserializes again; other bytes may not.
pub record Format (File Bytes : Type 0) : Type 0 where
  pub serialize : File → Bytes
  pub deserialize : Bytes → Option File
  pub deserialize_serialize : (f : File) → deserialize (serialize f) ≡ some f

module _ (app : App) (raft : Raft app.Data) where
  open app use {State, Payload, Data, apply, snapshot_bytes, restore}
  open raft use {LogId, index, Membership, no_membership, Bytes}

  abbrev pub File : Type 0
  File = SnapshotFile LogId Membership Data

  pub record Entry : Type 0 where
    pub log_id : LogId
    pub payload : EntryPayload Payload Membership

  -- The handle with what it shares; the directory holds files by the index in their names.
  pub record StateMachineStore : Type 0 where
    pub state : State
    pub last_applied : Option LogId
    pub membership : StoredMembership LogId Membership
    pub snapshot_seq : ℕ
    pub snapshot : Option File
    pub snap_dir : Option (HashMap ℕ Bytes)

  abbrev pub start : State → Option (HashMap ℕ Bytes) → StateMachineStore
  start state snap_dir = record {
    state = state;
    last_applied = none;
    membership = record { log_id = none; membership = no_membership };
    snapshot_seq = 0;
    snapshot = none;
    snap_dir = snap_dir;
  }

  -- One round of the loop of `apply`, and the loop.
  unfoldable pub apply_entry : StateMachineStore → Entry → StateMachineStore × ℕ
  apply_entry sm e = elim e.payload [
    | blank ↦ (record sm { last_applied = some e.log_id }, 0)
    | normal p ↦
        let (state, count) = apply sm.state p in
        (record sm { state = state; last_applied = some e.log_id }, count)
    | membership_change m ↦ (
      record sm {
        membership = record { log_id = some e.log_id; membership = m };
        last_applied = some e.log_id;
      },
      0,
    )
  ]

  unfoldable pub apply_entries : StateMachineStore → List Entry → StateMachineStore × List ℕ
  unfolding apply_entry
  apply_entries sm [] = (sm, [])
  apply_entries sm (e ∷ es) =
      let (sm', reply) = apply_entry sm e in
      let (sm'', replies) = apply_entries sm' es in (sm'', reply ∷ replies)

  unfoldable pub install_meta : StateMachineStore → File → StateMachineStore
  install_meta sm f = record sm {
    state = (restore sm.state f.data_bytes).0;
    last_applied = f.meta.last_log_id;
    membership = f.meta.last_membership;
    snapshot = some f;
  }

  unfoldable pub file_index : File → ℕ
  file_index f = elim f.meta.last_log_id [ none ↦ 0 | some l ↦ index l ]

  -- The loop of `load_latest` over the directory.
  unfoldable pub newest : Option (ℕ × Bytes) → HashMap ℕ Bytes → Option (ℕ × Bytes)
  newest best [] = best
  newest none ((i, bytes) ∷ files) = newest (some (i, bytes)) files
  newest (some (n, old)) ((i, bytes) ∷ files) =
      newest (if ltb n i then some (i, bytes) else some (n, old)) files

  module _ (format : Format File Bytes) where
    open format use {serialize, deserialize}

    unfoldable pub load_latest : HashMap ℕ Bytes → Option File
    unfolding newest
    load_latest files = elim (newest none files) [
      | none ↦ none
      | some (i, bytes) ↦ deserialize bytes
    ]

    -- `written` tells whether the file system wrote the file; if it did, the other files are removed.
    unfoldable pub persist : StateMachineStore → File → Bool → StateMachineStore
    unfolding file_index
    persist sm f written = elim sm.snap_dir [
      | none ↦ sm
      | some files ↦
          if written then record sm { snap_dir = some ((file_index f, serialize f) ∷ []) } else sm
    ]

    unfoldable pub with_snapshot_dir : State → HashMap ℕ Bytes → StateMachineStore
    unfolding load_latest install_meta
    with_snapshot_dir state files =
        let sm = start state (some files) in
        elim (load_latest files) [ none ↦ sm | some f ↦ install_meta sm f ]

    -- `open_durable`, with the newest object of the S3 tier if there is such a tier and an object.
    unfoldable pub open_durable : State → HashMap ℕ Bytes → Option Bytes → Bool → StateMachineStore
    unfolding with_snapshot_dir install_meta persist
    open_durable state files s3 written =
        let sm = with_snapshot_dir state files in
        elim sm.snapshot [
          | some f ↦ sm
          | none ↦ elim s3 [
            | none ↦ sm
            | some bytes ↦ elim (deserialize bytes) [
              | none ↦ sm
              | some f ↦ persist (install_meta sm f) f written
            ]
          ]
        ]

    unfoldable pub build_snapshot : StateMachineStore → Bool → StateMachineStore × File
    unfolding persist
    build_snapshot sm written =
        let n = (sm.snapshot_seq + 1) % 2 ^ 64 in
        let f : File = record {
          meta = record {
            last_log_id = sm.last_applied;
            last_membership = sm.membership;
            snapshot_id = n;
          };
          data_bytes = snapshot_bytes sm.state;
        } in
        (persist (record sm { snapshot_seq = n; snapshot = some f }) f written, f)

    unfoldable pub install_snapshot : StateMachineStore → File → Bool → StateMachineStore
    unfolding install_meta persist
    install_snapshot sm f written = persist (install_meta sm f) f written
