-- ===== src/StateMachine/Restart.antt =====
-- A restart: the newest snapshot with the log entries behind it gives the state that was there.
use aether_engine.Prelude.{
  ℕ, ◌≡◌, refl, sym, ◌∙◌, Bool, true, false, List, [], ◌∷◌, ◌++◌, Option, none, some, subst, arith,
}
use aether_engine.Prelude.HashMap.{HashMap}
use aether_engine.StateMachine.{
  App, Raft, Format, File, Entry, StateMachineStore, start, apply_entry, apply_entries,
  install_meta, file_index, newest, load_latest, persist, with_snapshot_dir, build_snapshot,
  install_snapshot,
}
use aether_engine.StateMachine.Replay.{
  SameMachine, replay, replay-append, replay-SameMachine, replay_config,
}

module _ (app : App) (raft : Raft app.Data) where
  open app use {
    State, Payload, Data, Config, config, apply, snapshot_bytes, restore, Same, Same_refl,
    apply_config, restore_config, apply_same, restore_same, restore_snapshot,
  }
  open raft use {LogId, index, Membership, no_membership, Bytes}

  -- A member's life between two starts: entries applied, snapshots taken, whether the disk took them
  -- or not, and snapshots received from the leader.
  pub data Event : Type 0 where
    applied : List (Entry app raft) → Event
    snapshotted : Bool → Event
    received : File app raft → Event

  module _ (format : Format (File app raft) Bytes) where
    unfoldable pub handle : StateMachineStore app raft → Event → StateMachineStore app raft
    handle sm (applied es) = replay app raft sm es
    handle sm (snapshotted written) = (build_snapshot app raft format sm written).0
    handle sm (received f) = install_snapshot app raft format sm f true

    unfoldable pub live : StateMachineStore app raft → List Event → StateMachineStore app raft
    unfolding handle
    live sm [] = sm
    live sm (e ∷ es) = live (handle sm e) es

    -- The entries of the log behind the newest snapshot on disk.
    abbrev pub tail_after : List (Entry app raft) → Event → List (Entry app raft)
    tail_after tail (applied es) = tail ++ es
    tail_after tail (snapshotted true) = []
    tail_after tail (snapshotted false) = tail
    tail_after tail (received f) = []

    abbrev pub tail_from : List (Entry app raft) → List Event → List (Entry app raft)
    tail_from tail [] = tail
    tail_from tail (e ∷ es) = tail_from (tail_after tail e) es

    load_one :
        (i : ℕ) (f : File app raft)
        → load_latest app raft format ((i, format.serialize f) ∷ []) ≡ some f
    unfolding load_latest newest
    load_one i f = format.deserialize_serialize f

    -- What a restart of the member on the directory, with a fresh application, would come to.
    pub record Recovers (fresh : State) (sm : StateMachineStore app raft)
        (tail : List (Entry app raft)) : Type 0 where
      pub files : HashMap ℕ Bytes
      pub on_disk : sm.snap_dir ≡ some files
      pub peer : config sm.state ≡ config fresh
      pub same :
          SameMachine app raft
            (replay app raft (with_snapshot_dir app raft format fresh files) tail)
            sm

    entry_dir :
        (a : StateMachineStore app raft) (e : Entry app raft)
        → (apply_entry app raft a e).0.snap_dir ≡ a.snap_dir
    unfolding apply_entry
    entry_dir a e = ground arith

    replay_dir :
        (a : StateMachineStore app raft) (es : List (Entry app raft))
        → (replay app raft a es).snap_dir ≡ a.snap_dir
    unfolding apply_entries
    replay_dir a [] = refl
    replay_dir a (e ∷ es) = replay_dir (apply_entry app raft a e).0 es ∙ entry_dir a e

    reopened :
        (fresh : State) (i : ℕ) (f : File app raft)
        → let files : HashMap ℕ Bytes = (i, format.serialize f) ∷ [] in
          with_snapshot_dir app raft format fresh files
          ≡ install_meta app raft (start app raft fresh (some files)) f
    unfolding with_snapshot_dir
    reopened fresh i f = ground (arith, load_one i f)

    pub persist_unwritten :
        (sm : StateMachineStore app raft) (f : File app raft)
        → persist app raft format sm f false ≡ sm
    unfolding persist
    persist_unwritten sm f = ground arith

    pub persist_written :
        (sm : StateMachineStore app raft) (f : File app raft) (files : HashMap ℕ Bytes)
        → sm.snap_dir ≡ some files
        → persist app raft format sm f true
          ≡ record sm { snap_dir = some ((file_index app raft f, format.serialize f) ∷ []) }
    unfolding persist
    persist_written sm f files e = rw (e) refl

    -- A machine that the file on disk describes.
    saved-Recovers :
        (fresh : State) (sm : StateMachineStore app raft) (f : File app raft) (i : ℕ)
        → sm.snap_dir ≡ some ((i, format.serialize f) ∷ [])
        → config sm.state ≡ config fresh
        → Same (restore fresh f.data_bytes).0 sm.state
        → f.meta.last_log_id ≡ sm.last_applied
        → f.meta.last_membership ≡ sm.membership
        → Recovers fresh sm []
    unfolding apply_entries install_meta
    saved-Recovers fresh sm f i on_disk peer state last_applied membership = record {
      files = (i, format.serialize f) ∷ [];
      on_disk = on_disk;
      peer = peer;
      same =
          subst (λ m. SameMachine app raft m sm) (sym (reopened fresh i f))
            (record { state = state; last_applied = last_applied; membership = membership });
    }

    module _ (fresh : State) (sm : StateMachineStore app raft) (tail : List (Entry app raft))
        (r : Recovers fresh sm tail) where
      applied-Recovers :
          (es : List (Entry app raft)) → Recovers fresh (replay app raft sm es) (tail ++ es)
      applied-Recovers es =
          let re = with_snapshot_dir app raft format fresh r.files in
          record {
            files = r.files;
            on_disk = replay_dir sm es ∙ r.on_disk;
            peer = replay_config app raft sm es ∙ r.peer;
            same =
                subst (λ m. SameMachine app raft m (replay app raft sm es))
                  (sym (replay-append app raft re tail es))
                  (replay-SameMachine app raft (replay app raft re tail) sm es r.same);
          }

      unwritten-Recovers : Recovers fresh (build_snapshot app raft format sm false).0 tail
      unfolding build_snapshot
      unwritten-Recovers =
          subst (λ m. Recovers fresh m tail)
            (sym (persist_unwritten _ (build_snapshot app raft format sm false).1))
            (record {
              files = r.files;
              on_disk = r.on_disk;
              peer = r.peer;
              same = record {
                state = r.same.state;
                last_applied = r.same.last_applied;
                membership = r.same.membership;
              };
            })

      written-Recovers : Recovers fresh (build_snapshot app raft format sm true).0 []
      unfolding build_snapshot
      written-Recovers =
          subst (λ m. Recovers fresh m [])
            (sym (persist_written _ (build_snapshot app raft format sm true).1 r.files r.on_disk))
            (saved-Recovers fresh _ (build_snapshot app raft format sm true).1 _ refl r.peer
              (restore_snapshot sm.state fresh r.peer) refl refl)

      pub received-Recovers :
          (f : File app raft) → Recovers fresh (install_snapshot app raft format sm f true) []
      unfolding install_snapshot install_meta
      received-Recovers f =
          subst (λ m. Recovers fresh m [])
            (sym (persist_written (install_meta app raft sm f) f r.files r.on_disk))
            (saved-Recovers fresh _ f _ refl (restore_config sm.state f.data_bytes ∙ r.peer)
              (restore_same fresh sm.state f.data_bytes (sym r.peer)) refl refl)

      handle-Recovers : (e : Event) → Recovers fresh (handle sm e) (tail_after tail e)
      unfolding handle
      handle-Recovers (applied es) = applied-Recovers es
      handle-Recovers (snapshotted true) = written-Recovers
      handle-Recovers (snapshotted false) = unwritten-Recovers
      handle-Recovers (received f) = received-Recovers f

    live-Recovers :
        (fresh : State) (sm : StateMachineStore app raft) (tail : List (Entry app raft))
        (events : List Event)
        → Recovers fresh sm tail
        → Recovers fresh (live sm events) (tail_from tail events)
    unfolding live
    live-Recovers fresh sm tail [] r = r
    live-Recovers fresh sm tail (e ∷ es) r =
        live-Recovers fresh (handle sm e) (tail_after tail e) es (handle-Recovers fresh sm tail r e)

    module _ (fresh : State) (files : HashMap ℕ Bytes) where
      pub opened-Recovers : Recovers fresh (with_snapshot_dir app raft format fresh files) []
      unfolding with_snapshot_dir apply_entries install_meta
      opened-Recovers = opened (load_latest app raft format files) refl
        where
          opened :
              (o : Option (File app raft))
              → load_latest app raft format files ≡ o
              → Recovers fresh (with_snapshot_dir app raft format fresh files) []
          opened none e = record {
            files = files;
            on_disk = rw (with_snapshot_dir, e) refl;
            peer = rw (with_snapshot_dir, e) refl;
            same = record { state = Same_refl _; last_applied = refl; membership = refl };
          }
          opened (some f) e = record {
            files = files;
            on_disk = rw (with_snapshot_dir, e) refl;
            peer = rw (with_snapshot_dir, e) (restore_config fresh f.data_bytes);
            same = record { state = Same_refl _; last_applied = refl; membership = refl };
          }

      -- A member opens its directory, and applies, snapshots and receives snapshots in any order. If
      -- it then stops and opens the directory that it left behind, with the application that it first
      -- started with, the entries behind the newest written snapshot, applied again, give a machine
      -- that is the same as the one that stopped.
      pub restart_resumes :
          (events : List Event)
          → let sm = live (with_snapshot_dir app raft format fresh files) events in
            (left : HashMap ℕ Bytes) × (sm.snap_dir ≡ some left)
            × SameMachine app raft
                (replay app raft
                  (with_snapshot_dir app raft format fresh left)
                  (tail_from [] events))
                sm
      restart_resumes events =
          let r =
            live-Recovers fresh (with_snapshot_dir app raft format fresh files) [] events
              opened-Recovers in
          (r.files, r.on_disk, r.same)
