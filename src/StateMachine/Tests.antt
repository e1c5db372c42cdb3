-- ===== src/StateMachine/Tests.antt =====
-- Runs of the state machine over the coordinator state group: a drain and a move around a snapshot.
use aether_engine.Prelude.{
  ℕ, ◌≡◌, refl, Bool, true, false, List, [], ◌∷◌, Option, none, some, ◌⊎◌, inl, inr,
}
use aether_engine.Prelude.HashMap.{HashMap}
use aether_engine.Registry.State.{Registry, new, with_vshards, apply_drain_marker}
use aether_engine.Control.{Command, reassign, drain_node, Authority, Bincode, apply, apply_command}
use aether_engine.StateMachine.{
  App, Raft, SnapshotFile, Format, apply_entry, apply_entries, EntryPayload, blank, normal,
  membership_change, File, Entry, StateMachineStore, start, load_latest, newest, with_snapshot_dir,
  open_durable, build_snapshot,
}
use aether_engine.StateMachine.Replay.{SameMachine, replay}
use aether_engine.StateMachine.Restart.{
  Recovers, Event, applied, snapshotted, live, tail_from, restart_resumes,
}
use aether_engine.StateMachine.Boot.{cold_boot}
use aether_engine.StateMachine.Instances.{control_app}

-- A lossless encoding: the values themselves.
abbrev plain : Bincode
plain = record {
  Bytes = Command ⊎ Authority;
  command_bytes = inl;
  command_of = λ bytes. elim bytes [ inl c ↦ some c | inr a ↦ none ];
  authority_bytes = inr;
  authority_of = λ bytes. elim bytes [ inl c ↦ none | inr a ↦ some a ];
  command_of_bytes = λ c. refl;
  authority_of_bytes = λ a. refl;
}

abbrev coordinator : App
coordinator = control_app plain

-- Log ids are indexes, memberships are lists of node ids, and a file is there or cannot be read.
abbrev plain_raft : Raft (Command ⊎ Authority)
plain_raft = record {
  LogId = ℕ;
  index = λ l. l;
  Membership = List ℕ;
  no_membership = [];
  Bytes = Option (SnapshotFile ℕ (List ℕ) (Command ⊎ Authority));
}

abbrev plain_format :
    Format (File coordinator plain_raft) (Option (SnapshotFile ℕ (List ℕ) (Command ⊎ Authority)))
plain_format = record {
  serialize = λ f. some f;
  deserialize = λ bytes. bytes;
  deserialize_serialize = λ f. refl;
}

abbrev at : ℕ → EntryPayload (Command ⊎ Authority) (List ℕ) → Entry coordinator plain_raft
at i p = record { log_id = i; payload = p }

abbrev fresh : Registry
fresh = with_vshards (new 2) 4

-- A drain is under the snapshot, a move and a change of membership are behind it, and the next
-- snapshot does not reach the disk.
abbrev life : List (Event coordinator plain_raft)
life =
    applied (at 1 blank ∷ at 2 (normal (inl (drain_node "a"))) ∷ [])
    ∷ snapshotted true
    ∷ applied (at 3 (normal (inl (reassign 1 0))) ∷ at 4 (membership_change (1 ∷ 2 ∷ [])) ∷ [])
    ∷ snapshotted false
    ∷ []

abbrev after_life : StateMachineStore coordinator plain_raft
after_life =
    live coordinator plain_raft plain_format
      (with_snapshot_dir coordinator plain_raft plain_format fresh []) life

restart_resumes_example :
    (left : HashMap ℕ (Option (SnapshotFile ℕ (List ℕ) (Command ⊎ Authority))))
    × (after_life.snap_dir ≡ some left)
    × SameMachine coordinator plain_raft
        (replay coordinator plain_raft
          (with_snapshot_dir coordinator plain_raft plain_format fresh left)
          (tail_from coordinator plain_raft plain_format [] life))
        after_life
restart_resumes_example = restart_resumes coordinator plain_raft plain_format fresh [] life

-- What is behind the snapshot: the move and the change of membership.
tail_of_life :
    tail_from coordinator plain_raft plain_format [] life
    ≡ at 3 (normal (inl (reassign 1 0))) ∷ at 4 (membership_change (1 ∷ 2 ∷ [])) ∷ []
tail_of_life = refl

no_files : load_latest coordinator plain_raft plain_format [] ≡ none
unfolding load_latest newest
no_files = refl

abbrev uploader : StateMachineStore coordinator plain_raft
uploader =
    replay coordinator plain_raft (start coordinator plain_raft fresh none)
      (at 1 (normal (inl (drain_node "a"))) ∷ [])

same_count : uploader.state.shard_count ≡ fresh.shard_count
unfolding apply_entries apply_entry apply apply_command apply_drain_marker
same_count = refl

cold_boot_example :
    let (sm', f) = build_snapshot coordinator plain_raft plain_format uploader false in
    let boot = open_durable coordinator plain_raft plain_format fresh [] (some (some f)) in
    ((written : Bool) → SameMachine coordinator plain_raft (boot written) sm')
    × Recovers coordinator plain_raft plain_format fresh (boot true) []
cold_boot_example =
    cold_boot coordinator plain_raft plain_format fresh [] uploader false no_files same_count
