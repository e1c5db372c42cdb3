-- ===== src/StateMachine/Replay.antt =====
-- Entries applied to two state machines that look the same.
use aether_engine.Prelude.{◌≡◌, refl, ◌∙◌, List, [], ◌∷◌, ◌++◌}
use aether_engine.StateMachine.{
  App, Raft, EntryPayload, blank, normal, membership_change, Entry, StateMachineStore, apply_entry,
  apply_entries,
}

module _ (app : App) (raft : Raft app.Data) where
  open app use {
    State, Payload, Data, Config, config, apply, snapshot_bytes, restore, Same, Same_refl,
    apply_config, restore_config, apply_same, restore_same, restore_snapshot,
  }
  open raft use {LogId, index, Membership, no_membership, Bytes}

  -- What raft and the application can see of two state machines is the same.
  pub record SameMachine (a b : StateMachineStore app raft) : Type 0 where
    pub state : Same a.state b.state
    pub last_applied : a.last_applied ≡ b.last_applied
    pub membership : a.membership ≡ b.membership

  -- The state machine after a list of entries.
  abbrev pub replay :
      StateMachineStore app raft → List (Entry app raft) → StateMachineStore app raft
  replay sm es = (apply_entries app raft sm es).0

  pub replay-append :
      (sm : StateMachineStore app raft) (xs ys : List (Entry app raft))
      → replay sm (xs ++ ys) ≡ replay (replay sm xs) ys
  unfolding apply_entries
  replay-append sm [] ys = refl
  replay-append sm (e ∷ es) ys = replay-append (apply_entry app raft sm e).0 es ys

  entry-SameMachine :
      (a b : StateMachineStore app raft) (log_id : LogId) (p : EntryPayload Payload Membership)
      → SameMachine a b
      → let e : Entry app raft = record { log_id = log_id; payload = p } in
        SameMachine (apply_entry app raft a e).0 (apply_entry app raft b e).0
  unfolding apply_entry
  entry-SameMachine a b l blank s = record {
    state = s.state;
    last_applied = refl;
    membership = s.membership;
  }
  entry-SameMachine a b l (normal p) s = record {
    state = apply_same a.state b.state p s.state;
    last_applied = refl;
    membership = s.membership;
  }
  entry-SameMachine a b l (membership_change m) s = record {
    state = s.state;
    last_applied = refl;
    membership = refl;
  }

  pub replay-SameMachine :
      (a b : StateMachineStore app raft) (es : List (Entry app raft))
      → SameMachine a b
      → SameMachine (replay a es) (replay b es)
  unfolding apply_entries
  replay-SameMachine a b [] s = s
  replay-SameMachine a b (e ∷ es) s =
      replay-SameMachine (apply_entry app raft a e).0 (apply_entry app raft b e).0 es
        (entry-SameMachine a b e.log_id e.payload s)

  entry_config :
      (a : StateMachineStore app raft) (log_id : LogId) (p : EntryPayload Payload Membership)
      → config (apply_entry app raft a (record { log_id = log_id; payload = p })).0.state
        ≡ config a.state
  unfolding apply_entry
  entry_config a l blank = refl
  entry_config a l (normal p) = apply_config a.state p
  entry_config a l (membership_change m) = refl

  pub replay_config :
      (a : StateMachineStore app raft) (es : List (Entry app raft))
      → config (replay a es).state ≡ config a.state
  unfolding apply_entries
  replay_config a [] = refl
  replay_config a (e ∷ es) =
      replay_config (apply_entry app raft a e).0 es ∙ entry_config a e.log_id e.payload
