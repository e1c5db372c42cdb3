-- ===== src/StateMachine/Instances.antt =====
-- crates/coordinator/src/control.rs, `impl StateMachineApp for ControlApp`: the coordinator state group
-- as an application of the state machine. A registry is the same as another for raft when their
-- authorities are the same.
use aether_engine.Prelude.{◌≡◌, refl, Option, none, some, ℕ, arith}
use aether_engine.Registry.State.{Registry, reassign_vshard, apply_drain_marker, set_authority}
use aether_engine.Control.{
  Command, reassign, drain_node, Bincode, apply_command, apply, snapshot_bytes, restore,
}
use aether_engine.Control.Replicas.{
  SameAuthority, apply_command-SameAuthority, restored-SameAuthority,
}
use aether_engine.StateMachine.{App}

command_count :
    (r : Registry) (c : Option Command) → (apply_command r c).0.shard_count ≡ r.shard_count
unfolding apply_command
command_count r none = refl
command_count r (some (drain_node id)) = unfold apply_drain_marker in refl
command_count r (some (reassign vshard group)) = unfold reassign_vshard in ground arith

module _ (b : Bincode) where
  pub payload_count : (r : Registry) (p : b.Bytes) → (apply b r p).0.shard_count ≡ r.shard_count
  unfolding apply
  payload_count r p = command_count r (b.command_of p)

  pub payload-SameAuthority :
      (r s : Registry) (p : b.Bytes)
      → SameAuthority r s
      → SameAuthority (apply b r p).0 (apply b s p).0
  unfolding apply
  payload-SameAuthority r s p = apply_command-SameAuthority r s (b.command_of p)

  pub restored_count : (r : Registry) (d : b.Bytes) → (restore b r d).0.shard_count ≡ r.shard_count
  unfolding restore set_authority
  restored_count r d = refl

  pub restored_same :
      (r s : Registry) (d : b.Bytes)
      → r.shard_count ≡ s.shard_count
      → SameAuthority (restore b r d).0 (restore b s d).0
  unfolding restore set_authority
  restored_same r s d n = record { count = n; table = refl; drains = λ j. refl }

  abbrev pub control_app : App
  control_app = record {
    State = Registry;
    Config = ℕ;
    Payload = b.Bytes;
    Data = b.Bytes;
    config = λ r. r.shard_count;
    apply = apply b;
    snapshot_bytes = snapshot_bytes b;
    restore = restore b;
    Same = SameAuthority;
    Same_refl = λ r. record { count = refl; table = refl; drains = λ j. refl };
    apply_config = payload_count;
    restore_config = restored_count;
    apply_same = payload-SameAuthority;
    restore_same = restored_same;
    restore_snapshot = λ r s n. restored-SameAuthority b r s n;
  }
