-- ===== src/Control.antt =====
-- crates/coordinator/src/control.rs: the application of the coordinator state group. Committed
-- commands change the placement table and the drain set; everything else in the registry is the
-- replica's own view.
pub mod Replicas
pub mod Tests
use aether_engine.Prelude.{
  ℕ, ◌+◌, ◌%◌, ◌^◌, ◌≡◌, String, List, [], length, Option, none, some, unwrap_or,
}
use aether_engine.Registry.State.{
  Registry, reassign_vshard, apply_drain_marker, authority, set_authority,
}

pub data Command : Type 0 where
  reassign : ℕ → ℕ → Command
  drain_node : String → Command

pub record Authority : Type 0 where
  pub vshards : List ℕ
  pub draining : List String

-- `Authority::default()`.
abbrev pub no_authority : Authority
no_authority = record { vshards = []; draining = [] }

-- `bincode`, for the two types that this module stores: what was serialized deserializes again.
pub record Bincode : Type 1 where
  pub Bytes : Type 0
  pub command_bytes : Command → Bytes
  pub command_of : Bytes → Option Command
  pub authority_bytes : Authority → Bytes
  pub authority_of : Bytes → Option Authority
  pub command_of_bytes : (c : Command) → command_of (command_bytes c) ≡ some c
  pub authority_of_bytes : (a : Authority) → authority_of (authority_bytes a) ≡ some a

-- `ControlApp::apply` behind the decoding: the new registry and the count that raft answers with.
unfoldable pub apply_command : Registry → Option Command → Registry × ℕ
apply_command r (some (reassign vshard group)) = ((reassign_vshard r vshard group).0, 1)
apply_command r (some (drain_node node_id)) = (apply_drain_marker r node_id, 1)
apply_command r none = (r, 0)

module _ (b : Bincode) where
  open b use {Bytes, command_of, authority_bytes, authority_of}

  unfoldable pub apply : Registry → Bytes → Registry × ℕ
  unfolding apply_command
  apply r payload = apply_command r (command_of payload)

  unfoldable pub snapshot_bytes : Registry → Bytes
  snapshot_bytes r =
      let (vshards, draining) = authority r in
      authority_bytes (record { vshards = vshards; draining = draining })

  unfoldable pub restore : Registry → Bytes → Registry × ℕ
  restore r bytes =
      let auth = unwrap_or (authority_of bytes) no_authority in
      (
        set_authority r auth.vshards auth.draining,
        (length auth.vshards + length auth.draining) % 2 ^ 32,
      )
