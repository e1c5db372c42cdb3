-- ===== src/Registry/Step.antt =====
-- Every call that changes the registry, as one step; a history is a list of calls.
use aether_engine.Prelude.{ℕ, String, List, [], ◌∷◌}
use aether_engine.Registry.State.{
  Registry, reassign_vshard, mark_draining, apply_drain_marker, set_authority,
}
use aether_engine.Registry.Members.{RegisterNodeRequest, register_at, heartbeat}
use aether_engine.Registry.Failover.{reap_dead, report_raft_leader, promote_orphaned_shards}

pub data Call : Type 0 where
  register : RegisterNodeRequest → ℕ → Call
  beat : String → ℕ → Call
  reap : ℕ → ℕ → Call
  report : String → ℕ → Call
  promote : Call
  reassign : ℕ → ℕ → Call
  drain : String → Call
  apply_drain : String → Call
  restore : List ℕ → List String → Call

unfoldable pub step : Registry → Call → Registry
step r (register req now) = (register_at r req now).0
step r (beat node_id now) = (heartbeat r node_id now).0
step r (reap now timeout) = (reap_dead r now timeout).0
step r (report node_id now) = (report_raft_leader r node_id now).0
step r promote = (promote_orphaned_shards r).0
step r (reassign vshard group) = (reassign_vshard r vshard group).0
step r (drain node_id) = (mark_draining r node_id).0
step r (apply_drain node_id) = apply_drain_marker r node_id
step r (restore vshards draining) = set_authority r vshards draining

unfoldable pub run : Registry → List Call → Registry
unfolding step
run r [] = r
run r (c ∷ cs) = run (step r c) cs
