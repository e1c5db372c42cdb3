-- ===== src/Registry/Tests.antt =====
-- Runs of the registry on a cluster of two shards: shard 0 has a leader and a follower, shard 1 has
-- none.
use aether_engine.Prelude.{
  ℕ, String, List, ◌<◌, ◌≡◌, ◌≢◌, ◌↔◌, refl, true, false, ◌&&◌, some, [], ◌∷◌, ◌++◌, unwrap_or,
  arith, nat_eq, string_eq, any,
}
use text.Mathlib.TextEquality.{eq_iff}
use aether_engine.Prelude.HashMap.{get, contains_key}
use aether_engine.Prelude.HashSet.{contains}
use aether_engine.Prelude.Result.{ok}
use aether_engine.Registry.State.{
  Registry, NodeInfo, leader, follower, unspecified, is_node, knows_node, new, with_vshards,
  reassign_vshard,
}
use aether_engine.Registry.Members.{RegisterNodeRequest, register_at, heartbeat}
use aether_engine.Registry.Failover.{
  is_stale, reap_dead, report_raft_leader, promote_orphaned_shards,
}
use aether_engine.Registry.Step.{register, reap, promote, restore, step, run}
use aether_engine.Registry.Invariant.{IsValid}
use aether_engine.Registry.Invariant.Promotion.{step-IsValid, run-new-IsValid}
use aether_engine.Registry.Registration.{IsContested, register_at-accepted}
use aether_engine.Registry.Reaping.{
  fresh_leaders, stale_leaders, fresh_followers, stale_followers, reap_dead_lem,
}
use aether_engine.Registry.Liveness.{heartbeat_keeps_alive}
use aether_engine.Registry.Draining.{drain_sticky, drain_forgotten}
use aether_engine.Registry.Routing.{report_routes, promotion_staffs}

abbrev node_a : NodeInfo
node_a = record { node_id = "a"; address = "host:1"; role = leader; last_seen = 100 }

abbrev node_b : NodeInfo
node_b = record { node_id = "b"; address = "host:2"; role = follower; last_seen = 40 }

abbrev two_shards : Registry
two_shards = record {
  shard_count = 2;
  liveness_timeout = 50;
  leaders = (0, node_a) ∷ [];
  followers = (0, node_b ∷ []) ∷ [];
  draining = "a" ∷ [];
  vshards = 0 ∷ 1 ∷ 0 ∷ 1 ∷ [];
  placement_version = 0;
  authority_replicated = false;
}

two_shards-IsValid : IsValid two_shards
unfolding get
two_shards-IsValid = record {
  leaders_distinct = (refl, tt);
  followers_distinct = (refl, tt);
  leaders_in_range = ((omega arith, refl), tt);
  followers_in_range = ((omega arith, (refl, tt)), tt);
  groups_in_range = (omega arith, (omega arith, (omega arith, (omega arith, tt))));
}

-- Node b claims shard 0.
abbrev claim : RegisterNodeRequest
claim = record { node_id = "b"; address = "host:2"; shard_id = 0; role = leader }

b_is_not_a : node_a.node_id ≢ claim.node_id
b_is_not_a e = absurd (ground (arith, eq_iff "a" "b"))

register_at-accepted_example : ((register_at two_shards claim 160).1.accepted ≡ true) ↔ (
    (0 < 2)
    × (claim.role ≢ unspecified)
    × (claim.role ≡ leader → (current : NodeInfo) → ¬ IsContested two_shards claim 160 current))
register_at-accepted_example = register_at-accepted two_shards claim 160

step-IsValid_example : IsValid (step two_shards (restore (1 ∷ 0 ∷ []) ("b" ∷ [])))
step-IsValid_example =
    step-IsValid two_shards (restore (1 ∷ 0 ∷ []) ("b" ∷ [])) (omega arith, (omega arith, tt))
      two_shards-IsValid

run-new-IsValid_example : IsValid (
    run
      (with_vshards (new 2) 4)
      (register claim 0 ∷ restore (1 ∷ 0 ∷ []) [] ∷ reap 20000 15000 ∷ promote ∷ []))
run-new-IsValid_example =
    run-new-IsValid 2 4
      (register claim 0 ∷ restore (1 ∷ 0 ∷ []) [] ∷ reap 20000 15000 ∷ promote ∷ []) (omega arith)
      (tt, ((omega arith, (omega arith, tt)), (tt, (tt, tt))))

moves : (reassign_vshard two_shards 1 0).1 ≡ ok tt
unfolding reassign_vshard
moves = refl

-- At 120 with a timeout of 50, node b is stale and node a is not.
reap_dead_lem_example :
    ((reap_dead two_shards 120 50).0.leaders ≡ fresh_leaders 120 50 two_shards.leaders)
    × ((reap_dead two_shards 120 50).0.followers ≡ fresh_followers 120 50 two_shards.followers)
    × ((reap_dead two_shards 120 50).1
        ≡ stale_leaders 120 50 two_shards.leaders ++ stale_followers 120 50 two_shards.followers)
unfolding get
reap_dead_lem_example = reap_dead_lem two_shards 120 50 (refl, tt)

knows_b : knows_node two_shards "b" ≡ true
unfolding knows_node any
knows_b = refl

heartbeat_keeps_alive_example :
    knows_node (reap_dead (heartbeat two_shards "b" 90).0 120 50).0 "b" ≡ true
heartbeat_keeps_alive_example =
    heartbeat_keeps_alive two_shards "b" 90 120 50 two_shards-IsValid knows_b (omega arith)

marked : contains two_shards.draining "a" ≡ true
unfolding contains
marked = refl

no_reaping : (now timeout : ℕ) → register claim 160 ≡ reap now timeout → ⊥
no_reaping now timeout e = cc e

no_restoring :
    (vshards : List ℕ) (draining : List String) → register claim 160 ≡ restore vshards draining → ⊥
no_restoring vshards draining e = cc e

drain_sticky_example : contains (step two_shards (register claim 160)).draining "a" ≡ true
drain_sticky_example =
    drain_sticky two_shards (register claim 160) "a"
      (λ now timeout e. absurd (no_reaping now timeout e))
      (λ vshards draining e. absurd (no_restoring vshards draining e)) marked

-- Node b has registered as the leader of shard 0 and sends heartbeats, which reach that entry, while
-- its follower entry from before is out of date.
abbrev relic : Registry
relic = record two_shards {
  leaders = (0, record node_b { role = leader; last_seen = 110 }) ∷ [];
  draining = "b" ∷ [];
}

stale_relic :
    any (λ entry. any (λ k. is_node "b" k && is_stale 120 50 k) entry.1) relic.followers ≡ true
unfolding any
stale_relic = refl

drain_forgotten_example :
    (contains (reap_dead relic 120 50).0.draining "b" ≡ false)
    × (knows_node (reap_dead relic 120 50).0 "b" ≡ true)
unfolding get
drain_forgotten_example =
    drain_forgotten relic 120 50 0 (record node_b { role = leader; last_seen = 110 }) (refl, tt)
      refl refl refl stale_relic

b_leads : (report_raft_leader two_shards "b" 130).1 ≡ some 0
unfolding report_raft_leader
b_leads = refl

report_routes_example :
    let r' = (report_raft_leader two_shards "b" 130).0 in
    ((n : NodeInfo) × (get r'.leaders 0 ≡ some n)
      × (n.node_id ≡ "b")
      × (n.role ≡ leader)
      × (n.last_seen ≡ 130))
    × ((j : ℕ) → 0 ≢ j → get r'.leaders j ≡ get two_shards.leaders j)
    × ((old : NodeInfo)
        → get two_shards.leaders 0 ≡ some old
        → any (is_node old.node_id) (unwrap_or (get r'.followers 0) []) ≡ true)
report_routes_example = report_routes two_shards "b" 130 0 b_leads

promotion_staffs_example :
    let r' = (promote_orphaned_shards two_shards).0 in
    ((j : ℕ) → unwrap_or (get two_shards.followers j) [] ≢ [] → contains_key r'.leaders j ≡ true)
    × ((j : ℕ) (n : NodeInfo) → get two_shards.leaders j ≡ some n → get r'.leaders j ≡ some n)
promotion_staffs_example = promotion_staffs two_shards
