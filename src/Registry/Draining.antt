-- ===== src/Registry/Draining.antt =====
-- Drain markers: what keeps them, and the one way to lose them.
use aether_engine.Prelude.{
  ℕ, ◌≡◌, refl, ap, ◌∙◌, String, true, false, not, ◌&&◌, ◌||◌, List, [], ◌∷◌, map, some, arith,
  nat_eq, string_eq, ◌==◌, beq_refl, any, any-append, retain,
}
use aether_engine.Prelude.HashMap.{HashMap, get, Distinct}
use aether_engine.Prelude.HashSet
use aether_engine.Prelude.HashSet.{contains, contains-insert, contains-remove, contains-collect}
use aether_engine.Registry.State.{
  Registry, NodeInfo, is_node, knows_node, mark_draining, apply_drain_marker, reassign_vshard,
  set_authority,
}
use aether_engine.Registry.Members.{register_at, admit, heartbeat}
use aether_engine.Registry.Failover.{
  is_stale, undrain, reap_dead, report_raft_leader, refresh_leader, promote_orphaned_shards,
  promote_shards, promote_shard,
}
use aether_engine.Registry.Step.{
  Call, register, beat, reap, report, promote, reassign, drain, apply_drain, restore, step,
}
use aether_engine.Registry.Reaping.{fresh_leaders, stale_leaders, stale_followers, reap_dead_lem}

contains-undrain :
    (draining : List String) (ns : List NodeInfo) (id : String)
    → contains (undrain draining ns) id ≡ (not (any (is_node id) ns) && contains draining id)
unfolding undrain any
contains-undrain draining [] id = refl
contains-undrain draining (n ∷ ns) id = ground (
  arith,
  contains-undrain (HashSet.remove draining n.node_id) ns id,
  contains-remove draining n.node_id id,
)

-- A marker goes in a reaping exactly when its node is among those removed and the registry owns its
-- drain set; under replicated authority no reaping touches it.
pub reap_dead-draining :
    (r : Registry) (now timeout : ℕ) (id : String)
    → contains (reap_dead r now timeout).0.draining id ≡ (
        contains r.draining id
        && (r.authority_replicated || not (any (is_node id) (reap_dead r now timeout).1)))
unfolding reap_dead
reap_dead-draining r now timeout id =
    ground (arith, contains-undrain r.draining (reap_dead r now timeout).1 id)

draining-promote_shards :
    (shards : List ℕ) (r : Registry) → (promote_shards r shards).0.draining ≡ r.draining
unfolding promote_shards promote_shard
draining-promote_shards [] r = refl
draining-promote_shards (s ∷ ss) r =
    ground (arith, draining-promote_shards ss (promote_shard r s).0)

contains-any :
    (draining : List String) (id : String) → contains draining id ≡ any (λ d. d == id) draining
unfolding contains any
contains-any [] id = refl
contains-any (d ∷ draining) id = ap (λ b. d == id || b) (contains-any draining id)

-- No call but a reaping, or the restoring of a snapshot, can lose a marker. A reaping loses it only as
-- its node is removed from a registry that owns its drain set, and a restored snapshot only if it does
-- not name the node: re-registration in particular keeps it.
pub drain_sticky :
    (r : Registry) (c : Call) (id : String)
    → ((now timeout : ℕ)
        → c ≡ reap now timeout
        → (r.authority_replicated || not (any (is_node id) (reap_dead r now timeout).1)) ≡ true)
    → ((vshards : List ℕ) (draining : List String)
        → c ≡ restore vshards draining
        → any (λ d. d == id) draining ≡ true)
    → contains r.draining id ≡ true
    → contains (step r c).draining id ≡ true
unfolding step
drain_sticky r (register req now) id k l h = unfold register_at admit in ground arith
drain_sticky r (beat node_id now) id k l h = unfold heartbeat in ground arith
drain_sticky r (reap now timeout) id k l h =
    reap_dead-draining r now timeout id ∙ ground (arith, k now timeout refl)
drain_sticky r (report node_id now) id k l h =
    unfold report_raft_leader refresh_leader in ground arith
drain_sticky r promote id k l h =
    unfold promote_orphaned_shards in
    ap (λ d. contains d id) (draining-promote_shards (map (λ entry. entry.0) r.followers) r) ∙ h
drain_sticky r (reassign vshard group) id k l h = unfold reassign_vshard in ground arith
drain_sticky r (drain node_id) id k l h =
    unfold mark_draining in ground (arith, contains-insert r.draining node_id id)
drain_sticky r (apply_drain node_id) id k l h =
    unfold apply_drain_marker in contains-insert r.draining node_id id ∙ ground arith
drain_sticky r (restore vshards draining) id k l h =
    unfold set_authority in
    contains-collect draining id ∙ contains-any draining id ∙ l vshards draining refl

any-retain_stale :
    (now timeout : ℕ) (id : String) (ns : List NodeInfo)
    → any (is_node id) (retain (is_stale now timeout) ns)
      ≡ any (λ n. is_node id n && is_stale now timeout n) ns
unfolding any retain
any-retain_stale now timeout id [] = refl
any-retain_stale now timeout id (n ∷ ns) = ground (arith, any-retain_stale now timeout id ns)

any-stale_followers :
    (now timeout : ℕ) (id : String) (m : HashMap ℕ (List NodeInfo))
    → any (λ entry. any (λ n. is_node id n && is_stale now timeout n) entry.1) m ≡ true
    → any (is_node id) (stale_followers now timeout m) ≡ true
unfolding any stale_followers
any-stale_followers now timeout id [] h = h
any-stale_followers now timeout id ((s, ns) ∷ m) h =
    any-append (is_node id) (retain (is_stale now timeout) ns) (stale_followers now timeout m)
    ∙ ground (arith, any-stale_followers now timeout id m, any-retain_stale now timeout id ns)

any-fresh_leaders :
    (now timeout shard : ℕ) (n : NodeInfo) (id : String) (m : HashMap ℕ NodeInfo)
    → get m shard ≡ some n
    → is_node id n ≡ true
    → is_stale now timeout n ≡ false
    → any (λ entry. is_node id entry.1) (fresh_leaders now timeout m) ≡ true
unfolding get any fresh_leaders retain
any-fresh_leaders now timeout shard n id [] e i f = cc
any-fresh_leaders now timeout shard n id ((s, k) ∷ m) e i f =
    ground (arith, any-fresh_leaders now timeout shard n id m)

-- The way to lose a marker that the comment on `draining` excludes: a node that leads a shard, and is
-- alive, but still has an old follower entry, loses its marker when that entry is reaped, though the
-- registry goes on routing to the node.
pub drain_forgotten :
    (r : Registry) (now timeout shard : ℕ) (n : NodeInfo)
    → Distinct r.leaders
    → r.authority_replicated ≡ false
    → get r.leaders shard ≡ some n
    → is_stale now timeout n ≡ false
    → any (λ entry. any (λ k. is_node n.node_id k && is_stale now timeout k) entry.1) r.followers
      ≡ true
    → (contains (reap_dead r now timeout).0.draining n.node_id ≡ false)
      × (knows_node (reap_dead r now timeout).0 n.node_id ≡ true)
unfolding knows_node
drain_forgotten r now timeout shard n d own e f stale =
    let (leaders, followers, removed) = reap_dead_lem r now timeout d in
    let self : is_node n.node_id n ≡ true = beq_refl n.node_id in
    (
      reap_dead-draining r now timeout n.node_id
          ∙ rw
              (
                removed,
                any-append (is_node n.node_id) (stale_leaders now timeout r.leaders)
                    (stale_followers now timeout r.followers),
                any-stale_followers now timeout n.node_id r.followers stale,
                own,
              )
              (ground arith),
      rw leaders (rw (any-fresh_leaders now timeout shard n n.node_id r.leaders e self f) refl),
    )
