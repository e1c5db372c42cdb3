-- ===== src/Registry/Invariant.antt =====
-- What every call of the registry preserves: distinct keys, shards and groups in range, and roles.
pub mod Members
pub mod Failover
pub mod Promotion
use aether_engine.Prelude.{
  is_empty, ℕ, ◌<◌, ◌≡◌, refl, String, Bool, true, false, Option, none, some, List, [], ◌∷◌, ◌++◌,
  map, All, inl, inr, if◌then◌else◌, unwrap_or, arith, nat_eq, Bool-cases, Option-cases, set,
}
use aether_engine.Prelude.HashMap
use aether_engine.Prelude.HashMap.{
  HashMap, get, Distinct, AllEntries, insert-Distinct, remove-Distinct, insert-AllEntries,
  remove-AllEntries, get-AllEntries,
}
use aether_engine.Registry.State.{
  Registry, NodeInfo, NodeRole, leader, follower, unspecified, is_node, reassign_vshard,
}
use aether_engine.Registry.Members.{
  RegisterNodeRequest, register_at, admit, upsert, info_of, heartbeat, touch_leader, touch_node,
  touch_follower, blocking_leader,
}
use aether_engine.Registry.Failover.{
  reap_dead, report_raft_leader, promote_orphaned_shards, remove_shards, reap_nodes, reap_followers,
  take_node, find_follower, demote, refresh_leader, pop, promote_shard, promote_shards, is_stale,
}

abbrev pub LeaderEntry : ℕ → ℕ → NodeInfo → Type 0
LeaderEntry n shard info = (shard < n) × (info.role ≡ leader)

abbrev pub AreFollowers : List NodeInfo → Type 0
AreFollowers = All (λ info. info.role ≡ follower)

abbrev pub FollowerEntry : ℕ → ℕ → List NodeInfo → Type 0
FollowerEntry n shard infos = (shard < n) × AreFollowers infos

pub record IsValid (r : Registry) : Type 0 where
  pub leaders_distinct : Distinct r.leaders
  pub followers_distinct : Distinct r.followers
  pub leaders_in_range : AllEntries (LeaderEntry r.shard_count) r.leaders
  pub followers_in_range : AllEntries (FollowerEntry r.shard_count) r.followers
  pub groups_in_range : All (λ g. g < r.shard_count) r.vshards

-- The list under a shard, or the empty one.
pub known_followers :
    (n : ℕ) (m : HashMap ℕ (List NodeInfo)) (shard : ℕ)
    → AllEntries (FollowerEntry n) m
    → AreFollowers (unwrap_or (get m shard) [])
known_followers n m shard a = elim (Option-cases (get m shard)) [
  | inl e ↦ rw e tt
  | inr (ns, e) ↦ rw e (get-AllEntries (FollowerEntry n) m shard ns a e).1
]
