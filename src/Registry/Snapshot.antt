-- ===== src/Registry/Snapshot.antt =====
-- registry.rs: `snapshot` and `members_of`, the view that operators and joining nodes are given.
use aether_engine.Prelude.{
  ℕ, ◌-◌, ◌≡◌, refl, ap, ◌∙◌, String, Bool, true, false, not, ◌&&◌, ◌||◌, List, [], ◌∷◌, ◌++◌,
  if◌then◌else◌, arith, nat_eq, string_eq, ◌==◌, ltb, retain, any, All, All-append, any-append,
}
use aether_engine.Prelude.HashMap.{HashMap}
use aether_engine.Prelude.HashSet.{contains}
use aether_engine.Prelude.Sort.{sort, any-sort, sort-All}
use aether_engine.Registry.State.{
  Registry, NodeInfo, NodeRole, unspecified, leader, follower, is_node, knows_node, string_le,
}

pub record NodeSnapshot : Type 0 where
  pub node_id : String
  pub address : String
  pub role : NodeRole
  pub shard_id : ℕ
  pub since_seen : ℕ
  pub draining : Bool

unfoldable pub from_info : NodeInfo → ℕ → ℕ → NodeSnapshot
from_info info shard_id now = record {
  node_id = info.node_id;
  address = info.address;
  role = info.role;
  shard_id = shard_id;
  since_seen = now - info.last_seen;
  draining = false;
}

-- `from_info`, with the drain marker looked up.
unfoldable pub snap : Registry → ℕ → ℕ → NodeInfo → NodeSnapshot
unfolding from_info
snap r now shard_id info = record (from_info info shard_id now) {
  draining = contains r.draining info.node_id;
}

unfoldable pub snap_leaders : Registry → ℕ → HashMap ℕ NodeInfo → List NodeSnapshot
unfolding snap
snap_leaders r now [] = []
snap_leaders r now ((shard_id, info) ∷ m) = snap r now shard_id info ∷ snap_leaders r now m

unfoldable pub snap_nodes : Registry → ℕ → ℕ → List NodeInfo → List NodeSnapshot
unfolding snap
snap_nodes r now shard_id [] = []
snap_nodes r now shard_id (info ∷ infos) =
    snap r now shard_id info ∷ snap_nodes r now shard_id infos

unfoldable pub snap_followers : Registry → ℕ → HashMap ℕ (List NodeInfo) → List NodeSnapshot
unfolding snap_nodes
snap_followers r now [] = []
snap_followers r now ((shard_id, infos) ∷ m) =
    snap_nodes r now shard_id infos ++ snap_followers r now m

abbrev pub is_not_leader : NodeRole → Bool
is_not_leader leader = false
is_not_leader unspecified = true
is_not_leader follower = true

-- The comparison that sorts the snapshot is not `Greater`.
unfoldable pub listed_before : NodeSnapshot → NodeSnapshot → Bool
listed_before a b =
    if ltb a.shard_id b.shard_id
    then true
    else if ltb b.shard_id a.shard_id
    then false
    else if not (is_not_leader a.role) && is_not_leader b.role
    then true
    else if is_not_leader a.role && not (is_not_leader b.role)
    then false
    else string_le a.node_id b.node_id

unfoldable pub snapshot : Registry → ℕ → List NodeSnapshot
unfolding snap_leaders snap_followers
snapshot r now =
    sort listed_before (snap_leaders r now r.leaders ++ snap_followers r now r.followers)

unfoldable pub members_of : Registry → ℕ → ℕ → List NodeSnapshot
unfolding snapshot
members_of r shard_id now = retain (λ n. n.shard_id == shard_id) (snapshot r now)

abbrev pub named : String → NodeSnapshot → Bool
named id n = n.node_id == id

module _ (r : Registry) (now : ℕ) (id : String) where
  any-snap_leaders :
      (m : HashMap ℕ NodeInfo)
      → any (named id) (snap_leaders r now m) ≡ any (λ entry. is_node id entry.1) m
  unfolding any snap_leaders
  any-snap_leaders [] = refl
  any-snap_leaders ((s, n) ∷ m) = ap (λ b. is_node id n || b) (any-snap_leaders m)

  any-snap_nodes :
      (s : ℕ) (ns : List NodeInfo) → any (named id) (snap_nodes r now s ns) ≡ any (is_node id) ns
  unfolding any snap_nodes
  any-snap_nodes s [] = refl
  any-snap_nodes s (n ∷ ns) = ap (λ b. is_node id n || b) (any-snap_nodes s ns)

  any-snap_followers :
      (m : HashMap ℕ (List NodeInfo))
      → any (named id) (snap_followers r now m) ≡ any (λ entry. any (is_node id) entry.1) m
  unfolding any snap_followers
  any-snap_followers [] = refl
  any-snap_followers ((s, ns) ∷ m) =
      any-append (named id) (snap_nodes r now s ns) (snap_followers r now m)
      ∙ ground (arith, any-snap_nodes s ns, any-snap_followers m)

-- The marker that a snapshot shows is the one in the drain set.
abbrev pub IsTruthful : Registry → NodeSnapshot → Type 0
IsTruthful r n = n.draining ≡ contains r.draining n.node_id

module _ (r : Registry) (now : ℕ) where
  snap_leaders-IsTruthful : (m : HashMap ℕ NodeInfo) → All (IsTruthful r) (snap_leaders r now m)
  unfolding snap_leaders
  snap_leaders-IsTruthful [] = tt
  snap_leaders-IsTruthful ((s, n) ∷ m) = (refl, snap_leaders-IsTruthful m)

  snap_nodes-IsTruthful : (s : ℕ) (ns : List NodeInfo) → All (IsTruthful r) (snap_nodes r now s ns)
  unfolding snap_nodes
  snap_nodes-IsTruthful s [] = tt
  snap_nodes-IsTruthful s (n ∷ ns) = (refl, snap_nodes-IsTruthful s ns)

  snap_followers-IsTruthful :
      (m : HashMap ℕ (List NodeInfo)) → All (IsTruthful r) (snap_followers r now m)
  unfolding snap_followers
  snap_followers-IsTruthful [] = tt
  snap_followers-IsTruthful ((s, ns) ∷ m) =
      All-append (IsTruthful r) (snap_nodes r now s ns) (snap_followers r now m)
        (snap_nodes-IsTruthful s ns) (snap_followers-IsTruthful m)

-- A snapshot shows exactly the nodes that the registry knows, each with its drain marker.
pub snapshot_lem :
    (r : Registry) (now : ℕ)
    → ((id : String) → any (named id) (snapshot r now) ≡ knows_node r id)
      × All (IsTruthful r) (snapshot r now)
unfolding snapshot knows_node
snapshot_lem r now =
    let all_nodes = snap_leaders r now r.leaders ++ snap_followers r now r.followers in
    (
      λ id.
          any-sort listed_before (named id) all_nodes
          ∙ any-append (named id) (snap_leaders r now r.leaders) (snap_followers r now r.followers)
          ∙ ground
              (arith, any-snap_leaders r now id r.leaders, any-snap_followers r now id r.followers),
      sort-All listed_before (IsTruthful r) all_nodes (
          All-append (IsTruthful r) (snap_leaders r now r.leaders)
            (snap_followers r now r.followers) (snap_leaders-IsTruthful r now r.leaders)
            (snap_followers-IsTruthful r now r.followers)),
    )
