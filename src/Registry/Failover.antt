-- ===== src/Registry/Failover.antt =====
-- registry.rs: reaping of dead nodes, reports of raft leaders and promotion.
use aether_engine.Prelude.{
  is_empty, ℕ, ◌-◌, String, Bool, Option, none, some, List, [], ◌∷◌, ◌++◌, map, ltb, if◌then◌else◌,
  unwrap_or, nat_eq, string_eq,
}
use aether_engine.Prelude.HashMap
use aether_engine.Prelude.HashMap.{HashMap}
use aether_engine.Prelude.HashSet
use aether_engine.Registry.State.{Registry, NodeInfo, leader, follower, is_node}

abbrev pub is_stale : ℕ → ℕ → NodeInfo → Bool
is_stale now timeout node = ltb timeout (now - node.last_seen)

unfoldable pub dead_shards : ℕ → ℕ → HashMap ℕ NodeInfo → List ℕ
dead_shards now timeout [] = []
dead_shards now timeout ((shard, node) ∷ m) =
    if is_stale now timeout node
    then shard ∷ dead_shards now timeout m
    else dead_shards now timeout m

-- The second loop over the leaders: the map that is left, and the nodes removed.
unfoldable pub remove_shards : List ℕ → HashMap ℕ NodeInfo → HashMap ℕ NodeInfo × List NodeInfo
remove_shards [] m = (m, [])
remove_shards (shard ∷ shards) m =
    let rest = remove_shards shards (HashMap.remove m shard) in
    elim (HashMap.get m shard) [ none ↦ rest | some node ↦ (rest.0, node ∷ rest.1) ]

-- The index loop over one list of followers: the nodes kept, and those removed.
unfoldable pub reap_nodes : ℕ → ℕ → List NodeInfo → List NodeInfo × List NodeInfo
reap_nodes now timeout [] = ([], [])
reap_nodes now timeout (n ∷ ns) =
    let (kept, removed) = reap_nodes now timeout ns in
    if is_stale now timeout n then (kept, n ∷ removed) else (n ∷ kept, removed)

unfoldable pub reap_followers :
    ℕ → ℕ → HashMap ℕ (List NodeInfo) → HashMap ℕ (List NodeInfo) × List NodeInfo
unfolding reap_nodes
reap_followers now timeout [] = ([], [])
reap_followers now timeout ((shard, ns) ∷ m) =
    let (kept, removed) = reap_nodes now timeout ns in
    let (m', more) = reap_followers now timeout m in ((shard, kept) ∷ m', removed ++ more)

unfoldable pub undrain : List String → List NodeInfo → List String
undrain draining [] = draining
undrain draining (n ∷ ns) = undrain (HashSet.remove draining n.node_id) ns

unfoldable pub reap_dead : Registry → ℕ → ℕ → Registry × List NodeInfo
unfolding dead_shards remove_shards reap_followers undrain
reap_dead r now timeout =
    let (leaders, dead) = remove_shards (dead_shards now timeout r.leaders) r.leaders in
    let (followers, gone) = reap_followers now timeout r.followers in
    let removed = dead ++ gone in
    (
      record r {
        leaders = leaders;
        followers = followers;
        draining = if r.authority_replicated then r.draining else undrain r.draining removed;
      },
      removed,
    )

-- `self.leaders.iter().find(..)`: the shard that the node leads.
unfoldable pub led_shard : HashMap ℕ NodeInfo → String → Option ℕ
led_shard [] node_id = none
led_shard ((shard, n) ∷ m) node_id = if is_node node_id n then some shard else led_shard m node_id

-- `position` and `remove`: the first node with the id, and the list without it.
unfoldable pub take_node : List NodeInfo → String → Option (NodeInfo × List NodeInfo)
take_node [] node_id = none
take_node (n ∷ ns) node_id =
    if is_node node_id n
    then some (n, ns)
    else elim (take_node ns node_id) [ none ↦ none | some (found, rest) ↦ some (found, n ∷ rest) ]

unfoldable pub find_follower :
    HashMap ℕ (List NodeInfo) → String → Option (ℕ × NodeInfo × List NodeInfo)
unfolding take_node
find_follower [] node_id = none
find_follower ((shard, ns) ∷ m) node_id = elim (take_node ns node_id) [
  | some (found, rest) ↦ some (shard, found, rest)
  | none ↦ find_follower m node_id
]

-- The previous leader, if there is one, becomes a follower of the shard.
unfoldable pub demote : Option NodeInfo → ℕ → HashMap ℕ (List NodeInfo) → HashMap ℕ (List NodeInfo)
demote none shard m = m
demote (some old) shard m =
    HashMap.insert m shard
      (unwrap_or (HashMap.get m shard) [] ++ record old { role = follower } ∷ [])

unfoldable pub refresh_leader : Registry → ℕ → ℕ → Registry
refresh_leader r shard now = elim (HashMap.get r.leaders shard) [
  | none ↦ r
  | some n ↦ record r { leaders = HashMap.insert r.leaders shard (record n { last_seen = now }) }
]

unfoldable pub report_raft_leader : Registry → String → ℕ → Registry × Option ℕ
unfolding led_shard refresh_leader find_follower demote
report_raft_leader r node_id now = elim (led_shard r.leaders node_id) [
  | some shard ↦ (refresh_leader r shard now, none)
  | none ↦ elim (find_follower r.followers node_id) [
    | none ↦ (r, none)
    | some (shard, found, rest) ↦
        let promoted = record found { role = leader; last_seen = now } in
        (
          record r {
            leaders = HashMap.insert r.leaders shard promoted;
            followers =
                demote (HashMap.get r.leaders shard) shard (HashMap.insert r.followers shard rest);
          },
          some shard,
        )
  ]
]

-- `Vec::pop`: the last element, and the list before it.
unfoldable pub pop {ℓ} : {A : Type ℓ} → List A → Option (A × List A)
pop [] = none
pop (x ∷ xs) = elim (pop xs) [ none ↦ some (x, []) | some (last, rest) ↦ some (last, x ∷ rest) ]

-- One round of the loop of `promote_orphaned_shards`.
unfoldable pub promote_shard : Registry → ℕ → Registry × Option (ℕ × String)
unfolding pop
promote_shard r shard =
    if HashMap.contains_key r.leaders shard
    then (r, none)
    else elim (pop (unwrap_or (HashMap.get r.followers shard) [])) [
      | none ↦ (r, none)
      | some (node, rest) ↦ (
        record r {
          leaders = HashMap.insert r.leaders shard (record node { role = leader });
          followers =
              if is_empty rest
              then HashMap.remove r.followers shard
              else HashMap.insert r.followers shard rest;
        },
        some (shard, node.node_id),
      )
    ]

unfoldable pub promote_shards : Registry → List ℕ → Registry × List (ℕ × String)
unfolding promote_shard
promote_shards r [] = (r, [])
promote_shards r (shard ∷ shards) =
    let (r', promotion) = promote_shard r shard in
    let (last, promotions) = promote_shards r' shards in
    (last, elim promotion [ none ↦ promotions | some p ↦ p ∷ promotions ])

unfoldable pub promote_orphaned_shards : Registry → Registry × List (ℕ × String)
unfolding promote_shards
promote_orphaned_shards r = promote_shards r (map (λ entry. entry.0) r.followers)
