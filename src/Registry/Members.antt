-- ===== src/Registry/Members.antt =====
-- registry.rs: registration, heartbeats, reaping, raft reports and promotion.
use aether_engine.Prelude.{
  ℕ, ◌-◌, ◌%◌, ◌^◌, String, Bool, true, false, not, ◌&&◌, Option, none, some, List, [], ◌∷◌, map,
  leb, if◌then◌else◌, unwrap_or, ◌==◌, nat_eq, string_eq, length,
}
use aether_engine.Prelude.HashMap
use aether_engine.Prelude.HashMap.{HashMap}
use aether_engine.Registry.State.{
  Registry, NodeInfo, NodeRole, unspecified, leader, follower, is_node,
}

pub record RegisterNodeRequest : Type 0 where
  pub node_id : String
  pub address : String
  pub shard_id : ℕ
  pub role : NodeRole

-- The formatted texts of a response, with the values that they print.
pub data Message : Type 0 where
  shard_out_of_range : ℕ → ℕ → Message
  live_leader : ℕ → String → String → Message
  role_unspecified : Message
  registered : ℕ → NodeRole → Message

pub record RegisterNodeResponse : Type 0 where
  pub accepted : Bool
  pub cluster_size : ℕ
  pub message : Message

unfoldable pub reject : Registry → Message → RegisterNodeResponse
reject r message = record { accepted = false; cluster_size = r.shard_count; message = message }

-- The leader that the guard protects from the request, if there is one.
unfoldable pub blocking_leader : Registry → RegisterNodeRequest → ℕ → Option NodeInfo
blocking_leader r req now = elim req.role [
  | leader ↦ elim (HashMap.get r.leaders req.shard_id) [
    | none ↦ none
    | some current ↦
        if leb (now - current.last_seen) r.liveness_timeout && not (current.node_id == req.node_id)
        then some current
        else none
  ]
  | unspecified ↦ none
  | follower ↦ none
]

-- Updates the follower with the entry's id, or appends the entry.
unfoldable pub upsert : List NodeInfo → NodeInfo → List NodeInfo
upsert [] info = info ∷ []
upsert (n ∷ ns) info = if n.node_id == info.node_id then info ∷ ns else n ∷ upsert ns info

abbrev pub info_of : RegisterNodeRequest → ℕ → NodeInfo
info_of req now = record {
  node_id = req.node_id;
  address = req.address;
  role = req.role;
  last_seen = now;
}

abbrev pub accept : Registry → RegisterNodeRequest → RegisterNodeResponse
accept r req = record {
  accepted = true;
  cluster_size = r.shard_count;
  message = registered req.shard_id req.role;
}

-- The match on the role, behind the guards.
unfoldable pub admit : Registry → RegisterNodeRequest → ℕ → Registry × RegisterNodeResponse
unfolding reject upsert
admit r req now = elim req.role [
  | leader ↦
      (record r { leaders = HashMap.insert r.leaders req.shard_id (info_of req now) }, accept r req)
  | follower ↦ (
    record r {
      followers =
          HashMap.insert r.followers req.shard_id
            (upsert (unwrap_or (HashMap.get r.followers req.shard_id) []) (info_of req now));
    },
    accept r req,
  )
  | unspecified ↦ (r, reject r role_unspecified)
]

unfoldable pub register_at : Registry → RegisterNodeRequest → ℕ → Registry × RegisterNodeResponse
unfolding reject blocking_leader admit
register_at r req now =
    if leb r.shard_count req.shard_id
    then (r, reject r (shard_out_of_range req.shard_id r.shard_count))
    else elim (blocking_leader r req now) [
      | some current ↦ (r, reject r (live_leader req.shard_id current.node_id req.node_id))
      | none ↦ admit r req now
    ]

-- The loops of `heartbeat` stop at the first node with the id; `none` when there is none.
unfoldable pub touch_leader : HashMap ℕ NodeInfo → String → ℕ → Option (HashMap ℕ NodeInfo)
touch_leader [] node_id now = none
touch_leader ((shard, n) ∷ m) node_id now =
    if is_node node_id n
    then some ((shard, record n { last_seen = now }) ∷ m)
    else elim (touch_leader m node_id now) [ none ↦ none | some m' ↦ some ((shard, n) ∷ m') ]

unfoldable pub touch_node : List NodeInfo → String → ℕ → Option (List NodeInfo)
touch_node [] node_id now = none
touch_node (n ∷ ns) node_id now =
    if is_node node_id n
    then some (record n { last_seen = now } ∷ ns)
    else elim (touch_node ns node_id now) [ none ↦ none | some ns' ↦ some (n ∷ ns') ]

unfoldable pub touch_follower :
    HashMap ℕ (List NodeInfo) → String → ℕ → Option (HashMap ℕ (List NodeInfo))
unfolding touch_node
touch_follower [] node_id now = none
touch_follower ((shard, ns) ∷ m) node_id now = elim (touch_node ns node_id now) [
  | some ns' ↦ some ((shard, ns') ∷ m)
  | none ↦ elim (touch_follower m node_id now) [ none ↦ none | some m' ↦ some ((shard, ns) ∷ m') ]
]

unfoldable pub heartbeat : Registry → String → ℕ → Registry × Option NodeRole
unfolding touch_leader touch_follower
heartbeat r node_id now = elim (touch_leader r.leaders node_id now) [
  | some leaders ↦ (record r { leaders = leaders }, some leader)
  | none ↦ elim (touch_follower r.followers node_id now) [
    | some followers ↦ (record r { followers = followers }, some follower)
    | none ↦ (r, none)
  ]
]

unfoldable pub leader_addresses : Registry → List String
leader_addresses r = map (λ entry. entry.1.address) r.leaders

unfoldable pub follower_addresses : Registry → ℕ → List String
follower_addresses r shard_id =
    map (λ n. n.address) (unwrap_or (HashMap.get r.followers shard_id) [])

unfoldable pub all_shards_have_leader : Registry → Bool
all_shards_have_leader r = length r.leaders % 2 ^ 32 == r.shard_count
