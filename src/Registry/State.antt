-- ===== src/Registry/State.antt =====
-- registry.rs: the record, its constructors, the placement table and the drain set.
use Prim.Native.String.{compare}
use text.Mathlib.Text.{is_le}
use aether_engine.Prelude.{
  ℕ, zero, suc, ◌+◌, ◌%◌, ◌^◌, String, Bool, true, false, ◌||◌, List, [], ◌∷◌, length, is_empty,
  set, map, any, leb, if◌then◌else◌, ◌==◌, nat_eq, string_eq,
}
use aether_engine.Prelude.HashMap.{HashMap}
use aether_engine.Prelude.HashSet
use aether_engine.Prelude.Sort.{sort}
use aether_engine.Prelude.Result.{Result, ok, err}

pub data NodeRole : Type 0 where
  unspecified leader follower : NodeRole

-- Instants and durations are numbers of milliseconds.
pub record NodeInfo : Type 0 where
  pub node_id : String
  pub address : String
  pub role : NodeRole
  pub last_seen : ℕ

pub record Registry : Type 0 where
  pub shard_count : ℕ
  pub liveness_timeout : ℕ
  pub leaders : HashMap ℕ NodeInfo
  pub followers : HashMap ℕ (List NodeInfo)
  pub draining : List String
  pub vshards : List ℕ
  pub placement_version : ℕ
  pub authority_replicated : Bool

abbrev pub default_liveness_timeout : ℕ
default_liveness_timeout = 15000

unfoldable pub new : ℕ → Registry
new shard_count = record {
  shard_count = shard_count;
  liveness_timeout = default_liveness_timeout;
  leaders = [];
  followers = [];
  draining = [];
  vshards = [];
  placement_version = 0;
  authority_replicated = false;
}

unfoldable pub with_liveness_timeout : Registry → ℕ → Registry
with_liveness_timeout r timeout = record r { liveness_timeout = timeout }

-- `(i..i + v)`.
unfoldable pub range_from : ℕ → ℕ → List ℕ
range_from i zero = []
range_from i (suc v) = i ∷ range_from (i + 1) v

-- `i % 0` panics in the source, where it is `i` here: the theorems take `0 < shard_count`.
unfoldable pub with_vshards : Registry → ℕ → Registry
unfolding range_from
with_vshards r v = record r { vshards = map (λ i. i % r.shard_count) (range_from 0 v) }

unfoldable pub with_replicated_authority : Registry → Registry
with_replicated_authority r = record r { authority_replicated = true }

-- The messages of a refused reassignment, with the values that they print.
pub data PlacementError : Type 0 where
  not_enabled : PlacementError
  vshard_out_of_range : ℕ → ℕ → PlacementError
  group_out_of_range : ℕ → ℕ → PlacementError

unfoldable pub reassign_vshard : Registry → ℕ → ℕ → Registry × Result PlacementError (Unit {0})
reassign_vshard r vshard group =
    if is_empty r.vshards
    then (r, err not_enabled)
    else if leb (length r.vshards) vshard
    then (r, err (vshard_out_of_range vshard (length r.vshards)))
    else if leb r.shard_count group
    then (r, err (group_out_of_range group r.shard_count))
    else (
      record r {
        vshards = set r.vshards vshard group;
        placement_version = (r.placement_version + 1) % 2 ^ 64;
      },
      ok tt,
    )

unfoldable pub validate_reassign : Registry → ℕ → ℕ → Result PlacementError (Unit {0})
validate_reassign r vshard group =
    if is_empty r.vshards
    then err not_enabled
    else if leb (length r.vshards) vshard
    then err (vshard_out_of_range vshard (length r.vshards))
    else if leb r.shard_count group
    then err (group_out_of_range group r.shard_count)
    else ok tt

unfoldable pub apply_drain_marker : Registry → String → Registry
apply_drain_marker r node_id = record r { draining = HashSet.insert r.draining node_id }

abbrev pub is_node : String → NodeInfo → Bool
is_node node_id n = n.node_id == node_id

unfoldable pub knows_node : Registry → String → Bool
knows_node r node_id =
    any (λ entry. is_node node_id entry.1) r.leaders
    || any (λ entry. any (is_node node_id) entry.1) r.followers

unfoldable pub mark_draining : Registry → String → Registry × Bool
unfolding knows_node
mark_draining r node_id =
    let known = knows_node r node_id in
    (if known then record r { draining = HashSet.insert r.draining node_id } else r, known)

abbrev pub string_le : String → String → Bool
string_le a b = is_le (compare a b)

unfoldable pub authority : Registry → List ℕ × List String
authority r = (r.vshards, sort string_le r.draining)

unfoldable pub set_authority : Registry → List ℕ → List String → Registry
set_authority r vshards draining = record r {
  vshards = vshards;
  draining = HashSet.collect draining;
  placement_version = (r.placement_version + 1) % 2 ^ 64;
}
