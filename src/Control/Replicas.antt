-- ===== src/Control/Replicas.antt =====
-- Replicas of the state group agree on the authority, whatever each one's own view does.
use aether_engine.Prelude.{
  ℕ, ◌≡◌, refl, sym, ap, ◌∙◌, String, true, ◌||◌, List, [], ◌∷◌, map, Option, none, some, arith,
  nat_eq, string_eq, ◌==◌, any,
}
use aether_engine.Prelude.HashSet.{contains, SameSet, contains-insert, contains-collect}
use aether_engine.Prelude.Sort.{sort, any-sort}
use aether_engine.Registry.State.{
  Registry, reassign_vshard, apply_drain_marker, authority, set_authority, string_le,
}
use aether_engine.Registry.Members.{RegisterNodeRequest, register_at, admit, heartbeat}
use aether_engine.Registry.Failover.{
  reap_dead, report_raft_leader, refresh_leader, promote_orphaned_shards, promote_shards,
  promote_shard,
}
use aether_engine.Control.{
  Command, reassign, drain_node, Bincode, apply_command, snapshot_bytes, restore,
}

pub record SameAuthority (a b : Registry) : Type 0 where
  pub count : a.shard_count ≡ b.shard_count
  pub table : a.vshards ≡ b.vshards
  pub drains : SameSet a.draining b.draining

-- What a replica does of its own accord: answer nodes, and run its reaper.
pub data LocalCall : Type 0 where
  register : RegisterNodeRequest → ℕ → LocalCall
  beat : String → ℕ → LocalCall
  reap : ℕ → ℕ → LocalCall
  report : String → ℕ → LocalCall
  promote : LocalCall

pub local_step : Registry → LocalCall → Registry
local_step r (register req now) = (register_at r req now).0
local_step r (beat node_id now) = (heartbeat r node_id now).0
local_step r (reap now timeout) = (reap_dead r now timeout).0
local_step r (report node_id now) = (report_raft_leader r node_id now).0
local_step r promote = (promote_orphaned_shards r).0

-- The history of a replica: its own calls, with the commands that it applies among them.
pub data Event : Type 0 where
  own : LocalCall → Event
  commit : Option Command → Event

pub handle : Registry → Event → Registry
unfolding local_step
handle r (own c) = local_step r c
handle r (commit c) = (apply_command r c).0

pub run : Registry → List Event → Registry
unfolding handle
run r [] = r
run r (e ∷ es) = run (handle r e) es

-- The commands of a history, in their order.
unfoldable pub commits : List Event → List (Option Command)
commits [] = []
commits (own c ∷ es) = commits es
commits (commit c ∷ es) = c ∷ commits es

-- What a local call leaves alone.
record Untouched (r s : Registry) : Type 0 where
  pub count : s.shard_count ≡ r.shard_count
  pub table : s.vshards ≡ r.vshards
  pub drains : s.draining ≡ r.draining
  pub replicated : s.authority_replicated ≡ r.authority_replicated

promote_shards-Untouched :
    (shards : List ℕ) (r : Registry) → Untouched r (promote_shards r shards).0
unfolding promote_shards promote_shard
promote_shards-Untouched [] r = record {
  count = refl;
  table = refl;
  drains = refl;
  replicated = refl;
}
promote_shards-Untouched (s ∷ ss) r =
    ground (arith, promote_shards-Untouched ss (promote_shard r s).0)

local_step-Untouched :
    (r : Registry) (c : LocalCall) → r.authority_replicated ≡ true → Untouched r (local_step r c)
unfolding local_step
local_step-Untouched r (register req now) h = unfold register_at admit in ground arith
local_step-Untouched r (beat node_id now) h = unfold heartbeat in ground arith
local_step-Untouched r (reap now timeout) h = unfold reap_dead in ground arith
local_step-Untouched r (report node_id now) h =
    unfold report_raft_leader refresh_leader in ground arith
local_step-Untouched r promote h =
    unfold promote_orphaned_shards in
    promote_shards-Untouched (map (λ entry. entry.0) r.followers) r

-- Applying one command gives the same authority on both, error or not.
pub apply_command-SameAuthority :
    (a b : Registry) (c : Option Command)
    → SameAuthority a b
    → SameAuthority (apply_command a c).0 (apply_command b c).0
unfolding apply_command
apply_command-SameAuthority a b none s = s
apply_command-SameAuthority a b (some (drain_node id)) s =
    unfold apply_drain_marker in
    record {
      count = s.count;
      table = s.table;
      drains = λ j.
          contains-insert a.draining id j
          ∙ ap (λ x. id == j || x) (s.drains j)
          ∙ sym (contains-insert b.draining id j);
    }
apply_command-SameAuthority a b (some (reassign vshard group)) s =
    unfold reassign_vshard in
    record { count = ground arith; table = ground arith; drains = λ j. ground (arith, s.drains j) }

apply_command-replicated :
    (r : Registry) (c : Option Command)
    → (apply_command r c).0.authority_replicated ≡ r.authority_replicated
unfolding apply_command
apply_command-replicated r none = refl
apply_command-replicated r (some (drain_node id)) = unfold apply_drain_marker in refl
apply_command-replicated r (some (reassign vshard group)) = unfold reassign_vshard in ground arith

SameAuthority-sym : {a b : Registry} → SameAuthority a b → SameAuthority b a
SameAuthority-sym s = record {
  count = sym s.count;
  table = sym s.table;
  drains = λ j. sym (s.drains j);
}

SameAuthority-trans : {a b c : Registry} → SameAuthority a b → SameAuthority b c → SameAuthority a c
SameAuthority-trans s t = record {
  count = s.count ∙ t.count;
  table = s.table ∙ t.table;
  drains = λ j. s.drains j ∙ t.drains j;
}

-- The commands alone, applied in their order.
pub replay : Registry → List (Option Command) → Registry
replay r [] = r
replay r (c ∷ cs) = replay (apply_command r c).0 cs

replay-SameAuthority :
    (a b : Registry) (cs : List (Option Command))
    → SameAuthority a b
    → SameAuthority (replay a cs) (replay b cs)
unfolding replay
replay-SameAuthority a b [] s = s
replay-SameAuthority a b (c ∷ cs) s =
    replay-SameAuthority (apply_command a c).0 (apply_command b c).0 cs
      (apply_command-SameAuthority a b c s)

-- A replica's authority is that of its commands alone.
run-replay :
    (a b : Registry) (es : List Event)
    → a.authority_replicated ≡ true
    → SameAuthority a b
    → SameAuthority (run a es) (replay b (commits es))
unfolding run commits replay
run-replay a b [] h s = s
run-replay a b (own c ∷ es) h s =
    let u = local_step-Untouched a c h in
    run-replay (local_step a c) b es (u.replicated ∙ h) (record {
      count = u.count ∙ s.count;
      table = u.table ∙ s.table;
      drains = λ j. ap (λ d. contains d j) u.drains ∙ s.drains j;
    })
run-replay a b (commit c ∷ es) h s =
    run-replay (apply_command a c).0 (apply_command b c).0 es (apply_command-replicated a c ∙ h)
      (apply_command-SameAuthority a b c s)

-- Two replicas under replicated authority that start from one authority and apply the same commands
-- in the same order hold the same placement table and drain set, however registrations, heartbeats,
-- leader reports, reapings and promotions are interleaved with them on either side.
pub replicas_agree :
    (a b : Registry) (es fs : List Event)
    → SameAuthority a b
    → a.authority_replicated ≡ true
    → b.authority_replicated ≡ true
    → commits es ≡ commits fs
    → SameAuthority (run a es) (run b fs)
replicas_agree a b es fs s ha hb e = SameAuthority-trans (run-replay a b es ha s) (
    rw e (
      SameAuthority-sym
        (run-replay b b fs hb (record { count = refl; table = refl; drains = λ j. refl }))))

contains-any : (xs : List String) (a : String) → contains xs a ≡ any (λ x. x == a) xs
unfolding contains any
contains-any [] a = refl
contains-any (x ∷ xs) a = ap (λ t. x == a || t) (contains-any xs a)

contains-sort : (xs : List String) (a : String) → contains (sort string_le xs) a ≡ contains xs a
contains-sort xs a =
    contains-any (sort string_le xs) a
    ∙ any-sort string_le (λ x. x == a) xs
    ∙ sym (contains-any xs a)

module _ (b : Bincode) where
  pub restored-SameAuthority :
      (r s : Registry)
      → r.shard_count ≡ s.shard_count
      → SameAuthority (restore b s (snapshot_bytes b r)).0 r
  unfolding restore snapshot_bytes set_authority authority
  restored-SameAuthority r s n =
      rw
        (b.authority_of_bytes
          (record { vshards = r.vshards; draining = sort string_le r.draining }))
        (record {
          count = sym n;
          table = refl;
          drains = λ j. contains-collect (sort string_le r.draining) j ∙ contains-sort r.draining j;
        })

  -- A snapshot restored on a replica of the same N gives it the authority of the replica that took
  -- the snapshot, and it stays in step with that replica over all commands that follow.
  pub restore_resumes :
      (r s : Registry) (cs : List (Option Command))
      → r.shard_count ≡ s.shard_count
      → SameAuthority (replay (restore b s (snapshot_bytes b r)).0 cs) (replay r cs)
  restore_resumes r s cs n = replay-SameAuthority _ r cs (restored-SameAuthority r s n)
