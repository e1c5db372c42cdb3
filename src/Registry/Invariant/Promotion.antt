-- ===== src/Registry/Invariant/Promotion.antt =====
-- Promotion keeps the registry well formed, and so does every history.
use aether_engine.Prelude.{
  is_empty, ℕ, zero, suc, ◌+◌, ◌%◌, leb, length, ◌<◌, ◌≡◌, refl, ◌∙◌, String, some, List, [], ◌∷◌,
  map, All, inl, inr, if◌then◌else◌, unwrap_or, arith, nat_eq, Bool-cases, Option-cases, set,
}
use aether_engine.Prelude.HashMap
use aether_engine.Prelude.HashMap.{
  HashMap, get, Distinct, AllEntries, insert-Distinct, remove-Distinct, insert-AllEntries,
  remove-AllEntries, get-AllEntries,
}
use native.Mathlib.Nat.{mod-lt}
use aether_engine.Registry.Step.{
  Call, register, beat, reap, report, promote, reassign, drain, apply_drain, restore, step, run,
}
use aether_engine.Registry.Invariant.Members.{register_at-IsValid, heartbeat-IsValid}
use aether_engine.Registry.Invariant.Failover.{reap_dead-IsValid, report_raft_leader-IsValid}
use aether_engine.Registry.State.{
  knows_node, mark_draining, apply_drain_marker, set_authority, new, with_vshards, range_from,
  Registry, NodeInfo, leader, reassign_vshard,
}
use aether_engine.Registry.Members.{register_at, admit, heartbeat}
use aether_engine.Registry.Failover.{
  reap_dead, report_raft_leader, refresh_leader, promote_orphaned_shards, pop, promote_shard,
  promote_shards,
}
use aether_engine.Registry.Invariant.{
  LeaderEntry, AreFollowers, FollowerEntry, IsValid, known_followers,
}

pop-AreFollowers :
    (ns : List NodeInfo) (last : NodeInfo) (rest : List NodeInfo)
    → pop ns ≡ some (last, rest)
    → AreFollowers ns
    → AreFollowers rest
unfolding pop
pop-AreFollowers [] last rest e a = cc
pop-AreFollowers (n ∷ ns) last rest e a = elim (Option-cases (pop ns)) [
  | inl t ↦ ground arith
  | inr (t, et) ↦ ground (arith, pop-AreFollowers ns t.0 t.1 et a.1)
]

-- What is left of a shard's followers once the last one is promoted goes back, unless it is empty.
put_back :
    (r : Registry) (shard : ℕ) (rest : List NodeInfo)
    → IsValid r
    → FollowerEntry r.shard_count shard rest
    → let m =
        if is_empty rest
        then HashMap.remove r.followers shard
        else HashMap.insert r.followers shard rest in
      Distinct m × AllEntries (FollowerEntry r.shard_count) m
put_back r shard [] v e = (
  remove-Distinct r.followers shard v.followers_distinct,
  remove-AllEntries _ r.followers shard v.followers_in_range,
)
put_back r shard (n ∷ ns) v e = (
  insert-Distinct r.followers shard _ v.followers_distinct,
  insert-AllEntries (FollowerEntry r.shard_count) r.followers shard (n ∷ ns) v.followers_in_range e,
)

promote_shard-IsValid :
    (r : Registry) (shard : ℕ)
    → shard < r.shard_count
    → IsValid r
    → IsValid (promote_shard r shard).0
unfolding promote_shard
promote_shard-IsValid r shard h v = elim (Option-cases (get r.leaders shard)) [
  | inr (n, e) ↦ rw (e, promote_shard) v
  | inl e ↦ elim (Option-cases (pop (unwrap_or (get r.followers shard) []))) [
    | inl f ↦ rw (e, f, promote_shard) v
    | inr ((node, rest), f) ↦
        let followers = known_followers r.shard_count r.followers shard v.followers_in_range in
        let back = put_back r shard rest v (h, pop-AreFollowers _ node rest f followers) in
        rw (e, f, promote_shard)
          (record {
            leaders_distinct = insert-Distinct r.leaders shard _ v.leaders_distinct;
            followers_distinct = back.0;
            leaders_in_range =
                insert-AllEntries (LeaderEntry r.shard_count) r.leaders shard
                  (record node { role = leader }) v.leaders_in_range (h, refl);
            followers_in_range = back.1;
            groups_in_range = v.groups_in_range;
          })
  ]
]

pub shard_count-promote_shard :
    (r : Registry) (shard : ℕ) → (promote_shard r shard).0.shard_count ≡ r.shard_count
unfolding promote_shard
shard_count-promote_shard r shard = ground arith

promote_shards-IsValid :
    (shards : List ℕ) (r : Registry)
    → All (λ s. s < r.shard_count) shards
    → IsValid r
    → IsValid (promote_shards r shards).0
unfolding promote_shards
promote_shards-IsValid [] r a v = v
promote_shards-IsValid (s ∷ ss) r a v =
    promote_shards-IsValid ss (promote_shard r s).0 (rw (shard_count-promote_shard r s) a.1)
      (promote_shard-IsValid r s a.0 v)

keys_in_range :
    (k : ℕ) (m : HashMap ℕ (List NodeInfo))
    → AllEntries (FollowerEntry k) m
    → All (λ s. s < k) (map (λ entry. entry.0) m)
keys_in_range k [] a = tt
keys_in_range k ((s, ns) ∷ m) a = (a.0.0, keys_in_range k m a.1)

pub promote_orphaned_shards-IsValid :
    (r : Registry) → IsValid r → IsValid (promote_orphaned_shards r).0
unfolding promote_orphaned_shards
promote_orphaned_shards-IsValid r v =
    promote_shards-IsValid _ r (keys_in_range r.shard_count r.followers v.followers_in_range) v

set-All :
    {A : Type 0} (P : A → Type 0) (xs : List A) (i : ℕ) (x : A)
    → All P xs
    → P x
    → All P (set xs i x)
set-All P [] i x a p = tt
set-All P (y ∷ ys) zero x a p = (p, a.1)
set-All P (y ∷ ys) (suc i) x a p = (a.0, set-All P ys i x a.1 p)

reassign_vshard-IsValid :
    (r : Registry) (vshard group : ℕ) → IsValid r → IsValid (reassign_vshard r vshard group).0
unfolding reassign_vshard
reassign_vshard-IsValid r vshard group v = elim (Bool-cases (is_empty r.vshards)) [
  | inl e ↦ rw (e, reassign_vshard) v
  | inr e ↦ elim (Bool-cases (leb (length r.vshards) vshard)) [
    | inl f ↦ rw (e, f, reassign_vshard) v
    | inr f ↦ elim (Bool-cases (leb r.shard_count group)) [
      | inl g ↦ rw (e, f, g, reassign_vshard) v
      | inr g ↦
          rw (e, f, g, reassign_vshard)
            (record {
              leaders_distinct = v.leaders_distinct;
              followers_distinct = v.followers_distinct;
              leaders_in_range = v.leaders_in_range;
              followers_in_range = v.followers_in_range;
              groups_in_range =
                  set-All (λ g. g < r.shard_count) r.vshards vshard group v.groups_in_range
                    (ground arith);
            })
    ]
  ]
]

mark_draining-IsValid : (r : Registry) (id : String) → IsValid r → IsValid (mark_draining r id).0
unfolding mark_draining
mark_draining-IsValid r id v = elim (Bool-cases (knows_node r id)) [
  | inl e ↦
      rw (e, mark_draining)
        (record {
          leaders_distinct = v.leaders_distinct;
          followers_distinct = v.followers_distinct;
          leaders_in_range = v.leaders_in_range;
          followers_in_range = v.followers_in_range;
          groups_in_range = v.groups_in_range;
        })
  | inr e ↦ rw (e, mark_draining) v
]

-- A table that is restored names groups below N only; the code does not check it.
abbrev pub IsPlaced : ℕ → Call → Type 0
IsPlaced n (register req now) = Unit
IsPlaced n (beat id now) = Unit
IsPlaced n (reap now timeout) = Unit
IsPlaced n (report id now) = Unit
IsPlaced n promote = Unit
IsPlaced n (reassign vshard group) = Unit
IsPlaced n (drain id) = Unit
IsPlaced n (apply_drain id) = Unit
IsPlaced n (restore vshards draining) = All (λ g. g < n) vshards

-- Every call, the restoring of a table that names groups below N only included, keeps the registry
-- well formed: no shard has two leader entries or two follower lists,
-- all shards and all groups of the placement table lie below N, and each entry has the role of the
-- table that it stands in.
pub step-IsValid :
    (r : Registry) (c : Call) → IsPlaced r.shard_count c → IsValid r → IsValid (step r c)
unfolding step apply_drain_marker set_authority
step-IsValid r (register req now) p v = register_at-IsValid r req now v
step-IsValid r (beat id now) p v = heartbeat-IsValid r id now v
step-IsValid r (reap now timeout) p v = reap_dead-IsValid r now timeout v
step-IsValid r (report id now) p v = report_raft_leader-IsValid r id now v
step-IsValid r promote p v = promote_orphaned_shards-IsValid r v
step-IsValid r (reassign vshard group) p v = reassign_vshard-IsValid r vshard group v
step-IsValid r (drain id) p v = mark_draining-IsValid r id v
step-IsValid r (apply_drain id) p v = record {
  leaders_distinct = v.leaders_distinct;
  followers_distinct = v.followers_distinct;
  leaders_in_range = v.leaders_in_range;
  followers_in_range = v.followers_in_range;
  groups_in_range = v.groups_in_range;
}
step-IsValid r (restore vshards draining) p v = record {
  leaders_distinct = v.leaders_distinct;
  followers_distinct = v.followers_distinct;
  leaders_in_range = v.leaders_in_range;
  followers_in_range = v.followers_in_range;
  groups_in_range = p;
}

shard_count-promote_shards :
    (shards : List ℕ) (r : Registry) → (promote_shards r shards).0.shard_count ≡ r.shard_count
unfolding promote_shards
shard_count-promote_shards [] r = refl
shard_count-promote_shards (s ∷ ss) r =
    shard_count-promote_shards ss (promote_shard r s).0 ∙ shard_count-promote_shard r s

-- No call changes the number of shards.
shard_count-step : (r : Registry) (c : Call) → (step r c).shard_count ≡ r.shard_count
unfolding step
shard_count-step r (register req now) = unfold register_at admit in ground arith
shard_count-step r (beat id now) = unfold heartbeat in ground arith
shard_count-step r (reap now timeout) = unfold reap_dead in refl
shard_count-step r (report id now) = unfold report_raft_leader refresh_leader in ground arith
shard_count-step r promote =
    unfold promote_orphaned_shards in
    shard_count-promote_shards (map (λ entry. entry.0) r.followers) r
shard_count-step r (reassign vshard group) = unfold reassign_vshard in ground arith
shard_count-step r (drain id) = unfold mark_draining in ground arith
shard_count-step r (apply_drain id) = unfold apply_drain_marker in refl
shard_count-step r (restore vshards draining) = unfold set_authority in refl

run-IsValid :
    (r : Registry) (cs : List Call)
    → All (IsPlaced r.shard_count) cs
    → IsValid r
    → IsValid (run r cs)
unfolding run
run-IsValid r [] p v = v
run-IsValid r (c ∷ cs) p v =
    run-IsValid (step r c) cs (rw (shard_count-step r c) p.1) (step-IsValid r c p.0 v)

round_robin : (n i v : ℕ) → 0 < n → All (λ g. g < n) (map (λ i. i % n) (range_from i v))
unfolding range_from
round_robin n i zero h = tt
round_robin n i (suc v) h = (mod-lt i h, round_robin n (i + 1) v h)

-- So a registry of N > 0 shards, with its virtual shards dealt out round robin, is well formed after
-- any history of calls that restores no table but such as name groups below N only.
pub run-new-IsValid :
    (n v : ℕ) (cs : List Call)
    → 0 < n
    → All (IsPlaced n) cs
    → IsValid (run (with_vshards (new n) v) cs)
unfolding with_vshards new
run-new-IsValid n v cs h p = run-IsValid _ cs p (record {
  leaders_distinct = tt;
  followers_distinct = tt;
  leaders_in_range = tt;
  followers_in_range = tt;
  groups_in_range = round_robin n 0 v h;
})
