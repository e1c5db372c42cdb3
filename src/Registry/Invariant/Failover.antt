-- ===== src/Registry/Invariant/Failover.antt =====
-- Reaping, raft reports and promotion keep the registry well formed.
use aether_engine.Prelude.{
  ℕ, ◌<◌, ◌≡◌, refl, String, Option, none, some, List, [], ◌∷◌, ◌++◌, inl, inr, unwrap_or, arith,
  nat_eq, Option-cases,
}
use aether_engine.Prelude.HashMap
use aether_engine.Prelude.HashMap.{
  HashMap, get, Distinct, AllEntries, insert-Distinct, remove-Distinct, insert-AllEntries,
  remove-AllEntries, get-AllEntries,
}
use aether_engine.Registry.State.{Registry, NodeInfo, leader, follower}
use aether_engine.Registry.Failover.{
  reap_dead, report_raft_leader, led_shard, remove_shards, reap_nodes, reap_followers, take_node,
  find_follower, demote, refresh_leader,
}
use aether_engine.Registry.Invariant.{
  LeaderEntry, AreFollowers, FollowerEntry, IsValid, known_followers,
}

remove_shards-Distinct :
    (shards : List ℕ) (m : HashMap ℕ NodeInfo) → Distinct m → Distinct (remove_shards shards m).0
unfolding remove_shards
remove_shards-Distinct [] m d = d
remove_shards-Distinct (s ∷ ss) m d =
    ground (arith, remove_shards-Distinct ss (HashMap.remove m s) (remove-Distinct m s d))

remove_shards-AllEntries :
    (P : ℕ → NodeInfo → Type 0) (shards : List ℕ) (m : HashMap ℕ NodeInfo)
    → AllEntries P m
    → AllEntries P (remove_shards shards m).0
unfolding remove_shards
remove_shards-AllEntries P [] m a = a
remove_shards-AllEntries P (s ∷ ss) m a = elim (Option-cases (get m s)) [
  | inl e ↦
      rw (e, remove_shards)
        (remove_shards-AllEntries P ss (HashMap.remove m s) (remove-AllEntries P m s a))
  | inr (n, e) ↦
      rw (e, remove_shards)
        (remove_shards-AllEntries P ss (HashMap.remove m s) (remove-AllEntries P m s a))
]

reap_nodes-AreFollowers :
    (now timeout : ℕ) (ns : List NodeInfo)
    → AreFollowers ns
    → AreFollowers (reap_nodes now timeout ns).0
unfolding reap_nodes
reap_nodes-AreFollowers now timeout [] a = tt
reap_nodes-AreFollowers now timeout (n ∷ ns) a =
    ground (arith, reap_nodes-AreFollowers now timeout ns a.1)

reap_followers-get :
    (now timeout : ℕ) (m : HashMap ℕ (List NodeInfo)) (shard : ℕ)
    → get m shard ≡ none
    → get (reap_followers now timeout m).0 shard ≡ none
unfolding reap_followers get
reap_followers-get now timeout [] shard h = refl
reap_followers-get now timeout ((s, ns) ∷ m) shard h =
    ground (arith, reap_followers-get now timeout m shard)

reap_followers-Distinct :
    (now timeout : ℕ) (m : HashMap ℕ (List NodeInfo))
    → Distinct m
    → Distinct (reap_followers now timeout m).0
unfolding reap_followers
reap_followers-Distinct now timeout [] d = tt
reap_followers-Distinct now timeout ((s, ns) ∷ m) d =
    (reap_followers-get now timeout m s d.0, reap_followers-Distinct now timeout m d.1)

reap_followers-FollowerEntry :
    (k now timeout : ℕ) (m : HashMap ℕ (List NodeInfo))
    → AllEntries (FollowerEntry k) m
    → AllEntries (FollowerEntry k) (reap_followers now timeout m).0
unfolding reap_followers
reap_followers-FollowerEntry k now timeout [] a = tt
reap_followers-FollowerEntry k now timeout ((s, ns) ∷ m) a = (
  (a.0.0, reap_nodes-AreFollowers now timeout ns a.0.1),
  reap_followers-FollowerEntry k now timeout m a.1,
)

pub reap_dead-IsValid :
    (r : Registry) (now timeout : ℕ) → IsValid r → IsValid (reap_dead r now timeout).0
unfolding reap_dead
reap_dead-IsValid r now timeout v = record {
  leaders_distinct = remove_shards-Distinct _ r.leaders v.leaders_distinct;
  followers_distinct = reap_followers-Distinct now timeout r.followers v.followers_distinct;
  leaders_in_range =
      remove_shards-AllEntries (LeaderEntry r.shard_count) _ r.leaders v.leaders_in_range;
  followers_in_range =
      reap_followers-FollowerEntry r.shard_count now timeout r.followers v.followers_in_range;
  groups_in_range = v.groups_in_range;
}

refresh_leader-IsValid :
    (r : Registry) (shard now : ℕ) → IsValid r → IsValid (refresh_leader r shard now)
unfolding refresh_leader
refresh_leader-IsValid r shard now v = elim (Option-cases (get r.leaders shard)) [
  | inl e ↦ rw (e, refresh_leader) v
  | inr (n, e) ↦
      let entry =
        get-AllEntries (LeaderEntry r.shard_count) r.leaders shard n v.leaders_in_range e in
      rw (e, refresh_leader)
        (record {
          leaders_distinct = insert-Distinct r.leaders shard _ v.leaders_distinct;
          followers_distinct = v.followers_distinct;
          leaders_in_range =
              insert-AllEntries (LeaderEntry r.shard_count) r.leaders shard
                (record n { last_seen = now }) v.leaders_in_range entry;
          followers_in_range = v.followers_in_range;
          groups_in_range = v.groups_in_range;
        })
]

take_node-AreFollowers :
    (ns : List NodeInfo) (id : String) (found : NodeInfo) (rest : List NodeInfo)
    → take_node ns id ≡ some (found, rest)
    → AreFollowers ns
    → AreFollowers rest
unfolding take_node
take_node-AreFollowers [] id found rest e a = cc
take_node-AreFollowers (n ∷ ns) id found rest e a = elim (Option-cases (take_node ns id)) [
  | inl t ↦ ground arith
  | inr (t, et) ↦ ground (arith, take_node-AreFollowers ns id t.0 t.1 et a.1)
]

-- The follower that a report names, and what is left of its shard.
find_follower-FollowerEntry :
    (k : ℕ) (m : HashMap ℕ (List NodeInfo)) (id : String) (shard : ℕ) (found : NodeInfo)
    (rest : List NodeInfo)
    → find_follower m id ≡ some (shard, found, rest)
    → AllEntries (FollowerEntry k) m
    → FollowerEntry k shard rest
unfolding find_follower
find_follower-FollowerEntry k [] id shard found rest e a = cc
find_follower-FollowerEntry k ((s, ns) ∷ m) id shard found rest e a =
    elim (Option-cases (take_node ns id)) [
      | inl t ↦ ground (arith, find_follower-FollowerEntry k m id shard found rest)
      | inr (t, et) ↦ ground (arith, take_node-AreFollowers ns id t.0 t.1 et a.0.1)
    ]

append-AreFollowers :
    (ns ms : List NodeInfo) → AreFollowers ns → AreFollowers ms → AreFollowers (ns ++ ms)
append-AreFollowers [] ms a b = b
append-AreFollowers (n ∷ ns) ms a b = (a.0, append-AreFollowers ns ms a.1 b)

demote-Distinct :
    (old : Option NodeInfo) (shard : ℕ) (m : HashMap ℕ (List NodeInfo))
    → Distinct m
    → Distinct (demote old shard m)
unfolding demote
demote-Distinct none shard m d = d
demote-Distinct (some old) shard m d = insert-Distinct m shard _ d

demote-FollowerEntry :
    (k : ℕ) (old : Option NodeInfo) (shard : ℕ) (m : HashMap ℕ (List NodeInfo))
    → shard < k
    → AllEntries (FollowerEntry k) m
    → AllEntries (FollowerEntry k) (demote old shard m)
unfolding demote
demote-FollowerEntry k none shard m h a = a
demote-FollowerEntry k (some old) shard m h a =
    insert-AllEntries (FollowerEntry k) m shard
      (unwrap_or (get m shard) [] ++ record old { role = follower } ∷ []) a
      (h, append-AreFollowers _ _ (known_followers k m shard a) (refl, tt))

pub report_raft_leader-IsValid :
    (r : Registry) (id : String) (now : ℕ) → IsValid r → IsValid (report_raft_leader r id now).0
unfolding report_raft_leader
report_raft_leader-IsValid r id now v = elim (Option-cases (led_shard r.leaders id)) [
  | inr (s, e) ↦ rw (e, report_raft_leader) (refresh_leader-IsValid r s now v)
  | inl e ↦ elim (Option-cases (find_follower r.followers id)) [
    | inl f ↦ rw (e, f, report_raft_leader) v
    | inr ((s, found, rest), f) ↦
        let entry =
          find_follower-FollowerEntry r.shard_count r.followers id s found rest f
            v.followers_in_range in
        rw (e, f, report_raft_leader)
          (record {
            leaders_distinct = insert-Distinct r.leaders s _ v.leaders_distinct;
            followers_distinct =
                demote-Distinct _ s _ (insert-Distinct r.followers s rest v.followers_distinct);
            leaders_in_range =
                insert-AllEntries (LeaderEntry r.shard_count) r.leaders s
                  (record found { role = leader; last_seen = now }) v.leaders_in_range
                  (entry.0, refl);
            followers_in_range = demote-FollowerEntry r.shard_count (get r.leaders s) s _ entry.0 (
                insert-AllEntries (FollowerEntry r.shard_count) r.followers s rest
                  v.followers_in_range entry);
            groups_in_range = v.groups_in_range;
          })
  ]
]
