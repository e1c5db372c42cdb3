-- ===== src/Registry/Routing.antt =====
-- Who a shard is routed to after a raft report and after a promotion.
use aether_engine.Prelude.{
  ℕ, ◌≡◌, ◌≢◌, inl, inr, refl, sym, ap, String, true, List, [], ◌∷◌, ◌++◌, map, some, arith, nat_eq,
  string_eq, Bool-cases, Option-cases, ◌==◌, beq→eq, any, unwrap_or, is_some, In,
}
use text.Mathlib.TextEquality.{eq_iff}
use aether_engine.Prelude.HashMap
use aether_engine.Prelude.HashMap.{
  HashMap, get, contains_key, get-insert, get-insert_self, get-insert_ne, get-remove,
}
use aether_engine.Registry.State.{Registry, NodeInfo, leader, follower, is_node}
use aether_engine.Registry.Failover.{
  take_node, find_follower, demote, led_shard, report_raft_leader, pop, promote_shard,
  promote_shards, promote_orphaned_shards,
}

take_node_id :
    (ns : List NodeInfo) (id : String) (found : NodeInfo) (rest : List NodeInfo)
    → take_node ns id ≡ some (found, rest)
    → found.node_id ≡ id
unfolding take_node
take_node_id [] id found rest e = cc
take_node_id (n ∷ ns) id found rest e = elim (Option-cases (take_node ns id)) [
  | inl t ↦ ground (arith, eq_iff n.node_id id)
  | inr (t, et) ↦ ground (arith, eq_iff n.node_id id, take_node_id ns id t.0 t.1 et)
]

find_follower_id :
    (m : HashMap ℕ (List NodeInfo)) (id : String) (shard : ℕ) (found : NodeInfo)
    (rest : List NodeInfo)
    → find_follower m id ≡ some (shard, found, rest)
    → found.node_id ≡ id
unfolding find_follower
find_follower_id [] id shard found rest e = cc
find_follower_id ((s, ns) ∷ m) id shard found rest e = elim (Option-cases (take_node ns id)) [
  | inl t ↦ ground (arith, find_follower_id m id shard found rest)
  | inr (t, et) ↦ ground (arith, take_node_id ns id t.0 t.1 et)
]

any_last :
    (id : String) (ns : List NodeInfo) (n : NodeInfo)
    → n.node_id ≡ id
    → any (is_node id) (ns ++ n ∷ []) ≡ true
unfolding any
any_last id [] n e = ground (arith, eq_iff n.node_id id)
any_last id (k ∷ ns) n e = ground (arith, any_last id ns n e)

demoted :
    (old : NodeInfo) (shard : ℕ) (m : HashMap ℕ (List NodeInfo))
    → any (is_node old.node_id) (unwrap_or (get (demote (some old) shard m) shard) []) ≡ true
unfolding demote
demoted old shard m =
    rw get-insert_self (any_last old.node_id _ (record old { role = follower }) refl)

-- Where a raft report changes the routing of a shard, the reporter leads that shard as of now, no
-- other shard is routed differently, and the leader that it replaces, if there was one, is still
-- known as a follower of the shard.
pub report_routes :
    (r : Registry) (id : String) (now shard : ℕ)
    → (report_raft_leader r id now).1 ≡ some shard
    → let r' = (report_raft_leader r id now).0 in
      ((n : NodeInfo) × (get r'.leaders shard ≡ some n)
        × (n.node_id ≡ id)
        × (n.role ≡ leader)
        × (n.last_seen ≡ now))
      × ((j : ℕ) → shard ≢ j → get r'.leaders j ≡ get r.leaders j)
      × ((old : NodeInfo)
          → get r.leaders shard ≡ some old
          → any (is_node old.node_id) (unwrap_or (get r'.followers shard) []) ≡ true)
unfolding report_raft_leader
report_routes r id now shard e = elim (Option-cases (led_shard r.leaders id)) [
  | inr (s, f) ↦ absurd (ground arith)
  | inl f ↦ elim (Option-cases (find_follower r.followers id)) [
    | inl g ↦ absurd (ground arith)
    | inr ((s, found, rest), g) ↦
        let same : s ≡ shard = ground arith in
        let promoted = record found { role = leader; last_seen = now } in
        rw (← same, f, g, report_raft_leader)
          (
            (
              promoted,
              get-insert_self r.leaders s promoted,
              find_follower_id r.followers id s found rest g,
              refl,
              refl,
            ),
            λ j other. get-insert_ne r.leaders s j promoted other,
            λ old h. rw h (demoted old s (HashMap.insert r.followers s rest)),
          )
  ]
]

pop_some : {A : Type 0} (xs : List A) → xs ≢ [] → is_some (pop xs) ≡ true
unfolding pop
pop_some [] h = absurd (h refl)
pop_some (x ∷ xs) h = ground arith

-- One round touches one shard only, and keeps its leader.
promote_shard-leaders :
    (r : Registry) (shard j : ℕ) (n : NodeInfo)
    → get r.leaders j ≡ some n
    → get (promote_shard r shard).0.leaders j ≡ some n
unfolding promote_shard
promote_shard-leaders r shard j n e =
    elim (Option-cases (pop (unwrap_or (get r.followers shard) []))) [
      | inl f ↦ ground arith
      | inr ((node, rest), f) ↦
          ground (arith, get-insert r.leaders shard j (record node { role = leader }))
    ]

promote_shard-followers :
    (r : Registry) (shard j : ℕ)
    → shard ≢ j
    → get (promote_shard r shard).0.followers j ≡ get r.followers j
unfolding promote_shard
promote_shard-followers r shard j h =
    elim (Option-cases (pop (unwrap_or (get r.followers shard) []))) [
      | inl f ↦ ground arith
      | inr ((node, rest), f) ↦
          ground (arith, get-insert r.followers shard j rest, get-remove r.followers shard j)
    ]

promote_shard_staffs :
    (r : Registry) (shard : ℕ)
    → unwrap_or (get r.followers shard) [] ≢ []
    → contains_key (promote_shard r shard).0.leaders shard ≡ true
unfolding promote_shard
promote_shard_staffs r shard h = elim (Option-cases (pop (unwrap_or (get r.followers shard) []))) [
  | inl f ↦ absurd (ground (arith, pop_some (unwrap_or (get r.followers shard) []) h))
  | inr ((node, rest), f) ↦
      ground (arith, get-insert_self r.leaders shard (record node { role = leader }))
]

promote_shards-leaders :
    (shards : List ℕ) (r : Registry) (j : ℕ) (n : NodeInfo)
    → get r.leaders j ≡ some n
    → get (promote_shards r shards).0.leaders j ≡ some n
unfolding promote_shards
promote_shards-leaders [] r j n e = e
promote_shards-leaders (s ∷ ss) r j n e =
    promote_shards-leaders ss (promote_shard r s).0 j n (promote_shard-leaders r s j n e)

promote_shards_staff :
    (shards : List ℕ) (r : Registry) (j : ℕ)
    → In j shards
    → unwrap_or (get r.followers j) [] ≢ []
    → contains_key (promote_shards r shards).0.leaders j ≡ true
unfolding promote_shards
promote_shards_staff [] r j i h = absurd i
promote_shards_staff (s ∷ ss) r j i h = elim (Bool-cases (s == j)) [
  | inl same ↦ rw (← beq→eq s j same) (led s (rw (beq→eq s j same) h))
  | inr other ↦ elim i [
    | inl e ↦ absurd (ground (arith, e))
    | inr later ↦
        promote_shards_staff ss (promote_shard r s).0 j later
          (rw (promote_shard-followers r s j (λ e. ground arith)) h)
  ]
]
  where
    led :
        (s : ℕ)
        → unwrap_or (get r.followers s) [] ≢ []
        → contains_key (promote_shards (promote_shard r s).0 ss).0.leaders s ≡ true
    led s h = elim (Option-cases (get (promote_shard r s).0.leaders s)) [
      | inl e ↦ absurd (ground (arith, promote_shard_staffs r s h))
      | inr (n, e) ↦ ap is_some (promote_shards-leaders ss (promote_shard r s).0 s n e)
    ]

key_of_followers :
    (m : HashMap ℕ (List NodeInfo)) (j : ℕ)
    → unwrap_or (get m j) [] ≢ []
    → In j (map (λ entry. entry.0) m)
unfolding get
key_of_followers [] j h = absurd (h refl)
key_of_followers ((s, ns) ∷ m) j h = elim (Bool-cases (s == j)) [
  | inl same ↦ inl (sym (beq→eq s j same))
  | inr other ↦ inr (key_of_followers m j (rw other at h))
]

-- Failover: after a promotion round every shard that had a follower has a leader, and every leader
-- that a shard had stays its leader.
pub promotion_staffs :
    (r : Registry)
    → let r' = (promote_orphaned_shards r).0 in
      ((j : ℕ) → unwrap_or (get r.followers j) [] ≢ [] → contains_key r'.leaders j ≡ true)
      × ((j : ℕ) (n : NodeInfo) → get r.leaders j ≡ some n → get r'.leaders j ≡ some n)
unfolding promote_orphaned_shards
promotion_staffs r = (
  λ j h.
      promote_shards_staff (map (λ entry. entry.0) r.followers) r j
        (key_of_followers r.followers j h) h,
  λ j n e. promote_shards-leaders (map (λ entry. entry.0) r.followers) r j n e,
)
