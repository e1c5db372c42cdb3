-- ===== src/Registry/Invariant/Members.antt =====
-- Registration and heartbeats keep the registry well formed.
use aether_engine.Prelude.{
  ℕ, ◌<◌, ◌≡◌, refl, String, none, some, List, [], ◌∷◌, inl, inr, unwrap_or, arith, nat_eq,
  Option-cases,
}
use aether_engine.Prelude.HashMap.{
  HashMap, get, Distinct, AllEntries, insert-Distinct, insert-AllEntries,
}
use aether_engine.Registry.State.{Registry, NodeInfo, NodeRole, leader, follower, unspecified}
use aether_engine.Registry.Members.{
  RegisterNodeRequest, register_at, admit, upsert, info_of, heartbeat, touch_leader, touch_node,
  touch_follower,
}
use aether_engine.Registry.Invariant.{
  LeaderEntry, AreFollowers, FollowerEntry, IsValid, known_followers,
}

upsert-AreFollowers :
    (ns : List NodeInfo) (info : NodeInfo)
    → AreFollowers ns
    → info.role ≡ follower
    → AreFollowers (upsert ns info)
unfolding upsert
upsert-AreFollowers [] info a h = (h, tt)
upsert-AreFollowers (n ∷ ns) info a h = ground (arith, upsert-AreFollowers ns info a.1 h)

admit-IsValid :
    (r : Registry) (req : RegisterNodeRequest) (now : ℕ)
    → req.shard_id < r.shard_count
    → IsValid r
    → IsValid (admit r req now).0
unfolding admit
admit-IsValid r req now h v = go req.role refl
  where
    shard : ℕ
    shard = req.shard_id

    infos : List NodeInfo
    infos = upsert (unwrap_or (get r.followers shard) []) (info_of req now)

    go : (role : NodeRole) → req.role ≡ role → IsValid (admit r req now).0
    go leader e =
        rw (e, admit)
          (record {
            leaders_distinct = insert-Distinct r.leaders shard (info_of req now) v.leaders_distinct;
            followers_distinct = v.followers_distinct;
            leaders_in_range =
                insert-AllEntries (LeaderEntry r.shard_count) r.leaders shard (info_of req now)
                  v.leaders_in_range (h, e);
            followers_in_range = v.followers_in_range;
            groups_in_range = v.groups_in_range;
          })
    go follower e =
        rw (e, admit)
          (record {
            leaders_distinct = v.leaders_distinct;
            followers_distinct = insert-Distinct r.followers shard _ v.followers_distinct;
            leaders_in_range = v.leaders_in_range;
            followers_in_range =
                insert-AllEntries (FollowerEntry r.shard_count) r.followers shard infos
                  v.followers_in_range
                  (
                    h,
                    upsert-AreFollowers _ _
                        (known_followers r.shard_count r.followers shard v.followers_in_range) e,
                  );
            groups_in_range = v.groups_in_range;
          })
    go unspecified e = rw (e, admit) v

pub register_at-IsValid :
    (r : Registry) (req : RegisterNodeRequest) (now : ℕ)
    → IsValid r
    → IsValid (register_at r req now).0
unfolding register_at
register_at-IsValid r req now v = ground (arith, admit-IsValid r req now)

-- A refreshed map has the keys of the old one.
touch_leader-get :
    (m : HashMap ℕ NodeInfo) (id : String) (now shard : ℕ) (m' : HashMap ℕ NodeInfo)
    → touch_leader m id now ≡ some m'
    → get m shard ≡ none
    → get m' shard ≡ none
unfolding touch_leader get
touch_leader-get [] id now shard m' e h = cc
touch_leader-get ((s, n) ∷ m) id now shard m' e h = elim (Option-cases (touch_leader m id now)) [
  | inl t ↦ ground arith
  | inr (t, et) ↦ ground (arith, touch_leader-get m id now shard t et)
]

touch_leader-Distinct :
    (m : HashMap ℕ NodeInfo) (id : String) (now : ℕ) (m' : HashMap ℕ NodeInfo)
    → touch_leader m id now ≡ some m'
    → Distinct m
    → Distinct m'
unfolding touch_leader
touch_leader-Distinct [] id now m' e d = cc
touch_leader-Distinct ((s, n) ∷ m) id now m' e d = elim (Option-cases (touch_leader m id now)) [
  | inl t ↦ ground arith
  | inr (t, et) ↦
      ground (arith, touch_leader-Distinct m id now t et d.1, touch_leader-get m id now s t et d.0)
]

touch_leader-LeaderEntry :
    (k : ℕ) (m : HashMap ℕ NodeInfo) (id : String) (now : ℕ) (m' : HashMap ℕ NodeInfo)
    → touch_leader m id now ≡ some m'
    → AllEntries (LeaderEntry k) m
    → AllEntries (LeaderEntry k) m'
unfolding touch_leader
touch_leader-LeaderEntry k [] id now m' e d = cc
touch_leader-LeaderEntry k ((s, n) ∷ m) id now m' e d =
    elim (Option-cases (touch_leader m id now)) [
      | inl t ↦ ground arith
      | inr (t, et) ↦ ground (arith, touch_leader-LeaderEntry k m id now t et d.1)
    ]

pub touch_node-AreFollowers :
    (ns : List NodeInfo) (id : String) (now : ℕ) (ns' : List NodeInfo)
    → touch_node ns id now ≡ some ns'
    → AreFollowers ns
    → AreFollowers ns'
unfolding touch_node
touch_node-AreFollowers [] id now ns' e d = cc
touch_node-AreFollowers (n ∷ ns) id now ns' e d = elim (Option-cases (touch_node ns id now)) [
  | inl t ↦ ground arith
  | inr (t, et) ↦ ground (arith, touch_node-AreFollowers ns id now t et d.1)
]

touch_follower-get :
    (m : HashMap ℕ (List NodeInfo)) (id : String) (now shard : ℕ) (m' : HashMap ℕ (List NodeInfo))
    → touch_follower m id now ≡ some m'
    → get m shard ≡ none
    → get m' shard ≡ none
unfolding touch_follower get
touch_follower-get [] id now shard m' e h = cc
touch_follower-get ((s, ns) ∷ m) id now shard m' e h = elim (Option-cases (touch_node ns id now)) [
  | inr (t, et) ↦ ground arith
  | inl none_here ↦ elim (Option-cases (touch_follower m id now)) [
    | inl t ↦ ground arith
    | inr (t, et) ↦ ground (arith, touch_follower-get m id now shard t et)
  ]
]

touch_follower-Distinct :
    (m : HashMap ℕ (List NodeInfo)) (id : String) (now : ℕ) (m' : HashMap ℕ (List NodeInfo))
    → touch_follower m id now ≡ some m'
    → Distinct m
    → Distinct m'
unfolding touch_follower
touch_follower-Distinct [] id now m' e d = cc
touch_follower-Distinct ((s, ns) ∷ m) id now m' e d = elim (Option-cases (touch_node ns id now)) [
  | inr (t, et) ↦ ground arith
  | inl none_here ↦ elim (Option-cases (touch_follower m id now)) [
    | inl t ↦ ground arith
    | inr (t, et) ↦
        ground
          (arith, touch_follower-Distinct m id now t et d.1, touch_follower-get m id now s t et d.0)
  ]
]

touch_follower-FollowerEntry :
    (k : ℕ) (m : HashMap ℕ (List NodeInfo)) (id : String) (now : ℕ) (m' : HashMap ℕ (List NodeInfo))
    → touch_follower m id now ≡ some m'
    → AllEntries (FollowerEntry k) m
    → AllEntries (FollowerEntry k) m'
unfolding touch_follower
touch_follower-FollowerEntry k [] id now m' e d = cc
touch_follower-FollowerEntry k ((s, ns) ∷ m) id now m' e d =
    elim (Option-cases (touch_node ns id now)) [
      | inr (t, et) ↦ ground (arith, touch_node-AreFollowers ns id now t et d.0.1)
      | inl none_here ↦ elim (Option-cases (touch_follower m id now)) [
        | inl t ↦ ground arith
        | inr (t, et) ↦ ground (arith, touch_follower-FollowerEntry k m id now t et d.1)
      ]
    ]

pub heartbeat-IsValid :
    (r : Registry) (id : String) (now : ℕ) → IsValid r → IsValid (heartbeat r id now).0
unfolding heartbeat
heartbeat-IsValid r id now v = elim (Option-cases (touch_leader r.leaders id now)) [
  | inr (ls, e) ↦
      rw (e, heartbeat)
        (record {
          leaders_distinct = touch_leader-Distinct r.leaders id now ls e v.leaders_distinct;
          followers_distinct = v.followers_distinct;
          leaders_in_range =
              touch_leader-LeaderEntry r.shard_count r.leaders id now ls e v.leaders_in_range;
          followers_in_range = v.followers_in_range;
          groups_in_range = v.groups_in_range;
        })
  | inl e ↦ elim (Option-cases (touch_follower r.followers id now)) [
    | inr (fs, f) ↦
        rw (e, f, heartbeat)
          (record {
            leaders_distinct = v.leaders_distinct;
            followers_distinct =
                touch_follower-Distinct r.followers id now fs f v.followers_distinct;
            leaders_in_range = v.leaders_in_range;
            followers_in_range =
                touch_follower-FollowerEntry r.shard_count r.followers id now fs f
                  v.followers_in_range;
            groups_in_range = v.groups_in_range;
          })
    | inl f ↦ rw (e, f, heartbeat) v
  ]
]
