-- ===== src/Registry/Liveness.antt =====
-- Heartbeats keep a node alive.
use aether_engine.Prelude.{
  ℕ, ◌+◌, ◌≤◌, ◌≡◌, refl, String, Bool, true, false, ◌&&◌, ◌||◌, some, List, [], ◌∷◌, inl, inr,
  arith, nat_eq, string_eq, Option-cases, ◌==◌, any, retain, is_some,
}
use aether_engine.Prelude.HashMap.{HashMap, Distinct}
use aether_engine.Registry.State.{Registry, NodeInfo, is_node, knows_node}
use aether_engine.Registry.Members.{heartbeat, touch_leader, touch_node, touch_follower}
use aether_engine.Registry.Failover.{reap_dead}
use aether_engine.Registry.Invariant.{IsValid}
use aether_engine.Registry.Invariant.Members.{heartbeat-IsValid}
use aether_engine.Registry.Reaping.{is_fresh, fresh_leaders, fresh_followers, reap_dead_lem}

-- A node that the registry knows is answered with a role, and an unknown one with none.
touch_leader_known :
    (m : HashMap ℕ NodeInfo) (id : String) (now : ℕ)
    → is_some (touch_leader m id now) ≡ any (λ entry. is_node id entry.1) m
unfolding touch_leader any
touch_leader_known [] id now = refl
touch_leader_known ((s, n) ∷ m) id now = ground (arith, touch_leader_known m id now)

touch_node_known :
    (ns : List NodeInfo) (id : String) (now : ℕ)
    → is_some (touch_node ns id now) ≡ any (is_node id) ns
unfolding touch_node any
touch_node_known [] id now = refl
touch_node_known (n ∷ ns) id now = ground (arith, touch_node_known ns id now)

touch_follower_known :
    (m : HashMap ℕ (List NodeInfo)) (id : String) (now : ℕ)
    → is_some (touch_follower m id now) ≡ any (λ entry. any (is_node id) entry.1) m
unfolding touch_follower any
touch_follower_known [] id now = refl
touch_follower_known ((s, ns) ∷ m) id now =
    ground (arith, touch_follower_known m id now, touch_node_known ns id now)

-- What a heartbeat leaves behind: somewhere an entry of the node that was last seen at `now`.
abbrev pub seen_at : Registry → String → ℕ → Bool
seen_at r id now =
    any (λ entry. is_node id entry.1 && entry.1.last_seen == now) r.leaders
    || any (λ entry. any (λ n. is_node id n && n.last_seen == now) entry.1) r.followers

touch_leader_seen :
    (m : HashMap ℕ NodeInfo) (id : String) (now : ℕ) (m' : HashMap ℕ NodeInfo)
    → touch_leader m id now ≡ some m'
    → any (λ entry. is_node id entry.1 && entry.1.last_seen == now) m' ≡ true
unfolding touch_leader any
touch_leader_seen [] id now m' e = cc
touch_leader_seen ((s, n) ∷ m) id now m' e = elim (Option-cases (touch_leader m id now)) [
  | inl t ↦ ground arith
  | inr (t, et) ↦ ground (arith, touch_leader_seen m id now t et)
]

touch_node_seen :
    (ns : List NodeInfo) (id : String) (now : ℕ) (ns' : List NodeInfo)
    → touch_node ns id now ≡ some ns'
    → any (λ n. is_node id n && n.last_seen == now) ns' ≡ true
unfolding touch_node any
touch_node_seen [] id now ns' e = cc
touch_node_seen (n ∷ ns) id now ns' e = elim (Option-cases (touch_node ns id now)) [
  | inl t ↦ ground arith
  | inr (t, et) ↦ ground (arith, touch_node_seen ns id now t et)
]

touch_follower_seen :
    (m : HashMap ℕ (List NodeInfo)) (id : String) (now : ℕ) (m' : HashMap ℕ (List NodeInfo))
    → touch_follower m id now ≡ some m'
    → any (λ entry. any (λ n. is_node id n && n.last_seen == now) entry.1) m' ≡ true
unfolding touch_follower any
touch_follower_seen [] id now m' e = cc
touch_follower_seen ((s, ns) ∷ m) id now m' e = elim (Option-cases (touch_node ns id now)) [
  | inr (t, et) ↦ ground (arith, touch_node_seen ns id now t et)
  | inl none_here ↦ elim (Option-cases (touch_follower m id now)) [
    | inl t ↦ ground arith
    | inr (t, et) ↦ ground (arith, touch_follower_seen m id now t et)
  ]
]

heartbeat_seen :
    (r : Registry) (id : String) (now : ℕ)
    → knows_node r id ≡ true
    → seen_at (heartbeat r id now).0 id now ≡ true
unfolding heartbeat knows_node
heartbeat_seen r id now k = elim (Option-cases (touch_leader r.leaders id now)) [
  | inr (ls, e) ↦ rw (e, heartbeat) (ground (arith, touch_leader_seen r.leaders id now ls e))
  | inl e ↦ elim (Option-cases (touch_follower r.followers id now)) [
    | inr (fs, f) ↦
        rw (e, f, heartbeat) (ground (arith, touch_follower_seen r.followers id now fs f))
    | inl f ↦ absurd (
        ground
          (arith, touch_leader_known r.leaders id now, touch_follower_known r.followers id now))
  ]
]

module _ (id : String) (now now' timeout : ℕ) (soon : now' ≤ now + timeout) where
  kept_leader :
      (m : HashMap ℕ NodeInfo)
      → any (λ entry. is_node id entry.1 && entry.1.last_seen == now) m ≡ true
      → any (λ entry. is_node id entry.1) (fresh_leaders now' timeout m) ≡ true
  unfolding any fresh_leaders retain
  kept_leader [] h = h
  kept_leader ((s, n) ∷ m) h = ground (arith, kept_leader m)

  kept_node :
      (ns : List NodeInfo)
      → any (λ n. is_node id n && n.last_seen == now) ns ≡ true
      → any (is_node id) (retain (is_fresh now' timeout) ns) ≡ true
  unfolding any retain
  kept_node [] h = h
  kept_node (n ∷ ns) h = ground (arith, kept_node ns)

  kept_follower :
      (m : HashMap ℕ (List NodeInfo))
      → any (λ entry. any (λ n. is_node id n && n.last_seen == now) entry.1) m ≡ true
      → any (λ entry. any (is_node id) entry.1) (fresh_followers now' timeout m) ≡ true
  unfolding any fresh_followers
  kept_follower [] h = h
  kept_follower ((s, ns) ∷ m) h = ground (arith, kept_follower m, kept_node ns)

  kept :
      (r : Registry)
      → Distinct r.leaders
      → seen_at r id now ≡ true
      → knows_node (reap_dead r now' timeout).0 id ≡ true
  unfolding knows_node
  kept r d h =
      let (leaders, followers, removed) = reap_dead_lem r now' timeout d in
      rw (leaders, followers) (ground (arith, kept_leader r.leaders, kept_follower r.followers))

-- A node that a well-formed registry knows and that sends a heartbeat is still known after any reaping within
-- the timeout from that heartbeat.
pub heartbeat_keeps_alive :
    (r : Registry) (id : String) (now now' timeout : ℕ)
    → IsValid r
    → knows_node r id ≡ true
    → now' ≤ now + timeout
    → knows_node (reap_dead (heartbeat r id now).0 now' timeout).0 id ≡ true
heartbeat_keeps_alive r id now now' timeout v k soon =
    kept id now now' timeout soon (heartbeat r id now).0
      (heartbeat-IsValid r id now v).leaders_distinct (heartbeat_seen r id now k)

-- A heartbeat is answered with a role exactly when the registry knows the node; of an unknown node
-- it changes nothing.
pub heartbeat_known :
    (r : Registry) (id : String) (now : ℕ)
    → (is_some (heartbeat r id now).1 ≡ knows_node r id)
      × (knows_node r id ≡ false → (heartbeat r id now).0 ≡ r)
unfolding heartbeat knows_node
heartbeat_known r id now =
    ground (arith, touch_leader_known r.leaders id now, touch_follower_known r.followers id now)
