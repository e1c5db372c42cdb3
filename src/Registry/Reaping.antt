-- ===== src/Registry/Reaping.antt =====
-- `reap_dead`: which nodes it drops, and which it keeps.
use aether_engine.Prelude.{
  ℕ, ◌≡◌, ◌≢◌, refl, sym, ◌∙◌, Bool, not, none, List, [], ◌∷◌, ◌++◌, map, inl, inr, arith, nat_eq,
  string_eq, Bool-cases, ◌==◌, beq→eq, beq_refl, retain, All,
}
use aether_engine.Prelude.HashMap
use aether_engine.Prelude.HashMap.{HashMap, get, Distinct, remove_absent}
use aether_engine.Registry.State.{Registry, NodeInfo}
use aether_engine.Registry.Failover.{
  is_stale, dead_shards, remove_shards, reap_nodes, reap_followers, reap_dead,
}

abbrev pub is_fresh : ℕ → ℕ → NodeInfo → Bool
is_fresh now timeout n = not (is_stale now timeout n)

-- The leaders that reaping is meant to keep, and those that it is meant to return.
unfoldable pub fresh_leaders : ℕ → ℕ → HashMap ℕ NodeInfo → HashMap ℕ NodeInfo
fresh_leaders now timeout = retain (λ entry. is_fresh now timeout entry.1)

unfoldable pub stale_leaders : ℕ → ℕ → HashMap ℕ NodeInfo → List NodeInfo
stale_leaders now timeout m = retain (is_stale now timeout) (map (λ entry. entry.1) m)

unfoldable pub fresh_followers : ℕ → ℕ → HashMap ℕ (List NodeInfo) → HashMap ℕ (List NodeInfo)
fresh_followers now timeout = map (λ entry. (entry.0, retain (is_fresh now timeout) entry.1))

unfoldable pub stale_followers : ℕ → ℕ → HashMap ℕ (List NodeInfo) → List NodeInfo
stale_followers now timeout [] = []
stale_followers now timeout ((s, ns) ∷ m) =
    retain (is_stale now timeout) ns ++ stale_followers now timeout m

module _ (now timeout : ℕ) where
  dead_shards_absent :
      (m : HashMap ℕ NodeInfo) (s : ℕ)
      → get m s ≡ none
      → All (λ k. k ≢ s) (dead_shards now timeout m)
  unfolding dead_shards get
  dead_shards_absent [] s e = tt
  dead_shards_absent ((k, n) ∷ m) s e = ground (arith, dead_shards_absent m s)

  -- An entry whose shard is not on the list stays, and the others fare as without it.
  remove_shards_skip :
      (shards : List ℕ) (s : ℕ) (n : NodeInfo) (m : HashMap ℕ NodeInfo)
      → All (λ k. k ≢ s) shards
      → remove_shards shards ((s, n) ∷ m)
        ≡ ((s, n) ∷ (remove_shards shards m).0, (remove_shards shards m).1)
  unfolding remove_shards get HashMap.remove
  remove_shards_skip [] s n m a = refl
  remove_shards_skip (k ∷ ks) s n m a = elim (Bool-cases (s == k)) [
    | inl same ↦ absurd (a.0 (sym (beq→eq s k same)))
    | inr other ↦ ground (arith, remove_shards_skip ks s n (HashMap.remove m k) a.1)
  ]

  remove_shards-dead_shards :
      (m : HashMap ℕ NodeInfo)
      → Distinct m
      → remove_shards (dead_shards now timeout m) m
        ≡ (fresh_leaders now timeout m, stale_leaders now timeout m)
  unfolding dead_shards remove_shards fresh_leaders stale_leaders retain get HashMap.remove
  remove_shards-dead_shards [] d = refl
  remove_shards-dead_shards ((s, n) ∷ m) d =
      let rest = remove_shards-dead_shards m d.1 in
      elim (Bool-cases (is_stale now timeout n)) [
        | inl stale ↦ rw stale (ground (arith, remove_absent m s d.0, rest, beq_refl s))
        | inr fresh ↦ rw fresh (
            remove_shards_skip (dead_shards now timeout m) s n m (dead_shards_absent m s d.0)
            ∙ ground (arith, rest))
      ]

  reap_nodes_lem :
      (ns : List NodeInfo)
      → reap_nodes now timeout ns
        ≡ (retain (is_fresh now timeout) ns, retain (is_stale now timeout) ns)
  unfolding reap_nodes retain
  reap_nodes_lem [] = refl
  reap_nodes_lem (n ∷ ns) = ground (arith, reap_nodes_lem ns)

  reap_followers_lem :
      (m : HashMap ℕ (List NodeInfo))
      → reap_followers now timeout m
        ≡ (fresh_followers now timeout m, stale_followers now timeout m)
  unfolding reap_followers fresh_followers stale_followers
  reap_followers_lem [] = refl
  reap_followers_lem ((s, ns) ∷ m) = ground (arith, reap_followers_lem m, reap_nodes_lem ns)

-- With one leader entry to a shard, reaping keeps exactly the nodes that were seen within the
-- timeout, each where it was, and returns exactly the others, the leaders first.
pub reap_dead_lem :
    (r : Registry) (now timeout : ℕ)
    → Distinct r.leaders
    → ((reap_dead r now timeout).0.leaders ≡ fresh_leaders now timeout r.leaders)
      × ((reap_dead r now timeout).0.followers ≡ fresh_followers now timeout r.followers)
      × ((reap_dead r now timeout).1
          ≡ stale_leaders now timeout r.leaders ++ stale_followers now timeout r.followers)
unfolding reap_dead
reap_dead_lem r now timeout d = ground (
  arith,
  remove_shards-dead_shards now timeout r.leaders d,
  reap_followers_lem now timeout r.followers,
)
