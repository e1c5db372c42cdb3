-- ===== src/Reconcile/Tests.antt =====
-- A tick in a group of four voters, of which two drain.
use aether_engine.Prelude.{
  ℕ, ◌≡◌, refl, true, false, not, ◌&&◌, [], ◌∷◌, List, nat_eq, ltb, any, length, String, Bool,
}
use aether_engine.Prelude.HashSet.{contains, collect}
use aether_engine.Prelude.Sort.{sort}
use aether_engine.Prelude.Text.{encode}
use aether_engine.Shard.{fnv1a_64}
use aether_engine.Registry.State.{follower}
use aether_engine.Registry.Snapshot.{NodeSnapshot}
use aether_engine.Reconcile.{raft_node_id, reconcile}
use aether_engine.Reconcile.Proposals.{
  removes_voter, removes_learner, adds_learner, adds_voter, drains, stays, reconcile_lem,
}

abbrev listed : String → Bool → NodeSnapshot
listed node_id draining = record {
  node_id = node_id;
  address = node_id;
  role = follower;
  shard_id = 0;
  since_seen = 0;
  draining = draining;
}

abbrev members : List NodeSnapshot
members = listed "a" true ∷ listed "b" true ∷ listed "c" false ∷ listed "d" false ∷ []

abbrev four : List ℕ
four = raft_node_id "a" ∷ raft_node_id "b" ∷ raft_node_id "c" ∷ raft_node_id "d" ∷ []

reconcile_lem_example :
    let proposals = reconcile four four members in
    let id = raft_node_id "b" in
    (any (removes_voter id) proposals
      ≡ (any (drains id) members && (contains four id && contains four id && ltb 3 (length four))))
    × (any (removes_learner id) proposals
        ≡ (any (drains id) members && (contains four id && not (contains four id))))
    × (any (adds_learner id) proposals ≡ (any (stays id) members && not (contains four id)))
    × (any (adds_voter id) proposals
        ≡ (any (stays id) members && (contains four id && not (contains four id))))
reconcile_lem_example = reconcile_lem four four members (raft_node_id "b")

-- Both voters that drain are removed in the one tick, which leaves two.
both_removed :
    (any (removes_voter (raft_node_id "a")) (reconcile four four members) ≡ true)
    × (any (removes_voter (raft_node_id "b")) (reconcile four four members) ≡ true)
unfolding reconcile any contains raft_node_id sort collect fnv1a_64 encode
both_removed = (refl, refl)
