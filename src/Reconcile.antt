-- ===== src/Reconcile.antt =====
-- crates/shard-node/src/raft/reconcile.rs: one tick of the membership reconciler of a leader, as the
-- proposals that it makes to raft for the members that the coordinator lists. What it proposes does not
-- depend on how raft answers.
pub mod Proposals
pub mod Tests
use aether_engine.Prelude.{
  ℕ, String, Bool, true, false, not, ◌&&◌, List, [], ◌∷◌, ◌++◌, if◌then◌else◌, nat_eq, leb, length,
}
use aether_engine.Prelude.Text.{as_bytes}
use aether_engine.Prelude.HashMap
use aether_engine.Prelude.HashMap.{HashMap}
use aether_engine.Prelude.HashSet.{contains, collect}
use aether_engine.Prelude.Sort.{sort}
use aether_engine.Shard.{fnv1a_64}
use aether_engine.Registry.Snapshot.{NodeSnapshot}

-- The calls of `change_membership` and `add_learner`.
pub data Proposal : Type 0 where
  remove_voter : ℕ → Proposal
  remove_learner : ℕ → Proposal
  add_learner : ℕ → String → Proposal
  add_voter : ℕ → Proposal

unfoldable pub raft_node_id : String → ℕ
raft_node_id node_id = fnv1a_64 (as_bytes node_id)

unfoldable pub draining_ids : List NodeSnapshot → List ℕ
draining_ids [] = []
draining_ids (m ∷ ms) =
    let rest = draining_ids ms in if m.draining then raft_node_id m.node_id ∷ rest else rest

-- A `BTreeSet` is read in ascending order.
unfoldable pub draining : List NodeSnapshot → List ℕ
unfolding draining_ids
draining ms = sort leb (collect (draining_ids ms))

unfoldable pub desired_from : HashMap ℕ String → List NodeSnapshot → HashMap ℕ String
desired_from map [] = map
desired_from map (m ∷ ms) =
    desired_from
      (if not m.draining then HashMap.insert map (raft_node_id m.node_id) m.address else map) ms

unfoldable pub desired : List NodeSnapshot → HashMap ℕ String
unfolding desired_from
desired ms = sort (λ a b. leb a.0 b.0) (desired_from [] ms)

module _ (in_group voters : List ℕ) where
  -- The loop over the draining members.
  unfoldable pub removals : List ℕ → List Proposal
  removals [] = []
  removals (id ∷ ids) =
      let rest = removals ids in
      if not (contains in_group id)
      then rest
      else if contains voters id
      then if leb (length voters) 3 then rest else remove_voter id ∷ rest
      else remove_learner id ∷ rest

  -- The loop over the desired members.
  unfoldable pub admissions : HashMap ℕ String → List Proposal
  admissions [] = []
  admissions ((id, addr) ∷ m) =
      let rest = admissions m in
      let promoted =
        if contains in_group id && not (contains voters id) then add_voter id ∷ rest else rest in
      if not (contains in_group id) then add_learner id addr ∷ promoted else promoted

  unfoldable pub reconcile : List NodeSnapshot → List Proposal
  unfolding draining desired removals admissions
  reconcile members = removals (draining members) ++ admissions (desired members)
