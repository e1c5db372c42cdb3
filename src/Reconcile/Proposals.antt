-- ===== src/Reconcile/Proposals.antt =====
-- Which proposals a tick makes.
use aether_engine.Prelude.{
  ℕ, ◌≡◌, refl, sym, ap, ◌∙◌, String, Bool, true, false, not, ◌&&◌, ◌||◌, List, [], ◌∷◌,
  if◌then◌else◌, nat_eq, ◌==◌, leb, ltb, length, any, any-append, arith, beq→eq,
}
use aether_engine.Prelude.HashMap
use aether_engine.Prelude.HashMap.{HashMap}
use aether_engine.Prelude.HashSet.{contains, collect, contains-collect}
use aether_engine.Prelude.Sort.{any-sort}
use aether_engine.Registry.Snapshot.{NodeSnapshot}
use aether_engine.Reconcile.{
  Proposal, remove_voter, remove_learner, add_learner, add_voter, raft_node_id, draining_ids,
  draining, desired_from, desired, removals, admissions, reconcile,
}

-- Proposals about a node.
abbrev pub removes_voter : ℕ → Proposal → Bool
removes_voter id (remove_voter i) = i == id
removes_voter id (remove_learner i) = false
removes_voter id (add_learner i addr) = false
removes_voter id (add_voter i) = false

abbrev pub removes_learner : ℕ → Proposal → Bool
removes_learner id (remove_voter i) = false
removes_learner id (remove_learner i) = i == id
removes_learner id (add_learner i addr) = false
removes_learner id (add_voter i) = false

abbrev pub adds_learner : ℕ → Proposal → Bool
adds_learner id (remove_voter i) = false
adds_learner id (remove_learner i) = false
adds_learner id (add_learner i addr) = i == id
adds_learner id (add_voter i) = false

abbrev pub adds_voter : ℕ → Proposal → Bool
adds_voter id (remove_voter i) = false
adds_voter id (remove_learner i) = false
adds_voter id (add_learner i addr) = false
adds_voter id (add_voter i) = i == id

-- A listed member with the raft id, that drains or stays.
abbrev pub drains : ℕ → NodeSnapshot → Bool
drains id m = m.draining && raft_node_id m.node_id == id

abbrev pub stays : ℕ → NodeSnapshot → Bool
stays id m = not m.draining && raft_node_id m.node_id == id

abbrev key_is : ℕ → ℕ × String → Bool
key_is id entry = entry.0 == id

module _ (id : ℕ) where
  any-draining_ids :
      (ms : List NodeSnapshot) → any (λ i. i == id) (draining_ids ms) ≡ any (drains id) ms
  unfolding draining_ids any
  any-draining_ids [] = refl
  any-draining_ids (m ∷ ms) = ground (arith, any-draining_ids ms)

  any-insert :
      (m : HashMap ℕ String) (k : ℕ) (v : String)
      → any (key_is id) (HashMap.insert m k v) ≡ (any (key_is id) m || k == id)
  unfolding any HashMap.insert
  any-insert [] k v = ground arith
  any-insert ((j, w) ∷ m) k v = ground (arith, any-insert m k v)

  any-desired_from :
      (m : HashMap ℕ String) (ms : List NodeSnapshot)
      → any (key_is id) (desired_from m ms) ≡ (any (key_is id) m || any (stays id) ms)
  unfolding desired_from any
  any-desired_from m [] = ground arith
  any-desired_from m (n ∷ ms) =
      let key = raft_node_id n.node_id in
      any-desired_from (if not n.draining then HashMap.insert m key n.address else m) ms
      ∙ ground (arith, any-insert m key n.address)

  any-contains : (xs : List ℕ) → any (λ i. i == id) xs ≡ contains xs id
  unfolding any contains
  any-contains [] = refl
  any-contains (x ∷ xs) = ap (λ b. x == id || b) (any-contains xs)

  any-collect : (xs : List ℕ) → any (λ i. i == id) (collect xs) ≡ any (λ i. i == id) xs
  any-collect xs = any-contains (collect xs) ∙ contains-collect xs id ∙ sym (any-contains xs)

  drained : (ms : List NodeSnapshot) → any (λ i. i == id) (draining ms) ≡ any (drains id) ms
  unfolding draining
  drained ms =
      any-sort leb (λ i. i == id) (collect (draining_ids ms))
      ∙ any-collect (draining_ids ms)
      ∙ any-draining_ids ms

  wanted : (ms : List NodeSnapshot) → any (key_is id) (desired ms) ≡ any (stays id) ms
  unfolding desired any
  wanted ms =
      any-sort (λ a b. leb a.0 b.0) (key_is id) (desired_from [] ms) ∙ any-desired_from [] ms

  same_member : (xs : List ℕ) (i : ℕ) → (i == id) ≡ true → contains xs i ≡ contains xs id
  same_member xs i h = ap (contains xs) (beq→eq i id h)

  module _ (in_group voters : List ℕ) where
    removals_voter :
        (ids : List ℕ)
        → any (removes_voter id) (removals in_group voters ids) ≡ (
            any (λ i. i == id) ids
            && (contains in_group id && contains voters id && ltb 3 (length voters)))
    unfolding removals any
    removals_voter [] = refl
    removals_voter (i ∷ ids) =
        ground (arith, removals_voter ids, same_member in_group i, same_member voters i)

    removals_learner :
        (ids : List ℕ)
        → any (removes_learner id) (removals in_group voters ids)
          ≡ (any (λ i. i == id) ids && (contains in_group id && not (contains voters id)))
    unfolding removals any
    removals_learner [] = refl
    removals_learner (i ∷ ids) =
        ground (arith, removals_learner ids, same_member in_group i, same_member voters i)

    admissions_learner :
        (m : HashMap ℕ String)
        → any (adds_learner id) (admissions in_group voters m)
          ≡ (any (key_is id) m && not (contains in_group id))
    unfolding admissions any
    admissions_learner [] = refl
    admissions_learner ((i, addr) ∷ m) =
        ground (arith, admissions_learner m, same_member in_group i, same_member voters i)

    admissions_voter :
        (m : HashMap ℕ String)
        → any (adds_voter id) (admissions in_group voters m)
          ≡ (any (key_is id) m && (contains in_group id && not (contains voters id)))
    unfolding admissions any
    admissions_voter [] = refl
    admissions_voter ((i, addr) ∷ m) =
        ground (arith, admissions_voter m, same_member in_group i, same_member voters i)

    removals_no_learner :
        (ids : List ℕ) → any (adds_learner id) (removals in_group voters ids) ≡ false
    unfolding removals any
    removals_no_learner [] = refl
    removals_no_learner (i ∷ ids) = ground (arith, removals_no_learner ids)

    removals_no_voter : (ids : List ℕ) → any (adds_voter id) (removals in_group voters ids) ≡ false
    unfolding removals any
    removals_no_voter [] = refl
    removals_no_voter (i ∷ ids) = ground (arith, removals_no_voter ids)

    admissions_keep_voter :
        (m : HashMap ℕ String) → any (removes_voter id) (admissions in_group voters m) ≡ false
    unfolding admissions any
    admissions_keep_voter [] = refl
    admissions_keep_voter ((i, addr) ∷ m) = ground (arith, admissions_keep_voter m)

    admissions_keep_learner :
        (m : HashMap ℕ String) → any (removes_learner id) (admissions in_group voters m) ≡ false
    unfolding admissions any
    admissions_keep_learner [] = refl
    admissions_keep_learner ((i, addr) ∷ m) = ground (arith, admissions_keep_learner m)

-- A tick proposes to remove a voter exactly when a listed member with its raft id drains, it is in
-- the group and among the voters, and there were more than three voters as the tick began; to remove
-- a learner exactly when such a member is in the group and no voter; to add a learner exactly when a
-- listed member that does not drain is not in the group; and to make one a voter exactly when it is in
-- the group and no voter.
pub reconcile_lem :
    (in_group voters : List ℕ) (members : List NodeSnapshot) (id : ℕ)
    → let proposals = reconcile in_group voters members in
      (any (removes_voter id) proposals ≡ (
        any (drains id) members
        && (contains in_group id && contains voters id && ltb 3 (length voters))))
      × (any (removes_learner id) proposals
          ≡ (any (drains id) members && (contains in_group id && not (contains voters id))))
      × (any (adds_learner id) proposals ≡ (any (stays id) members && not (contains in_group id)))
      × (any (adds_voter id) proposals
          ≡ (any (stays id) members && (contains in_group id && not (contains voters id))))
unfolding reconcile
reconcile_lem in_group voters members id =
    let gone = removals in_group voters (draining members) in
    let new = admissions in_group voters (desired members) in
    let d = drained id members in
    let w = wanted id members in
    (
      ground (
        arith,
        any-append (removes_voter id) gone new,
        d,
        removals_voter id in_group voters (draining members),
        admissions_keep_voter id in_group voters (desired members),
      ),
      ground (
        arith,
        any-append (removes_learner id) gone new,
        d,
        removals_learner id in_group voters (draining members),
        admissions_keep_learner id in_group voters (desired members),
      ),
      ground (
        arith,
        any-append (adds_learner id) gone new,
        w,
        removals_no_learner id in_group voters (draining members),
        admissions_learner id in_group voters (desired members),
      ),
      ground (
        arith,
        any-append (adds_voter id) gone new,
        w,
        removals_no_voter id in_group voters (draining members),
        admissions_voter id in_group voters (desired members),
      ),
    )
