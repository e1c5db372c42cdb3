-- ===== src/Registry/Staffing.antt =====
-- `all_shards_have_leader` counts the entries of a map: why the count is enough.
use native.Mathlib.Nat.{mod-eq_of_lt}
use aether_engine.Prelude.{
  ℕ, zero, suc, ◌%◌, ◌^◌, ◌≤◌, ◌<◌, ◌≡◌, ◌↔◌, refl, sym, subst, ap, true, none, [], ◌∷◌, inl, inr,
  arith, nat_eq, Bool-cases, Option-cases, ◌==◌, length, beq→eq, is_some,
}
use aether_engine.Prelude.HashMap
use aether_engine.Prelude.HashMap.{
  HashMap, get, contains_key, Distinct, AllEntries, get-remove, length-remove, remove-Distinct,
}
use aether_engine.Registry.State.{Registry, NodeInfo}
use aether_engine.Registry.Members.{all_shards_have_leader}
use aether_engine.Registry.Invariant.{LeaderEntry, IsValid}

module _ {V : Type 0} where
  abbrev KeysBelow : ℕ → HashMap ℕ V → Type 0
  KeysBelow n = AllEntries (λ k v. k < n)

  -- Without the greatest key the others lie below it.
  remove-KeysBelow :
      (n : ℕ) (m : HashMap ℕ V) → KeysBelow (suc n) m → KeysBelow n (HashMap.remove m n)
  unfolding HashMap.remove
  remove-KeysBelow n [] a = tt
  remove-KeysBelow n ((k, v) ∷ m) a = ground (arith, remove-KeysBelow n m a.1)

  KeysBelow-zero : (m : HashMap ℕ V) → KeysBelow 0 m → length m ≡ 0
  KeysBelow-zero [] a = refl
  KeysBelow-zero ((k, v) ∷ m) a = absurd (omega arith)

  length_le : (n : ℕ) (m : HashMap ℕ V) → Distinct m → KeysBelow n m → length m ≤ n
  length_le zero m d a = omega (arith, KeysBelow-zero m a)
  length_le (suc n) m d a = ground (
    arith,
    length_le n (HashMap.remove m n) (remove-Distinct m n d) (remove-KeysBelow n m a),
    length-remove m n d,
  )

  -- A missing key leaves room.
  length_lt :
      (n : ℕ) (m : HashMap ℕ V) (k : ℕ)
      → Distinct m
      → KeysBelow n m
      → k < n
      → get m k ≡ none
      → length m < n
  length_lt zero m k d a h e = absurd (omega arith)
  length_lt (suc n) m k d a h e = elim (Bool-cases (n == k)) [
    | inl same ↦
        let missing : get m n ≡ none = subst (λ i. get m i ≡ none) (sym (beq→eq n k same)) e in
        ground (
          arith,
          length_le n (HashMap.remove m n) (remove-Distinct m n d) (remove-KeysBelow n m a),
          length-remove m n d,
        )
    | inr other ↦ ground (
      arith,
      length_lt n (HashMap.remove m n) k (remove-Distinct m n d) (remove-KeysBelow n m a),
      get-remove m n k,
      length-remove m n d,
    )
  ]

  -- All keys there, as many entries.
  length_ge :
      (n : ℕ) (m : HashMap ℕ V)
      → Distinct m
      → ((k : ℕ) → k < n → contains_key m k ≡ true)
      → n ≤ length m
  length_ge zero m d full = omega arith
  length_ge (suc n) m d full = ground (
    arith,
    length_ge n (HashMap.remove m n) (remove-Distinct m n d)
        (λ k h. ground (arith, get-remove m n k, full k)),
    length-remove m n d,
    full n,
  )

leaders-KeysBelow : (n : ℕ) (m : HashMap ℕ NodeInfo) → AllEntries (LeaderEntry n) m → KeysBelow n m
leaders-KeysBelow n [] a = tt
leaders-KeysBelow n ((k, v) ∷ m) a = (a.0.0, leaders-KeysBelow n m a.1)

-- In a well-formed registry of fewer than 2^32 shards the count of leaders is N exactly when every
-- shard below N has a leader.
pub all_shards_have_leader_iff :
    (r : Registry)
    → IsValid r
    → r.shard_count < 2 ^ 32
    → (all_shards_have_leader r ≡ true)
      ↔ ((s : ℕ) → s < r.shard_count → contains_key r.leaders s ≡ true)
unfolding all_shards_have_leader
all_shards_have_leader_iff r v k =
    let below = leaders-KeysBelow r.shard_count r.leaders v.leaders_in_range in
    let most : length r.leaders ≤ r.shard_count =
      length_le r.shard_count r.leaders v.leaders_distinct below in
    let plain : length r.leaders % 2 ^ 32 ≡ length r.leaders = mod-eq_of_lt (omega arith) in
    (
      λ full s h. elim (Option-cases (get r.leaders s)) [
        | inl e ↦
            absurd
              (ground (arith, length_lt r.shard_count r.leaders s v.leaders_distinct below h e))
        | inr (n, e) ↦ ap is_some e
      ],
      λ full. ground (arith, length_ge r.shard_count r.leaders v.leaders_distinct full),
    )
