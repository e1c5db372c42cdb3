-- ===== src/Shard/Placement.antt =====
-- Each document has one owner, under either placement scheme.
use native.Mathlib.Nat.{mod-lt, mod-eq_of_lt, le_trans}
use aether_engine.Prelude.Text.{as_bytes}
use aether_engine.Prelude.{
  ℕ, ◌<◌, ◌%◌, ◌^◌, String, ◌≡◌, refl, true, false, List, [], ◌∷◌, length, All, arith, get_elem?,
  some, get_elem?_total, nat_eq, beq_refl, beq→eq, zero, suc, ap, sym, subst, ◌∙◌,
}
use aether_engine.Shard.{shard_for, vshard_for, owns, modulo, mapped, is_group, fnv1a_64}

remainder_small : (x n m : ℕ) → 0 < n → n < m → x % n % m ≡ x % n
remainder_small x n m h k = mod-eq_of_lt (le_trans (mod-lt x h) (omega arith))

pub shard_for-lt : (icao24 : String) (n : ℕ) → 0 < n → n < 2 ^ 32 → shard_for icao24 n < n
unfolding shard_for
shard_for-lt icao24 n h k =
    let r = fnv1a_64 (as_bytes icao24) in
    subst (λ x. x < n) (sym (remainder_small r n (2 ^ 32) h k)) (mod-lt r h)

-- Under `hash % N` placement every key has one owner among the N shards: a shard in range keeps it,
-- and no other index does.
pub modulo_one_owner :
    (icao24 : String) (n : ℕ)
    → 0 < n
    → n < 2 ^ 32
    → (i : ℕ) × (i < n)
      × (owns (modulo (record { index = i; count = n })) icao24 ≡ true)
      × ((j : ℕ) → owns (modulo (record { index = j; count = n })) icao24 ≡ true → j ≡ i)
unfolding owns
modulo_one_owner icao24 n h k = (
  shard_for icao24 n,
  shard_for-lt icao24 n h k,
  beq_refl (shard_for icao24 n),
  λ j e. ground (arith, beq→eq (shard_for icao24 n) j e),
)

pub get_elem?-All :
    (P : ℕ → Type 0) (xs : List ℕ) (i : ℕ) (x : ℕ) → All P xs → get_elem? xs i ≡ some x → P x
get_elem?-All P [] i x a e = cc
get_elem?-All P (y ∷ ys) zero x a e = ground arith
get_elem?-All P (y ∷ ys) (suc i) x a e = get_elem?-All P ys i x a.1 e

-- What the table lookup of a mapped node comes to.
pub mapped_owns_lem :
    (group : ℕ) (table : List ℕ) (icao24 : String)
    → 0 < length table
    → length table < 2 ^ 32
    → owns (mapped group table) icao24
      ≡ is_group (get_elem? table (vshard_for icao24 (length table))) group
unfolding owns
mapped_owns_lem group table icao24 h k = rw (mod-eq_of_lt k) (ground arith)

-- Under virtual-shard placement every key has one owner: with a table that is not empty and names
-- groups below N only, some group below N keeps the key, and no other group does.
pub mapped_one_owner :
    (icao24 : String) (n : ℕ) (table : List ℕ)
    → 0 < length table
    → length table < 2 ^ 32
    → All (λ g. g < n) table
    → (g : ℕ) × (g < n)
      × (owns (mapped g table) icao24 ≡ true)
      × ((j : ℕ) → owns (mapped j table) icao24 ≡ true → j ≡ g)
mapped_one_owner icao24 n table h k groups =
    let v = vshard_for icao24 (length table) in
    let (g, e) = get_elem?_total table v (unfold vshard_for in shard_for-lt icao24 _ h k) in
    (
      g,
      get_elem?-All (λ g. g < n) table v g groups e,
      mapped_owns_lem g table icao24 h k ∙ ap (λ o. is_group o g) e ∙ beq_refl g,
      λ j o. sym (
          beq→eq g j
            (sym (ap (λ o. is_group o j) e) ∙ sym (mapped_owns_lem j table icao24 h k) ∙ o)),
    )

-- Before the first fetch, with an empty table, a mapped node keeps nothing.
pub mapped_empty : (group : ℕ) (icao24 : String) → owns (mapped group []) icao24 ≡ false
unfolding owns
mapped_empty group icao24 = refl
