-- ===== src/Registry/Placement.antt =====
-- `reassign_vshard` and `validate_reassign`, and what a reassignment does to the owner of a key.
use aether_engine.Prelude.{
  is_empty, ℕ, ◌+◌, ◌%◌, ◌^◌, ◌<◌, ◌≡◌, ◌≢◌, ◌↔◌, refl, sym, subst, ap, ◌∙◌, String, false, List,
  [], ◌∷◌, if◌then◌else◌, arith, nat_eq, ◌==◌, length, set, get_elem?, length-set,
  get_elem?-set_self, get_elem?-set_ne,
}
use aether_engine.Prelude.Result.{ok}
use aether_engine.Registry.State.{Registry, reassign_vshard, validate_reassign}
use aether_engine.Shard.{vshard_for, owns, mapped, is_group}
use aether_engine.Shard.Placement.{mapped_owns_lem}

-- The check that a coordinator makes before it proposes a reassignment gives the verdict, error for
-- error, that applying it gives.
pub validate_agrees :
    (r : Registry) (vshard group : ℕ)
    → validate_reassign r vshard group ≡ (reassign_vshard r vshard group).1
unfolding validate_reassign reassign_vshard
validate_agrees r vshard group = ground arith

is_empty-false : {A : Type 0} (xs : List A) (i : ℕ) → i < length xs → is_empty xs ≡ false
is_empty-false [] i h = elim h [ ]
is_empty-false (x ∷ xs) i h = refl

-- The call succeeds exactly when the virtual shard is in the table and the group is below N; then it
-- writes that one slot and raises the version. A refused call changes nothing.
pub reassign_vshard_lem :
    (r : Registry) (vshard group : ℕ)
    → (((reassign_vshard r vshard group).1 ≡ ok tt)
        ↔ ((vshard < length r.vshards) × (group < r.shard_count)))
      × ((reassign_vshard r vshard group).1 ≡ ok tt
          → (reassign_vshard r vshard group).0 ≡ record r {
            vshards = set r.vshards vshard group;
            placement_version = (r.placement_version + 1) % 2 ^ 64;
          })
      × ((reassign_vshard r vshard group).1 ≢ ok tt → (reassign_vshard r vshard group).0 ≡ r)
unfolding reassign_vshard
reassign_vshard_lem r vshard group = (
  (λ e. ground arith, λ h. ground (arith, is_empty-false r.vshards vshard h.0)),
  λ e. ground arith,
  λ n. ground arith,
)

owns-set :
    (table : List ℕ) (vshard group j : ℕ) (icao24 : String)
    → vshard < length table
    → length table < 2 ^ 32
    → owns (mapped j (set table vshard group)) icao24 ≡ (
        if vshard_for icao24 (length table) == vshard
        then group == j
        else owns (mapped j table) icao24)
owns-set table vshard group j icao24 h k =
    let same = length-set table vshard group in
    rw
      (
        mapped_owns_lem j (set table vshard group) icao24 (omega arith)
            (subst (λ n. n < 2 ^ 32) (sym same) k),
        mapped_owns_lem j table icao24 (omega arith) k,
        same,
      )
      (slot (vshard_for icao24 (length table)))
  where
    slot :
        (v : ℕ)
        → is_group (get_elem? (set table vshard group) v) j
          ≡ (if v == vshard then group == j else is_group (get_elem? table v) j)
    slot v =
        ground
          (arith, get_elem?-set_self table vshard group h, get_elem?-set_ne table vshard v group)

-- Moving a virtual shard moves the keys that hash to it, to its new group, and no other key: every
-- other key keeps its owner.
pub owns-reassign :
    (r : Registry) (vshard group j : ℕ) (icao24 : String)
    → length r.vshards < 2 ^ 32
    → (reassign_vshard r vshard group).1 ≡ ok tt
    → owns (mapped j (reassign_vshard r vshard group).0.vshards) icao24 ≡ (
        if vshard_for icao24 (length r.vshards) == vshard
        then group == j
        else owns (mapped j r.vshards) icao24)
owns-reassign r vshard group j icao24 k e =
    let (success, moved, refused) = reassign_vshard_lem r vshard group in
    ap (λ s. owns (mapped j s.vshards) icao24) (moved e)
    ∙ owns-set r.vshards vshard group j icao24 (success.0 e).0 k
