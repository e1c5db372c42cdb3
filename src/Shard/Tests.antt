-- ===== src/Shard/Tests.antt =====
-- Runs of the shard placement: the published hash of "a", and keys with their owners.
use aether_engine.Prelude.{ℕ, ◌<◌, ◌≡◌, refl, true, List, [], ◌∷◌, arith}
use aether_engine.Shard.{owns, mapped, fnv1a_64}
use aether_engine.Shard.Placement.{mapped_one_owner}

vectors : fnv1a_64 (97 ∷ []) ≡ 0xaf63dc4c8601ec8c
unfolding fnv1a_64
vectors = refl

-- The slots 1 and 0 of two groups.
abbrev two_slots : List ℕ
two_slots = 1 ∷ 0 ∷ []

mapped_one_owner_example :
    (g : ℕ) × (g < 2)
    × (owns (mapped g two_slots) "a1b2c3" ≡ true)
    × ((j : ℕ) → owns (mapped j two_slots) "a1b2c3" ≡ true → j ≡ g)
mapped_one_owner_example =
    mapped_one_owner "a1b2c3" 2 two_slots (omega arith) (omega arith) (omega arith)
