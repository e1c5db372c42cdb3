-- ===== src/Hybrid.antt =====
-- crates/coordinator/src/hybrid.rs: reciprocal rank fusion of a keyword and a vector ranking.
pub mod Ranks
pub mod Tests
use aether_engine.Prelude.{
  ℕ, ◌+◌, String, Bool, true, false, not, ◌&&◌, List, [], ◌∷◌, map, Option, none, some,
  if◌then◌else◌, nat_eq, string_eq, ◌==◌, ltb, length, take,
}
use aether_engine.Prelude.HashMap
use aether_engine.Prelude.HashMap.{HashMap}
use aether_engine.Prelude.Sort.{sort}
use aether_engine.Registry.State.{string_le}
use aether_engine.Fanout.{SearchHit, icao24_of}

-- `f64`: the reciprocal of a whole number, sums and comparisons.
pub record Fractions : Type 1 where
  pub Score : Type 0
  pub reciprocal : ℕ → Score
  pub add : Score → Score → Score
  pub exceeds : Score → Score → Bool

abbrev pub rrf_k : ℕ
rrf_k = 60

module _ (fractions : Fractions) where
  open fractions use {Score, reciprocal, add, exceeds}

  abbrev pub Fused : Type 0
  Fused = HashMap String (Score × SearchHit Score)

  -- What the hit at index `i` of a ranking adds to a score.
  abbrev pub contribution : ℕ → Score
  contribution i = reciprocal (rrf_k + (i + 1))

  -- One round of the loop of `fold`, for a hit with a key.
  unfoldable pub fuse_hit : Bool → Fused → ℕ → SearchHit Score → Fused
  fuse_hit prefer fused i hit = elim (HashMap.get fused (icao24_of hit)) [
    | none ↦ HashMap.insert fused (icao24_of hit) (contribution i, hit)
    | some (score, existing) ↦
        HashMap.insert fused (icao24_of hit)
          (add score (contribution i), if prefer then hit else existing)
  ]

  -- The closure `fold`, from index `i` on.
  unfoldable pub fuse_list : Bool → Fused → ℕ → List (SearchHit Score) → Fused
  unfolding fuse_hit
  fuse_list prefer fused i [] = fused
  fuse_list prefer fused i (hit ∷ hits) =
      fuse_list prefer (if icao24_of hit == "" then fused else fuse_hit prefer fused i hit) (i + 1)
        hits

  -- The comparison of `sort_by` is not `Greater`.
  unfoldable pub fused_before : SearchHit Score → SearchHit Score → Bool
  fused_before x y =
      if exceeds x.score y.score
      then true
      else if exceeds y.score x.score
      then false
      else string_le (icao24_of x) (icao24_of y)

  unfoldable pub fuse_both : List (SearchHit Score) → List (SearchHit Score) → Fused
  unfolding fuse_list
  fuse_both keyword vector = fuse_list false (fuse_list true [] 0 keyword) 0 vector

  abbrev pub rescored : String × (Score × SearchHit Score) → SearchHit Score
  rescored entry = record entry.1.1 { score = entry.1.0 }

  abbrev pub cut_to : ℕ → List (SearchHit Score) → List (SearchHit Score)
  cut_to limit out = if not (limit == 0) && ltb limit (length out) then take limit out else out

  unfoldable pub rrf_fuse :
      List (SearchHit Score) → List (SearchHit Score) → ℕ → List (SearchHit Score)
  unfolding fuse_both
  rrf_fuse keyword vector limit =
      cut_to limit (sort fused_before (map rescored (fuse_both keyword vector)))
