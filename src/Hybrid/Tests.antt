-- ===== src/Hybrid/Tests.antt =====
-- A run of the fusion: b stands in both rankings and comes first.
use aether_engine.Prelude.{ℕ, ◌+◌, ◌/◌, ◌≡◌, refl, String, [], ◌∷◌, map, none, some, ltb}
use aether_engine.Prelude.HashMap
use aether_engine.Prelude.Sort.{sort}
use aether_engine.Fanout.{SearchHit, icao24_of}
use aether_engine.Hybrid.{Fractions, fused_before, rrf_fuse}
use aether_engine.Hybrid.Ranks.{IsFused, rrf_fuse-IsFused}

-- Scores in millionths.
abbrev millionths : Fractions
millionths = record {
  Score = ℕ;
  reciprocal = λ n. 1000000 / n;
  add = λ x y. x + y;
  exceeds = λ x y. ltb y x;
}

abbrev hit : String → SearchHit ℕ
hit icao24 = record {
  document = some (record { icao24 = icao24; observed_at = 0 });
  score = 0;
  provenance = none;
}

rrf_fuse-IsFused_example :
    IsFused millionths
      (hit "a" ∷ hit "b" ∷ [])
      (hit "b" ∷ hit "d" ∷ [])
      (rrf_fuse millionths (hit "a" ∷ hit "b" ∷ []) (hit "b" ∷ hit "d" ∷ []) 2)
      2
rrf_fuse-IsFused_example =
    rrf_fuse-IsFused millionths (hit "a" ∷ hit "b" ∷ []) (hit "b" ∷ hit "d" ∷ []) 2
      (λ i. refl, (λ i. refl, tt)) (λ i. refl, (λ i. refl, tt))

agreement_first :
    map icao24_of (rrf_fuse millionths (hit "a" ∷ hit "b" ∷ []) (hit "b" ∷ hit "d" ∷ []) 2)
    ≡ "b" ∷ "a" ∷ []
unfolding rrf_fuse HashMap.get HashMap.insert sort fused_before
agreement_first = refl
