-- ===== src/Fanout/Tests.antt =====
-- Runs of the merge, with numbers for scores.
use aether_engine.Prelude.{
  false, ℕ, ◌≤◌, ◌<◌, ◌≡◌, ◌⊎◌, inl, inr, refl, true, List, [], ◌∷◌, none, some, ltb, arith, length,
  ◌^◌, String,
}
use aether_engine.Prelude.Sort.{sort}
use aether_engine.Prelude.HashMap.{get, insert}
use aether_engine.Fanout.{
  ranks_before, Scores, SearchHit, SearchResponse, Answers, gather, merge_search_responses,
  build_manifest,
}
use aether_engine.Fanout.Running.{start}
use aether_engine.Fanout.Ranking.{IsMerged, merge_search_responses-IsMerged}
use aether_engine.Fanout.Progressive.{IsRunning, add_all, progressive-IsRunning}
use aether_engine.Fanout.Envelope.{IsTime, build_manifest-envelope}

pub gt_irrefl : (a : ℕ) → ltb a a ≡ false
gt_irrefl a = ground arith

pub gt_trans : (a b c : ℕ) → ltb b a ≡ true → ltb c b ≡ true → ltb c a ≡ true
gt_trans a b c h k = ground arith

pub gt_split : (a b c : ℕ) → ltb c a ≡ true → (ltb b a ≡ true) ⊎ (ltb c b ≡ true)
gt_split a b c h = ground arith

abbrev numbers : Scores
numbers = record {
  Score = ℕ;
  exceeds = λ a b. ltb b a;
  exceeds_irrefl = gt_irrefl;
  exceeds_trans = gt_trans;
  exceeds_split = gt_split;
}

abbrev hit : String → ℕ → ℕ → SearchHit ℕ
hit key time score = record {
  document = some (record { icao24 = key; observed_at = time });
  score = score;
  provenance = some time;
}

abbrev answer : List (SearchHit ℕ) → SearchResponse ℕ
answer hits = record {
  hits = hits;
  total_matched = length hits;
  shard_id = "shard";
  shards_queried = 0;
  shards_answered = 0;
  manifest = none;
}

-- Aircraft a scores best on the first shard, and has moved on, with a lower score, on the second.
abbrev answers : List (SearchResponse ℕ)
answers = answer (hit "a" 1 9 ∷ hit "b" 1 5 ∷ []) ∷ answer (hit "a" 2 1 ∷ []) ∷ []

abbrev fanout : Answers ℕ
fanout = record {
  responses = answers;
  omitted = record { address = "host:3"; reason = "timeout" } ∷ [];
}

merge_search_responses-IsMerged_example :
    IsMerged numbers (gather answers).0 1 (merge_search_responses numbers fanout 1 3 7 20).hits
merge_search_responses-IsMerged_example = merge_search_responses-IsMerged numbers fanout 1 3 7 20

progressive-IsRunning_example :
    IsRunning numbers (gather answers).0 (add_all numbers (start numbers 3 1 7) answers)
progressive-IsRunning_example = progressive-IsRunning numbers 3 1 7 answers

few : length (gather answers).0 < 2 ^ 32
unfolding gather
few = omega arith

build_manifest-envelope_example :
    let q = build_manifest (hit "a" 1 9 ∷ hit "b" 4 5 ∷ []) 3 2 [] 0 7 20 in
    (q.stalest_observed_at ≤ 4)
    × (4 ≤ q.freshest_observed_at)
    × IsTime (hit "a" 1 9 ∷ hit "b" 4 5 ∷ []) q.stalest_observed_at
    × IsTime (hit "a" 1 9 ∷ hit "b" 4 5 ∷ []) q.freshest_observed_at
build_manifest-envelope_example =
    build_manifest-envelope (hit "a" 1 9 ∷ hit "b" 4 5 ∷ []) 3 2 [] 0 7 20 (hit "b" 4 5) 4
      (inr (inl refl)) (refl, omega arith)

-- With a limit of 1 the progressive merge has dropped aircraft b by the time that a's fresher hit comes
-- in and falls behind it: the two merges of the same responses differ.
batch_keeps_b : (merge_search_responses numbers fanout 1 3 7 20).hits ≡ hit "b" 1 5 ∷ []
unfolding merge_search_responses sort get insert ranks_before
batch_keeps_b = refl

progressive_keeps_a : (add_all numbers (start numbers 3 1 7) answers).hits ≡ hit "a" 2 1 ∷ []
unfolding add_all start sort get insert ranks_before
progressive_keeps_a = refl
