-- ===== src/Fanout.antt =====
-- crates/coordinator/src/fanout.rs: the merge of the shards' responses, at once or one by one, and the
-- manifest that accounts for it. The messages keep the fields that the merge reads; a score is a
-- parameter with the comparison of `f64` on it, and observation times, which are `i64`, are taken as
-- natural numbers.

pub mod Running
pub mod Best
pub mod Dedup
pub mod Ranking
pub mod Progressive
pub mod Envelope
pub mod Tests
use aether_engine.Prelude.{
  ℕ, ◌+◌, ◌-◌, ◌%◌, ◌^◌, ◌≡◌, ◌⊎◌, String, Bool, true, false, not, ◌&&◌, ◌||◌, List, [], ◌∷◌, ◌++◌,
  map, Option, none, some, if◌then◌else◌, unwrap_or, nat_eq, string_eq, ◌==◌, ltb, leb, length,
  take, retain,
}
use aether_engine.Prelude.HashMap
use aether_engine.Prelude.HashMap.{HashMap}
use aether_engine.Prelude.Sort.{sort}
use aether_engine.Registry.State.{string_le}

-- Scores, and that one exceeds another: `f64` and its `>`, where no score is NaN.
pub record Scores : Type 1 where
  pub Score : Type 0
  pub exceeds : Score → Score → Bool
  pub exceeds_irrefl : (a : Score) → exceeds a a ≡ false
  pub exceeds_trans : (a b c : Score) → exceeds a b ≡ true → exceeds b c ≡ true → exceeds a c ≡ true
  pub exceeds_split :
      (a b c : Score) → exceeds a c ≡ true → (exceeds a b ≡ true) ⊎ (exceeds b c ≡ true)

pub record FlightDocument : Type 0 where
  pub icao24 : String
  pub observed_at : ℕ

pub record OmittedShard : Type 0 where
  pub address : String
  pub reason : String

pub record QueryManifest : Type 0 where
  pub shards_queried : ℕ
  pub shards_answered : ℕ
  pub omitted : List OmittedShard
  pub deduped : ℕ
  pub freshest_observed_at : ℕ
  pub stalest_observed_at : ℕ
  pub elapsed_ms : ℕ
  pub placement_version : ℕ

-- Of the provenance, the observation time.
pub record SearchHit (Score : Type 0) : Type 0 where
  pub document : Option FlightDocument
  pub score : Score
  pub provenance : Option ℕ

pub record SearchResponse (Score : Type 0) : Type 0 where
  pub hits : List (SearchHit Score)
  pub total_matched : ℕ
  pub shard_id : String
  pub shards_queried : ℕ
  pub shards_answered : ℕ
  pub manifest : Option QueryManifest

-- `Fanout`.
pub record Answers (Score : Type 0) : Type 0 where
  pub responses : List (SearchResponse Score)
  pub omitted : List OmittedShard

abbrev pub icao24_of : {Score : Type 0} → SearchHit Score → String
icao24_of hit = elim hit.document [ none ↦ "" | some d ↦ d.icao24 ]

abbrev pub observed_at_of : {Score : Type 0} → SearchHit Score → ℕ
observed_at_of hit = elim hit.document [ none ↦ 0 | some d ↦ d.observed_at ]

-- `filter_map(..).filter(|&t| t > 0)`.
unfoldable pub observed : {Score : Type 0} → List (SearchHit Score) → List ℕ
observed [] = []
observed (h ∷ hs) = elim h.provenance [
  | none ↦ observed hs
  | some t ↦ if ltb 0 t then t ∷ observed hs else observed hs
]

-- `max().unwrap_or(0)` and `min().unwrap_or(0)`.
unfoldable pub max_or_zero : List ℕ → ℕ
max_or_zero [] = 0
max_or_zero (t ∷ ts) = let m = max_or_zero ts in if leb t m then m else t

unfoldable pub min_or_zero : List ℕ → ℕ
min_or_zero [] = 0
min_or_zero (t ∷ []) = t
min_or_zero (t ∷ u ∷ ts) = let m = min_or_zero (u ∷ ts) in if leb t m then t else m

unfoldable pub build_manifest :
    {Score : Type 0}
    → List (SearchHit Score)
    → ℕ
    → ℕ
    → List OmittedShard
    → ℕ
    → ℕ
    → ℕ
    → QueryManifest
unfolding observed max_or_zero min_or_zero
build_manifest hits shards_queried shards_answered omitted deduped placement_version elapsed_ms =
    let times = observed hits in
    record {
      shards_queried = shards_queried;
      shards_answered = shards_answered;
      omitted = omitted;
      deduped = deduped;
      freshest_observed_at = max_or_zero times;
      stalest_observed_at = min_or_zero times;
      elapsed_ms = elapsed_ms;
      placement_version = placement_version;
    }

-- `limit != 0 && hits.len() > limit`.
unfoldable pub truncate_to {ℓ} : {A : Type ℓ} → ℕ → List A → List A
truncate_to limit hits =
    if not (limit == 0) && ltb limit (length hits) then take limit hits else hits

-- The first loop of `merge_search_responses`.
unfoldable pub gather : {Score : Type 0} → List (SearchResponse Score) → List (SearchHit Score) × ℕ
gather [] = ([], 0)
gather (r ∷ rs) =
    let (hits, total) = gather rs in (r.hits ++ hits, (r.total_matched + total) % 2 ^ 64)

module _ (scores : Scores) where
  open scores use {Score, exceeds}

  -- `cmp_hits(a, b)` is not `Greater`: `partial_cmp` of the scores, then the keys.
  unfoldable pub ranks_before : SearchHit Score → SearchHit Score → Bool
  ranks_before a b =
      if exceeds a.score b.score
      then true
      else if exceeds b.score a.score
      then false
      else string_le (icao24_of a) (icao24_of b)

  unfoldable pub supersedes : SearchHit Score → SearchHit Score → Bool
  supersedes a b =
      ltb (observed_at_of b) (observed_at_of a)
      || (observed_at_of a == observed_at_of b && exceeds a.score b.score)

  -- One round of the loop of `dedup_by_aircraft`.
  unfoldable pub keep :
      HashMap String (SearchHit Score) → SearchHit Score → HashMap String (SearchHit Score)
  unfolding supersedes
  keep best hit = elim (HashMap.get best (icao24_of hit)) [
    | none ↦ HashMap.insert best (icao24_of hit) hit
    | some existing ↦
        if supersedes hit existing then HashMap.insert best (icao24_of hit) hit else best
  ]

  unfoldable pub keep_all :
      HashMap String (SearchHit Score) → List (SearchHit Score) → HashMap String (SearchHit Score)
  unfolding keep
  keep_all best [] = best
  keep_all best (h ∷ hs) = keep_all (keep best h) hs

  -- `into_values` in the order of the map's list; the callers sort.
  unfoldable pub dedup_by_aircraft : List (SearchHit Score) → List (SearchHit Score)
  unfolding keep_all
  dedup_by_aircraft hits = map (λ entry. entry.1) (keep_all [] hits)

  abbrev pub ranked : List (SearchHit Score) → List (SearchHit Score)
  ranked hits = sort ranks_before (dedup_by_aircraft hits)

  unfoldable pub merge_search_responses : Answers Score → ℕ → ℕ → ℕ → ℕ → SearchResponse Score
  unfolding gather dedup_by_aircraft truncate_to build_manifest
  merge_search_responses fanout limit shards_queried placement_version elapsed_ms =
      let shards_answered = length fanout.responses % 2 ^ 32 in
      let (all_hits, total_matched) = gather fanout.responses in
      let unique = dedup_by_aircraft all_hits in
      let deduped = (length all_hits - length unique) % 2 ^ 32 in
      let hits = truncate_to limit (sort ranks_before unique) in
      record {
        hits = hits;
        total_matched = total_matched;
        shard_id = "coordinator";
        shards_queried = shards_queried;
        shards_answered = shards_answered;
        manifest = some (
            build_manifest hits shards_queried shards_answered fanout.omitted deduped
              placement_version elapsed_ms);
      }
