-- ===== src/Fanout/Running.antt =====
-- fanout.rs, ProgressiveMerge: the merge of the responses one by one.
use aether_engine.Prelude.{
  ℕ, ◌+◌, ◌-◌, ◌%◌, ◌^◌, Bool, List, [], ◌∷◌, ◌++◌, Option, none, some, if◌then◌else◌, nat_eq,
  string_eq, length,
}
use aether_engine.Prelude.Sort.{sort}
use aether_engine.Fanout.{
  Scores, SearchHit, SearchResponse, OmittedShard, QueryManifest, ranks_before, dedup_by_aircraft,
  truncate_to, build_manifest,
}

module _ (scores : Scores) where
  open scores use {Score}

  -- `ProgressiveMerge`, without the clock: the elapsed time is an argument of `snapshot`.
  pub record ProgressiveMerge : Type 0 where
    pub limit : ℕ
    pub hits : List (SearchHit Score)
    pub total_matched : ℕ
    pub shards_answered : ℕ
    pub shards_queried : ℕ
    pub omitted : List OmittedShard
    pub deduped : ℕ
    pub placement_version : ℕ

  pub record SearchUpdate : Type 0 where
    pub hits : List (SearchHit Score)
    pub total_matched : ℕ
    pub shards_answered : ℕ
    pub shards_queried : ℕ
    pub complete : Bool
    pub manifest : Option QueryManifest

  unfoldable pub start : ℕ → ℕ → ℕ → ProgressiveMerge
  start shards_queried limit placement_version = record {
    limit = limit;
    hits = [];
    total_matched = 0;
    shards_answered = 0;
    shards_queried = shards_queried;
    omitted = [];
    deduped = 0;
    placement_version = placement_version;
  }

  unfoldable pub omit : ProgressiveMerge → OmittedShard → ProgressiveMerge
  omit m shard = record m { omitted = m.omitted ++ shard ∷ [] }

  unfoldable pub add : ProgressiveMerge → SearchResponse Score → ProgressiveMerge
  unfolding dedup_by_aircraft truncate_to
  add m resp =
      let extended = m.hits ++ resp.hits in
      let unique = dedup_by_aircraft scores extended in
      record m {
        shards_answered = (m.shards_answered + 1) % 2 ^ 32;
        total_matched = (m.total_matched + resp.total_matched) % 2 ^ 64;
        deduped = (m.deduped + (length extended - length unique) % 2 ^ 32) % 2 ^ 32;
        hits = truncate_to m.limit (sort (ranks_before scores) unique);
      }

  unfoldable pub snapshot : ProgressiveMerge → Bool → ℕ → SearchUpdate
  unfolding build_manifest
  snapshot m complete elapsed_ms = record {
    hits = m.hits;
    total_matched = m.total_matched;
    shards_answered = m.shards_answered;
    shards_queried = m.shards_queried;
    complete = complete;
    manifest =
        if complete
        then some (
            build_manifest m.hits m.shards_queried m.shards_answered m.omitted m.deduped
              m.placement_version elapsed_ms)
        else none;
  }
