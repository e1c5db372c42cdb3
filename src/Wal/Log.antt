-- ===== src/Wal/Log.antt =====
-- wal.rs: the log's segments, and the operations that append to them. The content of a segment's file
-- is held with it, as the records that its frames hold. The length of a serialized record is a
-- parameter.

pub mod Durable
pub mod Prefix
pub mod Purge
pub mod Stale
pub mod Bounds
pub mod Tests
use aether_engine.Prelude.{
  ℕ, zero, suc, ◌+◌, ◌*◌, List, [], ◌∷◌, ◌++◌, Bool, true, Option, none, some, if◌then◌else◌, leb,
  not, retain,
}
use aether_engine.Wal.State.{
  WalRecord, entry, truncate_from, purge, committed, checkpoint, WalState, replay,
}
use aether_engine.Wal.State as State

abbrev pub segment_max_bytes : ℕ
segment_max_bytes = 8 * 1024 * 1024

-- `self.closed` holds a path, and the path's file holds the records.
pub record Closed (LogId Entry : Type 0) : Type 0 where
  pub seq : ℕ
  pub records : List (WalRecord LogId Entry)
  pub max_index : Option ℕ

pub record Segment (LogId Entry : Type 0) : Type 0 where
  pub seq : ℕ
  pub records : List (WalRecord LogId Entry)
  pub bytes : ℕ
  pub max_index : Option ℕ

pub record Wal (LogId Entry : Type 0) : Type 0 where
  pub segment : Segment LogId Entry
  pub closed : List (Closed LogId Entry)
  pub state : WalState LogId Entry

-- `map_or(i, |m| m.max(i))`.
abbrev pub max_with : Option ℕ → ℕ → ℕ
max_with none i = i
max_with (some m) i = if leb m i then i else m

-- The test of `retain` in `purge`.
abbrev pub is_removable : Option ℕ → ℕ → Bool
is_removable none limit = true
is_removable (some m) limit = leb m limit

module _ {LogId Entry : Type 0} where
  -- `rotate` up to the checkpoint that it appends.
  unfoldable pub next_segment : Wal LogId Entry → Wal LogId Entry
  next_segment w = record w {
    segment = record { seq = w.segment.seq + 1; records = []; bytes = 0; max_index = none };
    closed =
        w.closed
        ++ record {
          seq = w.segment.seq;
          records = w.segment.records;
          max_index = w.segment.max_index;
        }
          ∷ [];
  }

  abbrev pub checkpoint_of : WalState LogId Entry → WalRecord LogId Entry
  checkpoint_of s = checkpoint s.last_purged s.committed

  -- The end of `purge`: closed segments without an entry above the purge point are unlinked.
  unfoldable pub reclaim : Wal LogId Entry → ℕ → Wal LogId Entry
  reclaim w limit = record w {
    closed = retain (λ (c : Closed LogId Entry). not (is_removable c.max_index limit)) w.closed;
  }

  -- What is on the disk, in the order in which it is replayed.
  unfoldable pub closed_records : List (Closed LogId Entry) → List (WalRecord LogId Entry)
  closed_records [] = []
  closed_records (c ∷ cs) = c.records ++ closed_records cs

  unfoldable pub disk : Wal LogId Entry → List (WalRecord LogId Entry)
  unfolding closed_records
  disk w = closed_records w.closed ++ w.segment.records

module _ {LogId Entry : Type 0} (index : LogId → ℕ) (entry_index : Entry → ℕ)
    (size : WalRecord LogId Entry → ℕ) where
  abbrev pub next_max : Option ℕ → WalRecord LogId Entry → Option ℕ
  next_max m (entry e) = some (max_with m (entry_index e))
  next_max m (truncate_from i) = m
  next_max m (purge p) = m
  next_max m (committed c) = m
  next_max m (checkpoint p c) = m

  -- `append` up to the test of the size.
  unfoldable pub write : Wal LogId Entry → WalRecord LogId Entry → Wal LogId Entry
  write w r = record w {
    segment = record w.segment {
      records = w.segment.records ++ r ∷ [];
      bytes = w.segment.bytes + 8 + size r;
      max_index = next_max w.segment.max_index r;
    };
  }

  -- `append` and `rotate`, which call each other. The fuel is the number of calls of `append`; the
  -- checkpoint at the head of a segment does not fill it, so that two are made at most.
  unfoldable pub append_from : ℕ → Wal LogId Entry → WalRecord LogId Entry → Wal LogId Entry
  unfolding write next_segment
  append_from zero w r = w
  append_from (suc fuel) w r =
      let w' = write w r in
      let rotated = append_from fuel (next_segment w') (checkpoint_of w.state) in
      if leb segment_max_bytes w'.segment.bytes then rotated else w'

  unfoldable pub append : Wal LogId Entry → WalRecord LogId Entry → Wal LogId Entry
  unfolding append_from
  append w r = append_from 2 w r

  -- The body that the mutations share: append, then fold into the state. `sync` orders the writes
  -- before the return, and changes nothing that the model holds.
  unfoldable pub commit : Wal LogId Entry → WalRecord LogId Entry → Wal LogId Entry
  unfolding append
  commit w r = let w' = append w r in record w' { state = State.apply index entry_index w'.state r }

  unfoldable pub append_entries : Wal LogId Entry → List Entry → Wal LogId Entry
  unfolding commit
  append_entries w [] = w
  append_entries w (e ∷ es) = append_entries (commit w (entry e)) es

  unfoldable pub truncate : Wal LogId Entry → ℕ → Wal LogId Entry
  unfolding commit
  truncate w i = commit w (truncate_from i)

  unfoldable pub save_committed : Wal LogId Entry → Option LogId → Wal LogId Entry
  unfolding commit
  save_committed w c = commit w (committed c)

  unfoldable pub purge_to : Wal LogId Entry → LogId → Wal LogId Entry
  unfolding commit reclaim
  purge_to w p = reclaim (commit w (purge p)) (index p)

  -- The state that `open` folds the disk to.
  unfoldable pub reopen : Wal LogId Entry → WalState LogId Entry
  unfolding disk
  reopen w = replay index entry_index State.empty (disk w)
