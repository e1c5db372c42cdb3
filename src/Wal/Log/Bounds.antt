-- ===== src/Wal/Log/Bounds.antt =====
-- A segment's `max_index` bounds the entries that it holds.
use aether_engine.Prelude.{
  ℕ, zero, suc, ◌+◌, ◌≤◌, ◌≡◌, inl, inr, refl, true, List, [], ◌∷◌, ◌++◌, Option, none, some, arith,
  leb, Bool-cases, All, All_last, retain-All,
}
use aether_engine.Wal.State.{WalRecord, entry, truncate_from, purge, committed, checkpoint}
use aether_engine.Wal.Log.{
  Wal, Closed, is_removable, max_with, next_max, write, next_segment, checkpoint_of, append_from,
  append, commit, reclaim, purge_to, append_entries, segment_max_bytes, truncate, save_committed,
}
use aether_engine.Wal.Log.Prefix.{IsBelow}
use aether_engine.Wal.Log.Purge.{Bounds}

module _ {LogId Entry : Type 0} (index : LogId → ℕ) (entry_index : Entry → ℕ)
    (size : WalRecord LogId Entry → ℕ) where
  pub record IsBounded (w : Wal LogId Entry) : Type 0 where
    pub open_segment : Bounds index entry_index w.segment.max_index w.segment.records
    pub closed_segments : All (λ c. Bounds index entry_index c.max_index c.records) w.closed

  smaller :
      (m : Option ℕ) (i limit : ℕ) → leb (max_with m i) limit ≡ true → is_removable m limit ≡ true
  smaller none i limit h = refl
  smaller (some m) i limit h = ground arith

  member : (m : Option ℕ) (i limit : ℕ) → leb (max_with m i) limit ≡ true → i ≤ limit
  member none i limit h = ground arith
  member (some m) i limit h = ground arith

  next_max-Bounds :
      (m : Option ℕ) (rs : List (WalRecord LogId Entry)) (r : WalRecord LogId Entry)
      → Bounds index entry_index m rs
      → Bounds index entry_index (next_max index entry_index size m r) (rs ++ r ∷ [])
  next_max-Bounds m rs (entry e) b limit h =
      All_last (IsBelow index entry_index limit) rs (entry e)
        (b limit (smaller m (entry_index e) limit h)) (member m (entry_index e) limit h)
  next_max-Bounds m rs (truncate_from i) b limit h =
      All_last (IsBelow index entry_index limit) rs (truncate_from i) (b limit h) tt
  next_max-Bounds m rs (purge p) b limit h =
      All_last (IsBelow index entry_index limit) rs (purge p) (b limit h) tt
  next_max-Bounds m rs (committed c) b limit h =
      All_last (IsBelow index entry_index limit) rs (committed c) (b limit h) tt
  next_max-Bounds m rs (checkpoint p c) b limit h =
      All_last (IsBelow index entry_index limit) rs (checkpoint p c) (b limit h) tt

  write-IsBounded :
      (w : Wal LogId Entry) (r : WalRecord LogId Entry)
      → IsBounded w
      → IsBounded (write index entry_index size w r)
  unfolding write
  write-IsBounded w r b = record {
    open_segment = next_max-Bounds w.segment.max_index w.segment.records r b.open_segment;
    closed_segments = b.closed_segments;
  }

  next_segment-IsBounded : (w : Wal LogId Entry) → IsBounded w → IsBounded (next_segment w)
  unfolding next_segment
  next_segment-IsBounded w b = record {
    open_segment = λ limit h. tt;
    closed_segments =
        All_last (λ (c : Closed LogId Entry). Bounds index entry_index c.max_index c.records)
          w.closed _ b.closed_segments b.open_segment;
  }

  append_from-IsBounded :
      (fuel : ℕ) (w : Wal LogId Entry) (r : WalRecord LogId Entry)
      → IsBounded w
      → IsBounded (append_from index entry_index size fuel w r)
  unfolding append_from
  append_from-IsBounded zero w r b = b
  append_from-IsBounded (suc fuel) w r b =
      let b' = write-IsBounded w r b in
      elim (Bool-cases (leb segment_max_bytes (w.segment.bytes + 8 + size r))) [
        | inl full ↦
            rw (full, append_from)
              (append_from-IsBounded fuel (next_segment (write index entry_index size w r))
                (checkpoint_of w.state)
                (next_segment-IsBounded (write index entry_index size w r) b'))
        | inr room ↦ rw (room, append_from) b'
      ]

  commit-IsBounded :
      (w : Wal LogId Entry) (r : WalRecord LogId Entry)
      → IsBounded w
      → IsBounded (commit index entry_index size w r)
  unfolding commit append
  commit-IsBounded w r b =
      let a = append_from-IsBounded 2 w r b in
      record { open_segment = a.open_segment; closed_segments = a.closed_segments }

  append_entries-IsBounded :
      (w : Wal LogId Entry) (es : List Entry)
      → IsBounded w
      → IsBounded (append_entries index entry_index size w es)
  unfolding append_entries
  append_entries-IsBounded w [] b = b
  append_entries-IsBounded w (e ∷ es) b =
      append_entries-IsBounded (commit index entry_index size w (entry e)) es
        (commit-IsBounded w (entry e) b)

  -- No operation lets a segment hold an entry above its `max_index`: so a segment that a purge unlinks
  -- never holds an entry above the purge point.
  pub mutations-IsBounded :
      (w : Wal LogId Entry)
      → IsBounded w
      → ((es : List Entry) → IsBounded (append_entries index entry_index size w es))
        × ((i : ℕ) → IsBounded (truncate index entry_index size w i))
        × ((c : Option LogId) → IsBounded (save_committed index entry_index size w c))
        × ((p : LogId) → IsBounded (purge_to index entry_index size w p))
  unfolding truncate save_committed purge_to reclaim
  mutations-IsBounded w b = (
    λ es. append_entries-IsBounded w es b,
    λ i. commit-IsBounded w (truncate_from i) b,
    λ c. commit-IsBounded w (committed c) b,
    λ p.
        let a = commit-IsBounded w (purge p) b in
        record {
          open_segment = a.open_segment;
          closed_segments =
              retain-All
                (λ (c : Closed LogId Entry). Bounds index entry_index c.max_index c.records) _
                (commit index entry_index size w (purge p)).closed a.closed_segments;
        },
  )
