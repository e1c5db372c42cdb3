-- ===== src/Wal/Log/Stale.antt =====
-- Purging out of order: a truncation that is unlinked before the entries that it voids.
use aether_engine.Prelude.{
  ℕ, ◌+◌, ◌<◌, ◌≡◌, ◌≢◌, refl, ◌∙◌, true, false, List, [], ◌∷◌, ◌++◌, none, some, arith, leb,
  nat_eq, All, All_last,
}
use mathlib.Core.List.{append-nil}
use aether_engine.Prelude.HashMap.{get, get-insert}
use aether_engine.Wal.State.{
  WalRecord, entry, truncate_from, purge, committed, checkpoint, WalState, apply, replay,
  replay-append, get-remove_where,
}
use aether_engine.Wal.State as State
use aether_engine.Wal.Log.{
  Wal, Closed, segment_max_bytes, is_removable, commit, reclaim, write, purge_to, closed_records,
  disk, reopen,
}
use aether_engine.Wal.Log.Purge.{one_append, retain_dead}

module _ {LogId Entry : Type 0} (index : LogId → ℕ) (entry_index : Entry → ℕ) where
  -- The record says nothing of the key.
  abbrev pub Spares : ℕ → WalRecord LogId Entry → Type 0
  Spares k (entry e) = entry_index e ≢ k
  Spares k (truncate_from i) = k < i
  Spares k (purge p) = index p < k
  Spares k (committed c) = Unit
  Spares k (checkpoint p c) = Unit

  apply_spared :
      (k : ℕ) (s : WalState LogId Entry) (r : WalRecord LogId Entry)
      → Spares k r
      → get (apply index entry_index s r).entries k ≡ get s.entries k
  unfolding apply
  apply_spared k s (entry e) h = ground (arith, get-insert s.entries (entry_index e) k e, h)
  apply_spared k s (truncate_from i) h = ground (arith, get-remove_where (λ j. leb i j) s.entries k)
  apply_spared k s (purge p) h = ground (arith, get-remove_where (λ j. leb j (index p)) s.entries k)
  apply_spared k s (committed c) h = refl
  apply_spared k s (checkpoint p c) h = refl

  replay_spared :
      (k : ℕ) (s : WalState LogId Entry) (rs : List (WalRecord LogId Entry))
      → All (Spares k) rs
      → get (replay index entry_index s rs).entries k ≡ get s.entries k
  unfolding replay
  replay_spared k s [] h = refl
  replay_spared k s (r ∷ rs) h =
      replay_spared k (apply index entry_index s r) rs h.1 ∙ apply_spared k s r h.0

module _ {LogId Entry : Type 0} (index : LogId → ℕ) (entry_index : Entry → ℕ)
    (size : WalRecord LogId Entry → ℕ) where
  -- A purge unlinks whatever stands in a removable segment, a truncation included. If the first closed
  -- segment holds an entry above the purge point and stays, all closed segments behind it go, and the
  -- active segment says nothing of the entry's index, then the entry is back when the log is reopened,
  -- also where it was truncated and the state in memory no longer has it.
  pub purge_forgets_truncation :
      (w : Wal LogId Entry) (p : LogId) (k : ℕ) (e : Entry) (c : Closed LogId Entry)
      (dead : List (Closed LogId Entry))
      → w.segment.bytes + 8 + size (purge p) < segment_max_bytes
      → w.closed ≡ c ∷ dead
      → is_removable c.max_index (index p) ≡ false
      → All (λ d. is_removable d.max_index (index p) ≡ true) dead
      → index p < k
      → get (replay index entry_index State.empty c.records).entries k ≡ some e
      → All (Spares index entry_index k) w.segment.records
      → get w.state.entries k ≡ none
      → (get (reopen index entry_index size (purge_to index entry_index size w p)).entries k
          ≡ some e)
        × (get (purge_to index entry_index size w p).state.entries k ≡ none)
  unfolding reopen disk purge_to commit reclaim write apply replay closed_records
  purge_forgets_truncation w p k e c dead room parts kept gone above found spared truncated =
      let back = w.segment.records ++ purge p ∷ [] in
      rw
        (
          one_append index entry_index size w (purge p) room,
          parts,
          retain_dead index entry_index (index p) c dead kept gone,
          append-nil c.records,
          replay-append index entry_index State.empty c.records back,
        )
        (
          replay_spared index entry_index k (replay index entry_index State.empty c.records) back
                (All_last (Spares index entry_index k) w.segment.records (purge p) spared above)
              ∙ found,
          get-remove_where (λ j. leb j (index p)) w.state.entries k ∙ ground arith,
        )
