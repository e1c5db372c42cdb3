-- ===== src/Wal/Log/Purge.antt =====
-- Purging: which segments may be unlinked without a loss.
use aether_engine.Prelude.{
  ℕ, ◌+◌, ◌<◌, ◌≡◌, refl, sym, ap, ◌∙◌, true, false, not, List, [], ◌∷◌, ◌++◌, Option, arith,
  nat_eq, All, All-append, retain,
}
use mathlib.Core.List.{append_assoc, append-nil}
use aether_engine.Wal.State.{
  WalRecord, entry, truncate_from, purge, committed, checkpoint, WalState, apply, replay,
  replay-append, or_else, get-remove_where,
}
use aether_engine.Wal.State as State
use aether_engine.Wal.Log.{
  Wal, Closed, segment_max_bytes, is_removable, write, append_from, append, commit, reclaim,
  purge_to, closed_records, disk, reopen,
}
use aether_engine.Wal.SameLog.{SameLog-trans, apply-SameLog}
use aether_engine.Wal.Log.Durable.{closed_records-append, Mirrors}
use aether_engine.Wal.Log.Prefix.{IsBelow, Restates, drop_prefix}

-- A segment's greatest index bounds its entries: where the test of `purge` lets it go, no entry of it
-- lies above the limit.
abbrev pub Bounds :
    {LogId Entry : Type 0}
    → (LogId → ℕ)
    → (Entry → ℕ)
    → Option ℕ
    → List (WalRecord LogId Entry)
    → Type 0
Bounds index entry_index m rs =
    (limit : ℕ) → is_removable m limit ≡ true → All (IsBelow index entry_index limit) rs

module _ {LogId Entry : Type 0} (index : LogId → ℕ) (entry_index : Entry → ℕ) where
  retain_live :
      (limit : ℕ) (dead live : List (Closed LogId Entry))
      → All (λ c. is_removable c.max_index limit ≡ true) dead
      → All (λ c. is_removable c.max_index limit ≡ false) live
      → retain (λ (c : Closed LogId Entry). not (is_removable c.max_index limit)) (dead ++ live)
        ≡ live
  unfolding retain
  retain_live limit [] [] d l = refl
  retain_live limit [] (c ∷ cs) d l = rw l.0 (ap (◌∷◌ c) (retain_live limit [] cs tt l.1))
  retain_live limit (c ∷ cs) live d l = rw d.0 (retain_live limit cs live d.1 l)

  pub retain_dead :
      (limit : ℕ) (c : Closed LogId Entry) (dead : List (Closed LogId Entry))
      → is_removable c.max_index limit ≡ false
      → All (λ d. is_removable d.max_index limit ≡ true) dead
      → retain (λ (d : Closed LogId Entry). not (is_removable d.max_index limit)) (c ∷ dead)
        ≡ c ∷ []
  unfolding retain
  retain_dead limit c dead h d = rw h (
      ap (◌∷◌ c) (
        ap (retain (λ (d : Closed LogId Entry). not (is_removable d.max_index limit)))
          (sym (append-nil dead))
        ∙ retain_live limit dead [] d tt))

  dead-IsBelow :
      (limit : ℕ) (dead : List (Closed LogId Entry))
      → All (λ c. is_removable c.max_index limit ≡ true) dead
      → All (λ c. Bounds index entry_index c.max_index c.records) dead
      → All (IsBelow index entry_index limit) (closed_records dead)
  unfolding closed_records
  dead-IsBelow limit [] d b = tt
  dead-IsBelow limit (c ∷ cs) d b =
      All-append (IsBelow index entry_index limit) c.records (closed_records cs) (b.0 limit d.0)
        (dead-IsBelow limit cs d.1 b.1)

module _ {LogId Entry : Type 0} (index : LogId → ℕ) (entry_index : Entry → ℕ)
    (size : WalRecord LogId Entry → ℕ) where
  -- The case in which `purge` is safe: the removable segments stand before the others, and what stays
  -- opens with a checkpoint that restates the pointer.
  pub record IsPrefix (w : Wal LogId Entry) (limit : ℕ) : Type 0 where
    pub dead : List (Closed LogId Entry)
    pub live : List (Closed LogId Entry)
    pub parts : w.closed ≡ dead ++ live
    pub removable : All (λ c. is_removable c.max_index limit ≡ true) dead
    pub kept : All (λ c. is_removable c.max_index limit ≡ false) live
    pub bounded : All (λ c. Bounds index entry_index c.max_index c.records) dead
    pub restates :
        Restates index entry_index (closed_records dead) (closed_records live ++ w.segment.records)

  pub one_append :
      (w : Wal LogId Entry) (r : WalRecord LogId Entry)
      → w.segment.bytes + 8 + size r < segment_max_bytes
      → append index entry_index size w r ≡ write index entry_index size w r
  unfolding append append_from write
  one_append w r room = ground arith

  -- What a purge without a rotation leaves.
  purge_to_lem :
      (w : Wal LogId Entry) (p : LogId)
      → w.segment.bytes + 8 + size (purge p) < segment_max_bytes
      → (x : IsPrefix w (index p))
      → (disk (purge_to index entry_index size w p)
          ≡ (closed_records x.live ++ w.segment.records) ++ purge p ∷ [])
        × ((purge_to index entry_index size w p).state ≡ apply index entry_index w.state (purge p))
  unfolding purge_to commit reclaim disk write
  purge_to_lem w p room x =
      let live = retain_live index entry_index (index p) x.dead x.live x.removable x.kept in
      rw (one_append w (purge p) room, x.parts, live)
        (sym (append_assoc (closed_records x.live) w.segment.records (purge p ∷ [])), refl)

  whole :
      (w : Wal LogId Entry) (limit : ℕ) (x : IsPrefix w limit)
      → disk w ≡ closed_records x.dead ++ (closed_records x.live ++ w.segment.records)
  unfolding disk
  whole w limit x =
      ap (λ cs. closed_records cs ++ w.segment.records) x.parts
      ∙ ap (λ rs. rs ++ w.segment.records)
          (closed_records-append index entry_index size x.dead x.live)
      ∙ append_assoc (closed_records x.dead) (closed_records x.live) w.segment.records

  -- A purge that does not fill the active segment and whose removable segments are a prefix of the log,
  -- behind which a checkpoint restates the committed pointer, unlinks them without a loss: the log
  -- still reopens to the state in memory.
  pub purge-Mirrors :
      (w : Wal LogId Entry) (p : LogId)
      → w.segment.bytes + 8 + size (purge p) < segment_max_bytes
      → IsPrefix w (index p)
      → Mirrors index entry_index size w
      → Mirrors index entry_index size (purge_to index entry_index size w p)
  unfolding reopen apply replay
  purge-Mirrors w p room x m =
      let (left, folded) = purge_to_lem w p room x in
      let dead = closed_records x.dead in
      let rest = closed_records x.live ++ w.segment.records in
      rw (left, folded)
        (SameLog-trans
          (drop_prefix index entry_index p dead rest
            (dead-IsBelow index entry_index (index p) x.dead x.removable x.bounded) x.restates)
          (rw
            (
              ← whole w (index p) x,
              replay-append index entry_index State.empty (disk w) (purge p ∷ []),
            )
            (apply-SameLog index entry_index _ w.state (purge p) m)))
