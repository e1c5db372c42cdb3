-- ===== src/Wal/Log/Durable.antt =====
-- What the log acknowledges is on the disk: reopening it gives back the state in memory.
use aether_engine.Prelude.{
  ℕ, suc, ◌+◌, ◌<◌, ◌≡◌, ◌⊎◌, inl, inr, refl, sym, ap, ◌∙◌, subst, List, [], ◌∷◌, ◌++◌, Option,
  none, some, if◌then◌else◌, arith, leb, nat_eq, Bool-cases,
}
use mathlib.Core.List.{append_assoc, append-nil}
use aether_engine.Wal.State.{
  WalRecord, entry, truncate_from, purge, committed, checkpoint, WalState, apply, replay,
  replay-append, or_else, get-remove_where,
}
use aether_engine.Wal.State as State
use aether_engine.Wal.Log.{
  Wal, Closed, segment_max_bytes, write, next_segment, checkpoint_of, append_from, append, commit,
  append_entries, truncate, save_committed, closed_records, disk, reopen,
}
use aether_engine.Wal.SameLog.{SameLog, SameLog-trans, replay-SameLog}

-- The committed pointer is not taken back.
abbrev pub Advances : {LogId Entry : Type 0} → WalState LogId Entry → WalRecord LogId Entry → Type 0
Advances s (committed none) = s.committed ≡ none
Advances s (committed (some c)) = Unit
Advances s (entry e) = Unit
Advances s (truncate_from i) = Unit
Advances s (purge p) = Unit
Advances s (checkpoint p c) = Unit

pub or_else_self : {A : Type 0} (o : Option A) → or_else o o ≡ o
or_else_self none = refl
or_else_self (some a) = refl

module _ {LogId Entry : Type 0} (index : LogId → ℕ) (entry_index : Entry → ℕ)
    (size : WalRecord LogId Entry → ℕ) where
  abbrev pub Mirrors : Wal LogId Entry → Type 0
  Mirrors w = SameLog (reopen index entry_index size w) w.state

  -- The checkpoint that a rotation writes behind the record that caused it adds nothing to the state.
  checkpoint_adds_nothing :
      (s : WalState LogId Entry) (r : WalRecord LogId Entry)
      → Advances s r
      → SameLog
          (apply index entry_index (apply index entry_index s r) (checkpoint_of s))
          (apply index entry_index s r)
  unfolding apply
  checkpoint_adds_nothing s (entry e) a = record {
    entries = λ k. refl;
    last_purged = or_else_self s.last_purged;
    committed = or_else_self s.committed;
  }
  checkpoint_adds_nothing s (truncate_from i) a = record {
    entries = λ k. refl;
    last_purged = or_else_self s.last_purged;
    committed = or_else_self s.committed;
  }
  checkpoint_adds_nothing s (purge p) a = record {
    entries = λ k. refl;
    last_purged = refl;
    committed = or_else_self s.committed;
  }
  checkpoint_adds_nothing s (committed none) a = record {
    entries = λ k. refl;
    last_purged = or_else_self s.last_purged;
    committed = a;
  }
  checkpoint_adds_nothing s (committed (some c)) a = record {
    entries = λ k. refl;
    last_purged = or_else_self s.last_purged;
    committed = refl;
  }
  checkpoint_adds_nothing s (checkpoint p c) a = record {
    entries = λ k. refl;
    last_purged = twice s.last_purged p;
    committed = twice s.committed c;
  }
    where
      twice : {A : Type 0} (o p : Option A) → or_else (or_else o p) o ≡ or_else o p
      twice none none = refl
      twice none (some b) = refl
      twice (some x) p = refl

  pub closed_records-append :
      (cs ds : List (Closed LogId Entry))
      → closed_records (cs ++ ds) ≡ closed_records cs ++ closed_records ds
  unfolding closed_records
  closed_records-append [] ds = refl
  closed_records-append (c ∷ cs) ds =
      ap (◌++◌ c.records) (closed_records-append cs ds)
      ∙ sym (append_assoc c.records (closed_records cs) (closed_records ds))

  pub disk-write :
      (w : Wal LogId Entry) (r : WalRecord LogId Entry)
      → disk (write index entry_index size w r) ≡ disk w ++ r ∷ []
  unfolding disk write
  disk-write w r = sym (append_assoc (closed_records w.closed) w.segment.records (r ∷ []))

  disk-next_segment : (w : Wal LogId Entry) → disk (next_segment w) ≡ disk w
  unfolding disk next_segment
  disk-next_segment w =
      ap (λ rs. rs ++ [])
        (closed_records-append w.closed (
          record {
            seq = w.segment.seq;
            records = w.segment.records;
            max_index = w.segment.max_index;
          }
          ∷ []))
      ∙ append-nil _
      ∙ ap (closed_records w.closed ++◌) (append-nil w.segment.records)

  -- What an append leaves on the disk: the record, and a checkpoint behind it where the segment is full.
  abbrev Appended : Wal LogId Entry → WalRecord LogId Entry → Wal LogId Entry → Type 0
  Appended w r w' =
      (w'.state ≡ w.state)
      × ((disk w' ≡ disk w ++ r ∷ []) ⊎ (disk w' ≡ disk w ++ r ∷ checkpoint_of w.state ∷ []))

  module _
      (fits : (s : WalState LogId Entry) → 8 + size (checkpoint_of s) < segment_max_bytes) where
    pub two_appends :
        (fuel : ℕ) (w : Wal LogId Entry) (r : WalRecord LogId Entry)
        → append_from index entry_index size (suc (suc fuel)) w r ≡ (
            if leb segment_max_bytes (w.segment.bytes + 8 + size r)
            then write index entry_index size
                (next_segment (write index entry_index size w r))
                (checkpoint_of w.state)
            else write index entry_index size w r)
    unfolding append_from write next_segment
    two_appends fuel w r = ground (arith, fits w.state)

    -- The calls of append and rotate end: where a checkpoint record does not fill a segment, no append
    -- makes more than two calls, so that any further fuel changes nothing.
    pub append_from_enough :
        (fuel : ℕ) (w : Wal LogId Entry) (r : WalRecord LogId Entry)
        → append_from index entry_index size (suc (suc fuel)) w r
          ≡ append index entry_index size w r
    unfolding append
    append_from_enough fuel w r = two_appends fuel w r ∙ sym (two_appends 0 w r)

    append-Appended :
        (w : Wal LogId Entry) (r : WalRecord LogId Entry)
        → Appended w r (append index entry_index size w r)
    unfolding append
    append-Appended w r =
        subst (Appended w r) (sym (two_appends 0 w r))
          (elim (Bool-cases (leb segment_max_bytes (w.segment.bytes + 8 + size r))) [
            | inr room ↦ rw room (written, inl (disk-write w r))
            | inl full ↦ rw full (rotated, inr grown)
          ])
      where
        written : (write index entry_index size w r).state ≡ w.state
        written = unfold write in refl

        w' : Wal LogId Entry
        w' = next_segment (write index entry_index size w r)

        rotated : (write index entry_index size w' (checkpoint_of w.state)).state ≡ w.state
        rotated = unfold write next_segment in refl

        grown :
            disk (write index entry_index size w' (checkpoint_of w.state))
            ≡ disk w ++ r ∷ checkpoint_of w.state ∷ []
        grown =
            disk-write w' (checkpoint_of w.state)
            ∙ ap (λ rs. rs ++ checkpoint_of w.state ∷ [])
                (disk-next_segment (write index entry_index size w r) ∙ disk-write w r)
            ∙ append_assoc (disk w) (r ∷ []) (checkpoint_of w.state ∷ [])

    -- A mutation keeps disk and memory in step.
    pub commit-Mirrors :
        (w : Wal LogId Entry) (r : WalRecord LogId Entry)
        → Advances w.state r
        → Mirrors w
        → Mirrors (commit index entry_index size w r)
    unfolding commit reopen apply replay
    commit-Mirrors w r a m =
        let (same, grown) = append-Appended w r in
        let next : WalState LogId Entry = apply index entry_index w.state r in
        rw same (elim grown [
          | inl e ↦
              rw (e, replay-append index entry_index State.empty (disk w) (r ∷ []))
                (replay-SameLog index entry_index _ w.state (r ∷ []) m)
          | inr e ↦
              rw
                (
                  e,
                  replay-append index entry_index State.empty (disk w)
                      (r ∷ checkpoint_of w.state ∷ []),
                )
                (SameLog-trans
                  (replay-SameLog index entry_index _ w.state (r ∷ checkpoint_of w.state ∷ []) m)
                  (checkpoint_adds_nothing w.state r a))
        ])

    append_entries-Mirrors :
        (w : Wal LogId Entry) (es : List Entry)
        → Mirrors w
        → Mirrors (append_entries index entry_index size w es)
    unfolding append_entries
    append_entries-Mirrors w [] m = m
    append_entries-Mirrors w (e ∷ es) m =
        append_entries-Mirrors (commit index entry_index size w (entry e)) es
          (commit-Mirrors w (entry e) tt m)

    -- Durability: where a checkpoint record does not fill a segment and reopening the log gives the
    -- state in memory, it does so after entries are appended, after a truncation, and after a committed
    -- pointer is saved that does not take a pointer back, with rotations wherever they fall.
    pub mutations-Mirrors :
        (w : Wal LogId Entry)
        → Mirrors w
        → ((es : List Entry) → Mirrors (append_entries index entry_index size w es))
          × ((i : ℕ) → Mirrors (truncate index entry_index size w i))
          × ((c : Option LogId)
              → Advances w.state (committed c)
              → Mirrors (save_committed index entry_index size w c))
    unfolding truncate save_committed
    mutations-Mirrors w m = (
      λ es. append_entries-Mirrors w es m,
      λ i. commit-Mirrors w (truncate_from i) tt m,
      λ c a. commit-Mirrors w (committed c) a m,
    )
