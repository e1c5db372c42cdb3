-- ===== src/LogStorage/Agreement.antt =====
-- The two log stores implement one interface: raft cannot tell them apart.
use aether_engine.Prelude.{
  ℕ, zero, suc, ◌+◌, ◌≤◌, ◌≡◌, refl, sym, ap, ◌∙◌, List, [], ◌∷◌, Option, none, some, true, arith,
  nat_eq, Option-cases, is_some, inl, inr,
}
use aether_engine.Prelude.HashMap.{HashMap, get}
use aether_engine.Wal.State.{WalRecord, WalState, entry, truncate_from, apply, committed}
use aether_engine.Wal.State as State
use aether_engine.Wal.Log.{
  Wal, append_from, write, next_segment, commit, max_with, reclaim, purge_to,
}
use aether_engine.Wal.Log as Log
use aether_engine.Wal.SameLog.{SameLog, apply-SameLog}
use aether_engine.LogStorage.{
  LogCall, append, truncate, purge, save_committed, save_vote, greatest_key, next_back,
  range_entries, log_state, entry_index,
}
use aether_engine.Wal.State.{purge as purge_record}
use aether_engine.LogStorage.Memory as Memory
use aether_engine.LogStorage.Memory.{LogInner, insert_entries}
use aether_engine.LogStorage.Disk as Disk
use aether_engine.LogStorage.Disk.{WalLogStore}

module _ {Entry : Type 0} where
  greatest_key-none : (m : HashMap ℕ Entry) → greatest_key m ≡ none → (k : ℕ) → get m k ≡ none
  unfolding greatest_key get
  greatest_key-none [] e k = refl
  greatest_key-none ((j, v) ∷ m) e k = absurd (cc e)

  -- The key is there, and no greater one is.
  greatest_key-some :
      (m : HashMap ℕ Entry) (k : ℕ)
      → greatest_key m ≡ some k
      → (is_some (get m k) ≡ true) × ((j : ℕ) → is_some (get m j) ≡ true → j ≤ k)
  unfolding greatest_key get
  greatest_key-some [] k e = absurd (cc e)
  greatest_key-some ((i, v) ∷ m) k e = elim (Option-cases (greatest_key m)) [
    | inl f ↦ (ground arith, λ j h. ground (arith, greatest_key-none m f j))
    | inr (g, f) ↦
        let (there, most) = greatest_key-some m g f in (ground arith, λ j h. ground (arith, most j))
  ]

  greatest_key-same :
      (m n : HashMap ℕ Entry) → ((k : ℕ) → get m k ≡ get n k) → greatest_key m ≡ greatest_key n
  greatest_key-same m n s = elim (Option-cases (greatest_key m)) [
    | inl e ↦ elim (Option-cases (greatest_key n)) [
      | inl f ↦ e ∙ sym f
      | inr (k, f) ↦
          absurd (ground (arith, greatest_key-none m e k, s k, (greatest_key-some n k f).0))
    ]
    | inr (j, e) ↦ elim (Option-cases (greatest_key n)) [
      | inl f ↦ absurd (ground (arith, greatest_key-none n f j, s j, (greatest_key-some m j e).0))
      | inr (k, f) ↦
          let (j_there, j_most) = greatest_key-some m j e in
          let (k_there, k_most) = greatest_key-some n k f in
          let below : j ≤ k = k_most j (ap is_some (sym (s j)) ∙ j_there) in
          let above : k ≤ j = j_most k (ap is_some (s k) ∙ k_there) in
          e ∙ ap some (omega arith) ∙ sym f
    ]
  ]

  next_back-same :
      (m n : HashMap ℕ Entry) → ((k : ℕ) → get m k ≡ get n k) → next_back m ≡ next_back n
  unfolding next_back
  next_back-same m n s =
      ap (λ (o : Option ℕ). elim o as (λ x. Option Entry) [ none ↦ none | some k ↦ get m k ])
        (greatest_key-same m n s)
      ∙ at (greatest_key n)
    where
      at :
          (o : Option ℕ)
          → elim o as (λ x. Option Entry) [ none ↦ none | some k ↦ get m k ]
            ≡ elim o as (λ x. Option Entry) [ none ↦ none | some k ↦ get n k ]
      at none = refl
      at (some k) = s k

  range_entries-same :
      (m n : HashMap ℕ Entry)
      → ((k : ℕ) → get m k ≡ get n k)
      → (lo count : ℕ) → range_entries m lo count ≡ range_entries n lo count
  unfolding range_entries
  range_entries-same m n s lo zero = refl
  range_entries-same m n s lo (suc count) =
      ground (arith, s lo, range_entries-same m n s (lo + 1) count)

module _ {LogId Entry : Type 0} (index : LogId → ℕ) (at : Entry → ℕ)
    (size : WalRecord LogId Entry → ℕ) where
  append_from-state :
      (fuel : ℕ) (w : Wal LogId Entry) (r : WalRecord LogId Entry)
      → (append_from index at size fuel w r).state ≡ w.state
  unfolding append_from write next_segment
  append_from-state zero w r = refl
  append_from-state (suc fuel) w r = ground (
    arith,
    append_from-state fuel (next_segment (write index at size w r)) (Log.checkpoint_of w.state),
  )

  commit-state :
      (w : Wal LogId Entry) (r : WalRecord LogId Entry)
      → (commit index at size w r).state ≡ apply index at w.state r
  unfolding commit Log.append
  commit-state w r = ap (λ s. apply index at s r) (append_from-state 2 w r)

  -- A call that the one store folds into its map and the other commits.
  commit-SameLog :
      (s : WalState LogId Entry) (w : Wal LogId Entry) (r : WalRecord LogId Entry)
      → SameLog s w.state
      → SameLog (apply index at s r) (commit index at size w r).state
  commit-SameLog s w r same = rw (commit-state w r) (apply-SameLog index at s w.state r same)

-- The log in memory, seen as the state of a write-ahead log.
abbrev view : {LogId Entry Vote : Type 0} → LogInner LogId Entry Vote → WalState LogId Entry
view s = record { entries = s.log; last_purged = s.last_purged; committed = s.committed }

record Agrees {LogId Entry Vote : Type 0} (s : LogInner LogId Entry Vote)
    (d : WalLogStore LogId Entry Vote) : Type 0 where
  pub logs : SameLog (view s) d.wal.state
  pub votes : s.vote ≡ d.vote

module _ {LogId Entry : Type 0} (index : LogId → ℕ) (log_id : Entry → LogId)
    (size : WalRecord LogId Entry → ℕ) where
  entries-SameLog :
      (s : WalState LogId Entry) (w : Wal LogId Entry) (es : List Entry)
      → SameLog s w.state
      → SameLog
          (record s { entries = insert_entries index log_id s.entries es })
          (Log.append_entries index (entry_index index log_id) size w es).state
  unfolding insert_entries Log.append_entries apply
  entries-SameLog s w [] same = same
  entries-SameLog s w (e ∷ es) same =
      entries-SameLog (apply index (entry_index index log_id) s (entry e))
        (commit index (entry_index index log_id) size w (entry e)) es
        (commit-SameLog index (entry_index index log_id) size s w (entry e) same)

module _ {LogId Entry Vote : Type 0} (index : LogId → ℕ) (log_id : Entry → LogId)
    (size : WalRecord LogId Entry → ℕ) where
  step-Agrees :
      (s : LogInner LogId Entry Vote) (d : WalLogStore LogId Entry Vote)
      (c : LogCall LogId Entry Vote)
      → Agrees s d
      → Agrees (Memory.step index log_id s c) (Disk.step index log_id size d c)
  unfolding Memory.step Disk.step Log.truncate Log.save_committed purge_to reclaim apply
  step-Agrees s d (append es) a = record {
    logs = entries-SameLog index log_id size (view s) d.wal es a.logs;
    votes = a.votes;
  }
  step-Agrees s d (truncate p) a = record {
    logs =
        commit-SameLog index (entry_index index log_id) size (view s) d.wal
          (truncate_from (index p)) a.logs;
    votes = a.votes;
  }
  step-Agrees s d (purge p) a =
      let b =
        commit-SameLog index (entry_index index log_id) size (view s) d.wal (purge_record p)
          a.logs in
      record {
        logs = record { entries = b.entries; last_purged = b.last_purged; committed = b.committed };
        votes = a.votes;
      }
  step-Agrees s d (save_committed c) a = record {
    logs = commit-SameLog index (entry_index index log_id) size (view s) d.wal (committed c) a.logs;
    votes = a.votes;
  }
  step-Agrees s d (save_vote v) a = record { logs = a.logs; votes = refl }

  run-Agrees :
      (s : LogInner LogId Entry Vote) (d : WalLogStore LogId Entry Vote)
      (cs : List (LogCall LogId Entry Vote))
      → Agrees s d
      → Agrees (Memory.run index log_id s cs) (Disk.run index log_id size d cs)
  unfolding Memory.run Disk.run
  run-Agrees s d [] a = a
  run-Agrees s d (c ∷ cs) a =
      run-Agrees (Memory.step index log_id s c) (Disk.step index log_id size d c) cs
        (step-Agrees s d c a)

  -- What raft can ask of a log store.
  pub record SameAnswers (s : LogInner LogId Entry Vote) (d : WalLogStore LogId Entry Vote)
      : Type 0 where
    pub states : Memory.get_log_state index log_id s ≡ Disk.get_log_state index log_id size d
    pub entries :
        (lo count : ℕ)
        → Memory.try_get_log_entries index log_id s lo count
          ≡ Disk.try_get_log_entries index log_id size d lo count
    pub committed : s.committed ≡ d.wal.state.committed
    pub votes : s.vote ≡ d.vote

  Agrees-SameAnswers :
      (s : LogInner LogId Entry Vote) (d : WalLogStore LogId Entry Vote)
      → Agrees s d
      → SameAnswers s d
  unfolding Memory.get_log_state Disk.get_log_state Memory.try_get_log_entries
      Disk.try_get_log_entries log_state
  Agrees-SameAnswers s d a =
      let next = next_back-same s.log d.wal.state.entries a.logs.entries in
      record {
        states = rw (next, a.logs.last_purged) refl;
        entries = range_entries-same s.log d.wal.state.entries a.logs.entries;
        committed = a.logs.committed;
        votes = a.votes;
      }

  -- From empty stores on, after any history of appends, truncations, purges, committed pointers and
  -- votes, the store in memory and the store on the write-ahead log give raft the same answers: the
  -- last and the last purged log id, the entries of any range, the committed pointer and the vote.
  pub stores_agree :
      (cs : List (LogCall LogId Entry Vote)) (w : Wal LogId Entry)
      → w.state ≡ State.empty
      → SameAnswers
          (Memory.run index log_id Memory.empty cs)
          (Disk.run index log_id size (record { wal = w; vote_file = none; vote = none }) cs)
  stores_agree cs w e = Agrees-SameAnswers _ _ (
      run-Agrees Memory.empty (record { wal = w; vote_file = none; vote = none }) cs
        (record {
          logs = rw e (record { entries = λ k. refl; last_purged = refl; committed = refl });
          votes = refl;
        }))
