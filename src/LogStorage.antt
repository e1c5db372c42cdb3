-- ===== src/LogStorage.antt =====
-- The two log stores of a raft member, crates/consensus/src/storage.rs (LogStore, in memory) and
-- crates/consensus/src/wal.rs (WalLogStore, on the write-ahead log), and what both let raft see.
pub mod Memory
pub mod Disk
pub mod Agreement
pub mod Tests
use aether_engine.Prelude.{
  ℕ, zero, suc, ◌+◌, ◌≡◌, Bool, List, [], ◌∷◌, Option, none, some, if◌then◌else◌, leb, nat_eq,
}
use aether_engine.Prelude.HashMap.{HashMap, get}
use aether_engine.Wal.State.{or_else}
use aether_engine.Wal.Log.{max_with}

-- `LogState`.
pub record LogState (LogId : Type 0) : Type 0 where
  pub last_purged_log_id : Option LogId
  pub last_log_id : Option LogId

-- The calls that change a store.
pub data LogCall (LogId Entry Vote : Type 0) : Type 0 where
  append : List Entry → LogCall LogId Entry Vote
  truncate : LogId → LogCall LogId Entry Vote
  purge : LogId → LogCall LogId Entry Vote
  save_committed : Option LogId → LogCall LogId Entry Vote
  save_vote : Vote → LogCall LogId Entry Vote

-- `iter().next_back()` of a BTreeMap: the entry with the greatest key.
unfoldable pub greatest_key : {Entry : Type 0} → HashMap ℕ Entry → Option ℕ
greatest_key [] = none
greatest_key ((k, e) ∷ m) = some (max_with (greatest_key m) k)

unfoldable pub next_back : {Entry : Type 0} → HashMap ℕ Entry → Option Entry
unfolding greatest_key get
next_back m = elim (greatest_key m) [ none ↦ none | some k ↦ get m k ]

-- `range(lo..hi)` of a BTreeMap, in ascending order, with n = hi - lo.
unfoldable pub range_entries : {Entry : Type 0} → HashMap ℕ Entry → ℕ → ℕ → List Entry
unfolding get
range_entries m lo zero = []
range_entries m lo (suc n) =
    let rest = range_entries m (lo + 1) n in elim (get m lo) [ none ↦ rest | some e ↦ e ∷ rest ]

-- `map(|e| e.log_id).or(last_purged)`.
unfoldable pub log_state :
    {LogId Entry : Type 0} → (Entry → LogId) → HashMap ℕ Entry → Option LogId → LogState LogId
unfolding next_back
log_state log_id entries last_purged = record {
  last_purged_log_id = last_purged;
  last_log_id =
      or_else (elim (next_back entries) [ none ↦ none | some e ↦ some (log_id e) ]) last_purged;
}

-- `e.log_id.index`.
abbrev pub entry_index : {LogId Entry : Type 0} → (LogId → ℕ) → (Entry → LogId) → Entry → ℕ
entry_index index log_id e = index (log_id e)
