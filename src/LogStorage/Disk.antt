-- ===== src/LogStorage/Disk.antt =====
-- wal.rs, WalLogStore: the log on the write-ahead log, with the vote in a file of its own.
use aether_engine.Prelude.{ℕ, List, [], ◌∷◌, Option, some}
use aether_engine.Wal.State.{WalRecord}
use aether_engine.Wal.Log as Log
use aether_engine.Wal.Log.{Wal, append_entries, purge_to}
use aether_engine.LogStorage.{
  LogCall, append, truncate, purge, save_committed, save_vote, LogState, log_state, range_entries,
  entry_index,
}

pub record WalLogStore (LogId Entry Vote : Type 0) : Type 0 where
  pub wal : Wal LogId Entry
  pub vote_file : Option Vote
  pub vote : Option Vote

module _ {LogId Entry Vote : Type 0} (index : LogId → ℕ) (log_id : Entry → LogId)
    (size : WalRecord LogId Entry → ℕ) where
  unfoldable pub step :
      WalLogStore LogId Entry Vote → LogCall LogId Entry Vote → WalLogStore LogId Entry Vote
  unfolding append_entries Log.truncate purge_to Log.save_committed
  step s (append entries) = record s {
    wal = append_entries index (entry_index index log_id) size s.wal entries;
  }
  step s (truncate p) = record s {
    wal = Log.truncate index (entry_index index log_id) size s.wal (index p);
  }
  step s (purge p) = record s { wal = purge_to index (entry_index index log_id) size s.wal p }
  step s (save_committed c) = record s {
    wal = Log.save_committed index (entry_index index log_id) size s.wal c;
  }
  step s (save_vote v) = record s { vote_file = some v; vote = some v }

  unfoldable pub run :
      WalLogStore LogId Entry Vote → List (LogCall LogId Entry Vote) → WalLogStore LogId Entry Vote
  unfolding step
  run s [] = s
  run s (c ∷ cs) = run (step s c) cs

  unfoldable pub get_log_state : WalLogStore LogId Entry Vote → LogState LogId
  unfolding log_state
  get_log_state s = log_state log_id s.wal.state.entries s.wal.state.last_purged

  unfoldable pub try_get_log_entries : WalLogStore LogId Entry Vote → ℕ → ℕ → List Entry
  unfolding range_entries
  try_get_log_entries s lo n = range_entries s.wal.state.entries lo n
