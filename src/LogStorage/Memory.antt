-- ===== src/LogStorage/Memory.antt =====
-- storage.rs, LogStore: the log in memory.
use aether_engine.Prelude.{ℕ, List, [], ◌∷◌, Option, none, some, leb, nat_eq}
use aether_engine.Prelude.HashMap
use aether_engine.Prelude.HashMap.{HashMap}
use aether_engine.Wal.State.{remove_where, keys_where, remove_keys}
use aether_engine.LogStorage.{
  LogCall, append, truncate, purge, save_committed, save_vote, LogState, log_state, range_entries,
}

pub record LogInner (LogId Entry Vote : Type 0) : Type 0 where
  pub log : HashMap ℕ Entry
  pub last_purged : Option LogId
  pub committed : Option LogId
  pub vote : Option Vote

abbrev pub empty : {LogId Entry Vote : Type 0} → LogInner LogId Entry Vote
empty = record { log = []; last_purged = none; committed = none; vote = none }

module _ {LogId Entry : Type 0} (index : LogId → ℕ) (log_id : Entry → LogId) where
  -- The loop of `append`.
  unfoldable pub insert_entries : HashMap ℕ Entry → List Entry → HashMap ℕ Entry
  insert_entries m [] = m
  insert_entries m (e ∷ es) = insert_entries (HashMap.insert m (index (log_id e)) e) es

module _ {LogId Entry Vote : Type 0} (index : LogId → ℕ) (log_id : Entry → LogId) where
  unfoldable pub step :
      LogInner LogId Entry Vote → LogCall LogId Entry Vote → LogInner LogId Entry Vote
  unfolding insert_entries keys_where remove_keys
  step s (append entries) = record s { log = insert_entries index log_id s.log entries }
  step s (truncate p) = record s { log = remove_where (λ k. leb (index p) k) s.log }
  step s (purge p) = record s {
    last_purged = some p;
    log = remove_where (λ k. leb k (index p)) s.log;
  }
  step s (save_committed c) = record s { committed = c }
  step s (save_vote v) = record s { vote = some v }

  unfoldable pub run :
      LogInner LogId Entry Vote → List (LogCall LogId Entry Vote) → LogInner LogId Entry Vote
  unfolding step
  run s [] = s
  run s (c ∷ cs) = run (step s c) cs

  unfoldable pub get_log_state : LogInner LogId Entry Vote → LogState LogId
  unfolding log_state
  get_log_state s = log_state log_id s.log s.last_purged

  unfoldable pub try_get_log_entries : LogInner LogId Entry Vote → ℕ → ℕ → List Entry
  unfolding range_entries
  try_get_log_entries s lo n = range_entries s.log lo n
