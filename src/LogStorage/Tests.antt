-- ===== src/LogStorage/Tests.antt =====
-- Runs of the two log stores, with numbers for log ids, entries and votes.
use aether_engine.Prelude.{ℕ, refl, List, [], ◌∷◌, some, none}
use aether_engine.Wal.State as State
use aether_engine.Wal.State.{WalRecord}
use aether_engine.Wal.Log.{Wal}
use aether_engine.LogStorage.{LogCall, append, truncate, purge, save_committed, save_vote}
use aether_engine.LogStorage.Memory as Memory
use aether_engine.LogStorage.Disk as Disk
use aether_engine.LogStorage.Agreement.{SameAnswers, stores_agree}

abbrev id : ℕ → ℕ
id n = n

abbrev size : WalRecord ℕ ℕ → ℕ
size r = 20

abbrev new_log : Wal ℕ ℕ
new_log = record {
  segment = record { seq = 0; records = []; bytes = 0; max_index = none };
  closed = [];
  state = State.empty;
}

abbrev calls : List (LogCall ℕ ℕ ℕ)
calls =
    append (1 ∷ 2 ∷ 3 ∷ [])
    ∷ save_vote 7
    ∷ truncate 3
    ∷ append (3 ∷ [])
    ∷ save_committed (some 2)
    ∷ purge 1
    ∷ []

stores_agree_example :
    SameAnswers id id size
      (Memory.run id id Memory.empty calls)
      (Disk.run id id size (record { wal = new_log; vote_file = none; vote = none }) calls)
stores_agree_example = stores_agree id id size calls new_log refl
