-- ===== src/Wal/Log/Tests.antt =====
-- Runs of the log with numbers for log ids and entries: an entry is its index.
use aether_engine.Prelude.{
  ℕ, ◌+◌, ◌<◌, ◌≡◌, refl, List, [], ◌∷◌, Option, none, some, arith, inr, nat_eq,
}
use aether_engine.Prelude.HashMap.{get, insert, remove}
use aether_engine.Wal.State.{
  WalRecord, entry, truncate_from, committed, checkpoint, WalState, replay, keys_where, remove_keys,
}
use aether_engine.Wal.Log.{
  Wal, segment_max_bytes, append_from, append, append_entries, truncate, save_committed, purge_to,
  reopen, closed_records, checkpoint_of,
}
use aether_engine.Wal.Log.Durable.{append_from_enough, Advances, Mirrors, mutations-Mirrors}
use aether_engine.Wal.Log.Purge.{IsPrefix, purge-Mirrors}
use aether_engine.Wal.Log.Stale.{purge_forgets_truncation}
use aether_engine.Wal.Log.Bounds.{IsBounded, mutations-IsBounded}

abbrev id : ℕ → ℕ
id n = n

-- Every record takes 20 bytes.
abbrev size : WalRecord ℕ ℕ → ℕ
size r = 20

small : (s : WalState ℕ ℕ) → 8 + size (checkpoint_of s) < segment_max_bytes
small s = omega arith

-- One closed segment with the entries 1 and 2, and the entry 3 in the active one.
abbrev log : Wal ℕ ℕ
log = record {
  segment = record {
    seq = 1;
    records = checkpoint none none ∷ entry 3 ∷ [];
    bytes = 56;
    max_index = some 3;
  };
  closed = record { seq = 0; records = entry 1 ∷ entry 2 ∷ []; max_index = some 2 } ∷ [];
  state = record { entries = (1, 1) ∷ (2, 2) ∷ (3, 3) ∷ []; last_purged = none; committed = none };
}

log-Mirrors : Mirrors id id size log
unfolding reopen replay insert
log-Mirrors = record { entries = λ k. refl; last_purged = refl; committed = refl }

append_from_enough_example :
    append_from id id size 7 log (entry 4) ≡ append id id size log (entry 4)
append_from_enough_example = append_from_enough id id size small 5 log (entry 4)

mutations-Mirrors_example :
    ((es : List ℕ) → Mirrors id id size (append_entries id id size log es))
    × ((i : ℕ) → Mirrors id id size (truncate id id size log i))
    × ((c : Option ℕ)
        → Advances log.state (committed c)
        → Mirrors id id size (save_committed id id size log c))
mutations-Mirrors_example = mutations-Mirrors id id size small log log-Mirrors

log-IsBounded : IsBounded id id size log
log-IsBounded = record {
  open_segment = λ limit h. (tt, (ground arith, tt));
  closed_segments = ((λ limit h. (ground arith, (ground arith, tt))), tt);
}

mutations-IsBounded_example :
    ((es : List ℕ) → IsBounded id id size (append_entries id id size log es))
    × ((i : ℕ) → IsBounded id id size (truncate id id size log i))
    × ((c : Option ℕ) → IsBounded id id size (save_committed id id size log c))
    × ((p : ℕ) → IsBounded id id size (purge_to id id size log p))
mutations-IsBounded_example = mutations-IsBounded id id size log log-IsBounded

log-IsPrefix : IsPrefix id id size log 2
unfolding closed_records replay
log-IsPrefix = record {
  dead = log.closed;
  live = [];
  parts = refl;
  removable = (refl, tt);
  kept = tt;
  bounded = log-IsBounded.closed_segments;
  restates = inr (none, entry 3 ∷ [], refl);
}

purge-Mirrors_example : Mirrors id id size (purge_to id id size log 2)
purge-Mirrors_example = purge-Mirrors id id size log 2 (omega arith) log-IsPrefix log-Mirrors

-- Entries up to 9, then a truncation from 5 and a new entry 5 in a segment of their own.
abbrev reordered : Wal ℕ ℕ
reordered = record {
  segment = record { seq = 2; records = checkpoint none none ∷ []; bytes = 28; max_index = none };
  closed =
      record { seq = 0; records = entry 1 ∷ entry 9 ∷ []; max_index = some 9 }
      ∷ record {
        seq = 1;
        records = checkpoint none none ∷ truncate_from 5 ∷ entry 5 ∷ [];
        max_index = some 5;
      }
      ∷ [];
  state = record { entries = (1, 1) ∷ (5, 5) ∷ []; last_purged = none; committed = none };
}

reordered-Mirrors : Mirrors id id size reordered
unfolding reopen replay insert keys_where remove_keys remove
reordered-Mirrors = record { entries = λ k. refl; last_purged = refl; committed = refl }

purge_forgets_truncation_example :
    (get (reopen id id size (purge_to id id size reordered 5)).entries 9 ≡ some 9)
    × (get (purge_to id id size reordered 5).state.entries 9 ≡ none)
unfolding replay get insert
purge_forgets_truncation_example =
    purge_forgets_truncation id id size reordered 5 9 9
      (record { seq = 0; records = entry 1 ∷ entry 9 ∷ []; max_index = some 9 })
      (record {
        seq = 1;
        records = checkpoint none none ∷ truncate_from 5 ∷ entry 5 ∷ [];
        max_index = some 5;
      }
        ∷ [])
      (omega arith) refl refl (refl, tt) (omega arith) refl (tt, tt) refl
