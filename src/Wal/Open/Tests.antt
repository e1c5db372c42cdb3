-- ===== src/Wal/Open/Tests.antt =====
-- Runs of the opening of a directory, with the codec of the scan's tests.
use aether_engine.Prelude.{ℕ, ◌≤◌, ◌≡◌, refl, List, [], ◌∷◌, ◌++◌, none, some, arith, false}
use aether_engine.Wal.State.{WalRecord, entry, committed, checkpoint, replay}
use aether_engine.Wal.State as State
use aether_engine.Wal.Frame.{frames, scan}
use aether_engine.Wal.Frame.Recovery.{size}
use aether_engine.Wal.Log.{Wal}
use aether_engine.Wal.Open.{max_of, open_log}
use aether_engine.Wal.Open.Crash.{Survives, files_of, open_after_crash}
use aether_engine.Wal.Open.Damage.{damage_restarts_at_zero}
use aether_engine.Wal.Tests.{codec}

abbrev id : ℕ → ℕ
id n = n

abbrev three : List (WalRecord ℕ ℕ)
three = checkpoint none none ∷ entry 5 ∷ committed (some 5) ∷ []

abbrev log : Wal ℕ ℕ
log = record {
  segment = record { seq = 1; records = three; bytes = 32; max_index = some 5 };
  closed = record { seq = 0; records = entry 4 ∷ []; max_index = some 4 } ∷ [];
  state = record { entries = (4, 4) ∷ (5, 5) ∷ []; last_purged = none; committed = some 5 };
}

inside : 29 ≤ size codec three
unfolding frames
inside = omega arith

open_after_crash_example :
    Survives id id codec log 29 (open_log id id codec (files_of id id codec log 29))
open_after_crash_example =
    open_after_crash id id codec log 29 ((omega arith, tt), tt) (omega arith, tt)
      (omega arith, (omega arith, (omega arith, tt))) inside

damaged : (scan codec (3 ∷ 0 ∷ [])).clean ≡ false
unfolding scan
damaged = refl

unread : (scan codec []).records ≡ (scan codec (3 ∷ 0 ∷ [])).records
unfolding scan
unread = refl

damage_restarts_at_zero_example :
    let o =
      open_log id id codec ((0, frames codec (entry 4 ∷ [])) ∷ (1, 3 ∷ 0 ∷ []) ∷ (2, []) ∷ []) in
    (o.segment.seq ≡ 0)
    × (o.segment.records ≡ entry 4 ∷ [])
    × (o.closed
        ≡ record {
          seq = 1;
          records = (scan codec (3 ∷ 0 ∷ [])).records;
          max_index = max_of id id codec none (scan codec (3 ∷ 0 ∷ [])).records;
        }
          ∷ [])
    × (o.state ≡ replay id id State.empty ((entry 4 ∷ []) ++ (scan codec (3 ∷ 0 ∷ [])).records))
    × ((open_log id id codec
          ((0, frames codec ((entry 4 ∷ []) ++ entry 5 ∷ [])) ∷ (1, []) ∷ [])).state
        ≡ replay id id State.empty
            (((entry 4 ∷ []) ++ entry 5 ∷ []) ++ (scan codec (3 ∷ 0 ∷ [])).records))
damage_restarts_at_zero_example =
    damage_restarts_at_zero id id codec (entry 4 ∷ []) (entry 5 ∷ []) (3 ∷ 0 ∷ []) [] []
      (omega arith, tt) (omega arith, (omega arith, tt)) damaged unread
