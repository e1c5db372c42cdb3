-- ===== src/Wal/Open.antt =====
-- wal.rs, `Wal::open`: the segments of a directory, scanned in sequence order up to the first damage,
-- and the segment that becomes the active one. A file is its sequence number and its bytes; the files
-- are given in the order into which `sort_unstable` brings them.
pub mod Crash
pub mod Damage
pub mod Tests
use aether_engine.Prelude.{
  ℕ, ◌≡◌, List, [], ◌∷◌, Bool, true, false, not, Option, none, some, if◌then◌else◌, leb, retain,
  find, nat_eq, ◌==◌, unwrap_or, map,
}
use aether_engine.Wal.State.{WalRecord, WalState, replay}
use aether_engine.Wal.State as State
use aether_engine.Wal.Frame.{Codec, Scan, scan}
use aether_engine.Wal.Log.{Wal, Segment, Closed, next_max}

-- An element of `closed` as the scan pushes it, and the length of its file behind the truncation.
pub record Found (LogId Entry : Type 0) : Type 0 where
  pub file : Closed LogId Entry
  pub length : ℕ

-- The variables of the loop over the segments: `closed`, `state` and `corrupt_at`.
pub record Recovery (LogId Entry : Type 0) : Type 0 where
  pub closed : List (Found LogId Entry)
  pub state : WalState LogId Entry
  pub corrupt_at : Option (ℕ × ℕ)

-- `seqs.last()`.
unfoldable pub last : List ℕ → Option ℕ
last [] = none
last (x ∷ []) = some x
last (x ∷ y ∷ ys) = last (y ∷ ys)

-- `corrupt_at.is_none_or(|(bad, _)| seq <= bad)`.
abbrev pub is_intact : Option (ℕ × ℕ) → ℕ → Bool
is_intact none seq = true
is_intact (some (bad, good)) seq = leb seq bad

module _ {LogId Entry : Type 0} (index : LogId → ℕ) (entry_index : Entry → ℕ)
    (codec : Codec LogId Entry) where
  unfoldable pub max_of : Option ℕ → List (WalRecord LogId Entry) → Option ℕ
  max_of m [] = m
  max_of m (r ∷ rs) = max_of (next_max index entry_index (λ q. 0) m r) rs

  abbrev pub found_in : ℕ → Scan LogId Entry → Found LogId Entry
  found_in seq s = record {
    file = record { seq = seq; records = s.records; max_index = max_of none s.records };
    length = s.good;
  }

  unfoldable pub recover : WalState LogId Entry → List (ℕ × List ℕ) → Recovery LogId Entry
  unfolding scan replay max_of
  recover s [] = record { closed = []; state = s; corrupt_at = none }
  recover s ((seq, bytes) ∷ files) =
      let read = scan codec bytes in
      let state = replay index entry_index s read.records in
      let rest = recover state files in
      if read.clean then record rest { closed = found_in seq read ∷ rest.closed } else record {
        closed = found_in seq read ∷ [];
        state = state;
        corrupt_at = some (seq, read.good);
      }

  -- `active_seq`, with segment 0 where there is none.
  unfoldable pub active_seq : Option (ℕ × ℕ) → List ℕ → ℕ
  unfolding last
  active_seq corrupt_at seqs = elim (last seqs) [
    | none ↦ 0
    | some seq ↦ if is_intact corrupt_at seq then seq else 0
  ]

  -- The active segment: the file found under its number, or a new one.
  unfoldable pub active : List (Found LogId Entry) → ℕ → Segment LogId Entry
  active found seq = elim (find (λ (f : Found LogId Entry). f.file.seq == seq) found) [
    | none ↦ record { seq = seq; records = []; bytes = 0; max_index = none }
    | some f ↦ record {
      seq = seq;
      records = f.file.records;
      bytes = f.length;
      max_index = f.file.max_index;
    }
  ]

  unfoldable pub open_log : List (ℕ × List ℕ) → Wal LogId Entry
  unfolding recover active_seq active
  open_log files =
      let r = recover State.empty files in
      let seq = active_seq r.corrupt_at (map (λ f. f.0) files) in
      record {
        segment = active r.closed seq;
        closed =
            map (λ f. f.file)
              (retain (λ (f : Found LogId Entry). not (f.file.seq == seq)) r.closed);
        state = r.state;
      }
