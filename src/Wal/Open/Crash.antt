-- ===== src/Wal/Open/Crash.antt =====
-- Opening after a crash that tore the tail of the active segment.
use aether_engine.Prelude.{
  ℕ, ◌+◌, ◌≤◌, ◌<◌, ◌≡◌, refl, sym, ap, ◌∙◌, List, [], ◌∷◌, ◌++◌, not, Option, none, some, retain,
  find, nat_eq, ◌==◌, beq_refl, inl, inr, map, All, arith, take, length, Bool-cases,
}
use aether_engine.Wal.State.{WalRecord, WalState, replay, replay-append}
use aether_engine.Wal.State as State
use aether_engine.Wal.Frame.{Codec, Scan, frames, scan}
use aether_engine.Wal.Frame.Recovery.{Fits, size, scan-frames, scan_recovers_prefix}
use aether_engine.Wal.Log.{Wal, Closed, closed_records}
use aether_engine.Wal.Open.{
  Found, Recovery, last, max_of, found_in, recover, active_seq, active, open_log,
}

module _ {LogId Entry : Type 0} (index : LogId → ℕ) (entry_index : Entry → ℕ)
    (codec : Codec LogId Entry) where
  abbrev pub file_of : Closed LogId Entry → ℕ × List ℕ
  file_of c = (c.seq, frames codec c.records)

  -- The files of a log when of its active segment n bytes are left.
  abbrev pub files_of : Wal LogId Entry → ℕ → List (ℕ × List ℕ)
  files_of w n =
      map file_of w.closed ++ (w.segment.seq, take n (frames codec w.segment.records)) ∷ []

  -- What the scan finds in an intact segment.
  abbrev read_whole : Closed LogId Entry → Found LogId Entry
  read_whole c = record {
    file = record {
      seq = c.seq;
      records = c.records;
      max_index = max_of index entry_index codec none c.records;
    };
    length = size codec c.records;
  }

  recover-closed :
      (s : WalState LogId Entry) (cs : List (Closed LogId Entry)) (files : List (ℕ × List ℕ))
      → All (λ c. Fits codec c.records) cs
      → let rest =
          recover index entry_index codec (replay index entry_index s (closed_records cs)) files in
        recover index entry_index codec s (map file_of cs ++ files)
        ≡ record rest { closed = map read_whole cs ++ rest.closed }
  unfolding recover closed_records replay
  recover-closed s [] files f = refl
  recover-closed s (c ∷ cs) files f =
      rw
        (
          scan-frames codec c.records f.0,
          replay-append index entry_index s c.records (closed_records cs),
        )
        (ap (λ (r : Recovery LogId Entry). record r { closed = read_whole c ∷ r.closed })
          (recover-closed (replay index entry_index s c.records) cs files f.1))

  -- The last file, damaged or not.
  recover-last :
      (s : WalState LogId Entry) (seq : ℕ) (bytes : List ℕ)
      → let r = recover index entry_index codec s ((seq, bytes) ∷ []) in
        (r.closed ≡ found_in index entry_index codec seq (scan codec bytes) ∷ [])
        × (r.state ≡ replay index entry_index s (scan codec bytes).records)
        × (active_seq index entry_index codec r.corrupt_at (seq ∷ []) ≡ seq)
  unfolding recover active_seq last
  recover-last s seq bytes = elim (Bool-cases (scan codec bytes).clean) [
    | inl e ↦ rw e (refl, refl, refl)
    | inr e ↦ rw e (refl, refl, ground arith)
  ]

  last_file :
      (cs : List (Closed LogId Entry)) (seq : ℕ) (bytes : List ℕ)
      → last (map (λ f. f.0) (map file_of cs ++ (seq, bytes) ∷ [])) ≡ some seq
  unfolding last
  last_file [] seq bytes = refl
  last_file (c ∷ []) seq bytes = refl
  last_file (c ∷ d ∷ cs) seq bytes = last_file (d ∷ cs) seq bytes

  find_last :
      (cs : List (Closed LogId Entry)) (f : Found LogId Entry)
      → All (λ c. c.seq < f.file.seq) cs
      → find (λ (g : Found LogId Entry). g.file.seq == f.file.seq) (map read_whole cs ++ f ∷ [])
        ≡ some f
  unfolding find
  find_last [] f h = rw (beq_refl f.file.seq) refl
  find_last (c ∷ cs) f h = ground (arith, find_last cs f)

  retain_others :
      (cs : List (Closed LogId Entry)) (f : Found LogId Entry)
      → All (λ c. c.seq < f.file.seq) cs
      → retain
          (λ (g : Found LogId Entry). not (g.file.seq == f.file.seq))
          (map read_whole cs ++ f ∷ [])
        ≡ map read_whole cs
  unfolding retain
  retain_others [] f h = rw (beq_refl f.file.seq) refl
  retain_others (c ∷ cs) f h = ground (arith, retain_others cs f)

  closed_records_whole :
      (cs : List (Closed LogId Entry))
      → closed_records (map (λ (f : Found LogId Entry). f.file) (map read_whole cs))
        ≡ closed_records cs
  unfolding closed_records
  closed_records_whole [] = refl
  closed_records_whole (c ∷ cs) = ap (c.records ++◌) (closed_records_whole cs)

  active_seq-last :
      (corrupt_at : Option (ℕ × ℕ)) (seqs : List ℕ) (seq : ℕ)
      → last seqs ≡ some seq
      → active_seq index entry_index codec corrupt_at seqs
        ≡ active_seq index entry_index codec corrupt_at (seq ∷ [])
  unfolding active_seq last
  active_seq-last corrupt_at seqs seq e = rw (e, active_seq) refl

  active-last :
      (cs : List (Closed LogId Entry)) (f : Found LogId Entry)
      → All (λ c. c.seq < f.file.seq) cs
      → active index entry_index codec (map read_whole cs ++ f ∷ []) f.file.seq ≡ record {
        seq = f.file.seq;
        records = f.file.records;
        bytes = f.length;
        max_index = f.file.max_index;
      }
  unfolding active
  active-last cs f h = rw (find_last cs f h, active) refl

  -- The log that is opened, with what the scan finds in the last file.
  reopened : Wal LogId Entry → Scan LogId Entry → Wal LogId Entry
  reopened w read = record {
    segment = record {
      seq = w.segment.seq;
      records = read.records;
      bytes = read.good;
      max_index = max_of index entry_index codec none read.records;
    };
    closed = map (λ (f : Found LogId Entry). f.file) (map read_whole w.closed);
    state =
        replay index entry_index (replay index entry_index State.empty (closed_records w.closed))
          read.records;
  }

  open_log-files_of :
      (w : Wal LogId Entry) (n : ℕ)
      → All (λ c. Fits codec c.records) w.closed
      → All (λ c. c.seq < w.segment.seq) w.closed
      → open_log index entry_index codec (files_of w n)
        ≡ reopened w (scan codec (take n (frames codec w.segment.records)))
  unfolding open_log reopened
  open_log-files_of w n f h =
      let bytes = take n (frames codec w.segment.records) in
      let seq = w.segment.seq in
      let s : WalState LogId Entry =
        replay index entry_index State.empty (closed_records w.closed) in
      let (closed, state, chosen) = recover-last s seq bytes in
      rw
        (
          recover-closed State.empty w.closed ((seq, bytes) ∷ []) f,
          active_seq-last (recover index entry_index codec s ((seq, bytes) ∷ [])).corrupt_at _ seq
              (last_file w.closed seq bytes),
          chosen,
          closed,
          state,
          active-last w.closed (found_in index entry_index codec seq (scan codec bytes)) h,
          retain_others w.closed (found_in index entry_index codec seq (scan codec bytes)) h,
        )
        refl

  -- What opening makes of a log of whose active segment n bytes are left.
  pub record Survives (w : Wal LogId Entry) (n : ℕ) (o : Wal LogId Entry) : Type 0 where
    pub kept : List (WalRecord LogId Entry)
    pub lost : List (WalRecord LogId Entry)
    pub parts : w.segment.records ≡ kept ++ lost
    pub longest :
        (r : WalRecord LogId Entry) (later : List (WalRecord LogId Entry))
        → lost ≡ r ∷ later
        → n < size codec kept + 8 + length (codec.serialize r)
    pub state : o.state ≡ replay index entry_index State.empty (closed_records w.closed ++ kept)
    pub seq : o.segment.seq ≡ w.segment.seq
    pub content : o.segment.records ≡ kept
    pub truncated : o.segment.bytes ≡ size codec kept
    pub others : closed_records o.closed ≡ closed_records w.closed

  -- A crash that leaves any n bytes of the active segment, and the closed segments whole, loses the
  -- records that those bytes do not hold whole, and no others: opening replays all closed segments and
  -- the longest prefix of the active one, and goes on with that segment, truncated to that prefix.
  pub open_after_crash :
      (w : Wal LogId Entry) (n : ℕ)
      → All (λ c. Fits codec c.records) w.closed
      → All (λ c. c.seq < w.segment.seq) w.closed
      → Fits codec w.segment.records
      → n ≤ size codec w.segment.records
      → Survives w n (open_log index entry_index codec (files_of w n))
  unfolding reopened
  open_after_crash w n f h k l =
      let c = scan_recovers_prefix codec w.segment.records n k l in
      rw (open_log-files_of w n f h) (record {
        kept = c.kept;
        lost = c.lost;
        parts = c.parts;
        longest = c.longest;
        state =
            ap
              (replay index entry_index
                (replay index entry_index State.empty (closed_records w.closed)))
              c.recovered
            ∙ sym (replay-append index entry_index State.empty (closed_records w.closed) c.kept);
        seq = refl;
        content = c.recovered;
        truncated = c.truncated ∙ omega arith;
        others = closed_records_whole w.closed;
      })
