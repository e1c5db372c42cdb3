-- ===== src/Wal/Open/Damage.antt =====
-- Opening a directory in which a segment before the last is damaged.
use aether_engine.Prelude.{
  ℕ, ◌≡◌, refl, sym, ap, ◌∙◌, Bool-cases, inl, inr, List, [], ◌∷◌, ◌++◌, false, none, some,
}
use aether_engine.Wal.State.{WalRecord, WalState, replay, replay-append}
use aether_engine.Wal.State as State
use aether_engine.Wal.Frame.{Codec, frames, scan}
use aether_engine.Wal.Frame.Recovery.{Fits, size, scan-frames}
use aether_engine.Wal.Open.{last, found_in, max_of, recover, active_seq, active, open_log}
use aether_engine.Prelude.{find, retain}

module _ {LogId Entry : Type 0} (index : LogId → ℕ) (entry_index : Entry → ℕ)
    (codec : Codec LogId Entry) where
  recover-damaged :
      (rs : List (WalRecord LogId Entry)) (bytes later : List ℕ)
      → Fits codec rs
      → (scan codec bytes).clean ≡ false
      → recover index entry_index codec State.empty
          ((0, frames codec rs) ∷ (1, bytes) ∷ (2, later) ∷ [])
        ≡ record {
          closed =
              record {
                file = record {
                  seq = 0;
                  records = rs;
                  max_index = max_of index entry_index codec none rs;
                };
                length = size codec rs;
              }
              ∷ found_in index entry_index codec 1 (scan codec bytes)
              ∷ [];
          state =
              replay index entry_index
                (replay index entry_index State.empty rs)
                (scan codec bytes).records;
          corrupt_at = some (1, (scan codec bytes).good);
        }
  unfolding recover
  recover-damaged rs bytes later f d = rw (scan-frames codec rs f, d) refl

  reopened :
      (rs : List (WalRecord LogId Entry)) (rest : List ℕ)
      → Fits codec rs
      → (recover index entry_index codec State.empty ((0, frames codec rs) ∷ (1, rest) ∷ [])).state
        ≡ replay index entry_index
            (replay index entry_index State.empty rs)
            (scan codec rest).records
  unfolding recover
  reopened rs rest f = elim (Bool-cases (scan codec rest).clean) [
    | inl e ↦ rw (scan-frames codec rs f, e) refl
    | inr e ↦ rw (scan-frames codec rs f, e) refl
  ]

  -- Of three segments the middle one is damaged: all that is read of it is recovered behind the
  -- records of the first, but the log goes on in segment 0, with the damaged segment closed behind it.
  -- So whatever is then appended to segment 0 stands before the records of segment 1 when the two are
  -- opened again, as long as the file of segment 1, truncated by then, still has these records.
  pub damage_restarts_at_zero :
      (rs news : List (WalRecord LogId Entry)) (bytes later rest : List ℕ)
      → Fits codec rs
      → Fits codec (rs ++ news)
      → (scan codec bytes).clean ≡ false
      → (scan codec rest).records ≡ (scan codec bytes).records
      → let o =
          open_log index entry_index codec ((0, frames codec rs) ∷ (1, bytes) ∷ (2, later) ∷ []) in
        (o.segment.seq ≡ 0)
        × (o.segment.records ≡ rs)
        × (o.closed
            ≡ record {
              seq = 1;
              records = (scan codec bytes).records;
              max_index = max_of index entry_index codec none (scan codec bytes).records;
            }
              ∷ [])
        × (o.state ≡ replay index entry_index State.empty (rs ++ (scan codec bytes).records))
        × ((open_log index entry_index codec
              ((0, frames codec (rs ++ news)) ∷ (1, rest) ∷ [])).state
            ≡ replay index entry_index State.empty ((rs ++ news) ++ (scan codec bytes).records))
  unfolding open_log active_seq last active find retain
  damage_restarts_at_zero rs news bytes later rest f g d same =
      rw (recover-damaged rs bytes later f d) (
        refl,
        refl,
        refl,
        sym (replay-append index entry_index State.empty rs (scan codec bytes).records),
        reopened (rs ++ news) rest g
            ∙ sym
                (replay-append index entry_index State.empty (rs ++ news) (scan codec rest).records)
            ∙ ap (λ xs. replay index entry_index State.empty ((rs ++ news) ++ xs)) same,
      )
