-- ===== src/Wal/SameLog.antt =====
-- Two states of the write-ahead log that answer alike, and that stay so over all records.
use aether_engine.Prelude.{
  ℕ, ◌≡◌, refl, sym, ap, ◌∙◌, List, [], ◌∷◌, none, if◌then◌else◌, arith, leb, nat_eq,
}
use aether_engine.Prelude.HashMap.{get, get-insert}
use aether_engine.Wal.State.{
  WalRecord, entry, truncate_from, purge, committed, checkpoint, WalState, apply, replay, or_else,
  get-remove_where,
}

-- One log, whatever the order of the entries in the map.
pub record SameLog {LogId Entry : Type 0} (a b : WalState LogId Entry) : Type 0 where
  pub entries : (k : ℕ) → get a.entries k ≡ get b.entries k
  pub last_purged : a.last_purged ≡ b.last_purged
  pub committed : a.committed ≡ b.committed

pub SameLog-refl : {LogId Entry : Type 0} (a : WalState LogId Entry) → SameLog a a
SameLog-refl a = record { entries = λ k. refl; last_purged = refl; committed = refl }

pub SameLog-trans :
    {LogId Entry : Type 0} {a b c : WalState LogId Entry} → SameLog a b → SameLog b c → SameLog a c
SameLog-trans s t = record {
  entries = λ k. s.entries k ∙ t.entries k;
  last_purged = s.last_purged ∙ t.last_purged;
  committed = s.committed ∙ t.committed;
}

module _ {LogId Entry : Type 0} (index : LogId → ℕ) (entry_index : Entry → ℕ) where
  pub apply-SameLog :
      (a b : WalState LogId Entry) (r : WalRecord LogId Entry)
      → SameLog a b
      → SameLog (apply index entry_index a r) (apply index entry_index b r)
  unfolding apply
  apply-SameLog a b (entry e) s = record {
    entries = λ k. ground (
      arith,
      get-insert a.entries (entry_index e) k e,
      get-insert b.entries (entry_index e) k e,
      s.entries k,
    );
    last_purged = s.last_purged;
    committed = s.committed;
  }
  apply-SameLog a b (truncate_from i) s = record {
    entries = λ k.
        get-remove_where (λ j. leb i j) a.entries k
        ∙ ap (λ o. if leb i k then none else o) (s.entries k)
        ∙ sym (get-remove_where (λ j. leb i j) b.entries k);
    last_purged = s.last_purged;
    committed = s.committed;
  }
  apply-SameLog a b (purge p) s = record {
    entries = λ k.
        get-remove_where (λ j. leb j (index p)) a.entries k
        ∙ ap (λ o. if leb k (index p) then none else o) (s.entries k)
        ∙ sym (get-remove_where (λ j. leb j (index p)) b.entries k);
    last_purged = refl;
    committed = s.committed;
  }
  apply-SameLog a b (committed c) s = record {
    entries = s.entries;
    last_purged = s.last_purged;
    committed = refl;
  }
  apply-SameLog a b (checkpoint p c) s = record {
    entries = s.entries;
    last_purged = ap (λ o. or_else o p) s.last_purged;
    committed = ap (λ o. or_else o c) s.committed;
  }

  pub replay-SameLog :
      (a b : WalState LogId Entry) (rs : List (WalRecord LogId Entry))
      → SameLog a b
      → SameLog (replay index entry_index a rs) (replay index entry_index b rs)
  unfolding replay
  replay-SameLog a b [] s = s
  replay-SameLog a b (r ∷ rs) s =
      replay-SameLog (apply index entry_index a r) (apply index entry_index b r) rs
        (apply-SameLog a b r s)
