-- ===== src/Wal/Log/Prefix.antt =====
-- A log without a prefix of its records: what a purge behind it makes up for.
use aether_engine.Prelude.{
  ℕ, ◌≤◌, ◌<◌, ◌≡◌, ◌⊎◌, inl, inr, refl, sym, ap, ◌∙◌, List, [], ◌∷◌, ◌++◌, Option, none,
  if◌then◌else◌, arith, leb, nat_eq, All,
}
use aether_engine.Prelude.HashMap.{get, get-insert}
use aether_engine.Wal.State.{
  WalRecord, entry, truncate_from, purge, committed, checkpoint, WalState, apply, replay,
  replay-append, or_else, get-remove_where,
}
use aether_engine.Wal.State as State
use aether_engine.Wal.SameLog.{SameLog}
use aether_engine.Wal.Log.Durable.{or_else_self}

module _ {LogId Entry : Type 0} (index : LogId → ℕ) (entry_index : Entry → ℕ) where
  -- The record is no entry above the limit.
  abbrev pub IsBelow : ℕ → WalRecord LogId Entry → Type 0
  IsBelow limit (entry e) = entry_index e ≤ limit
  IsBelow limit (truncate_from i) = Unit
  IsBelow limit (purge p) = Unit
  IsBelow limit (committed c) = Unit
  IsBelow limit (checkpoint p c) = Unit

  -- Two states that differ below the limit only, and in the purge pointer.
  record Above (limit : ℕ) (a b : WalState LogId Entry) : Type 0 where
    pub entries : (k : ℕ) → limit < k → get a.entries k ≡ get b.entries k
    pub committed : a.committed ≡ b.committed

  apply-Above :
      (limit : ℕ) (a b : WalState LogId Entry) (r : WalRecord LogId Entry)
      → Above limit a b
      → Above limit (apply index entry_index a r) (apply index entry_index b r)
  unfolding apply
  apply-Above limit a b (entry e) s = record {
    entries = λ k h. ground (
      arith,
      get-insert a.entries (entry_index e) k e,
      get-insert b.entries (entry_index e) k e,
      s.entries k h,
    );
    committed = s.committed;
  }
  apply-Above limit a b (truncate_from i) s = record {
    entries = λ k h.
        get-remove_where (λ j. leb i j) a.entries k
        ∙ ap (λ o. if leb i k then none else o) (s.entries k h)
        ∙ sym (get-remove_where (λ j. leb i j) b.entries k);
    committed = s.committed;
  }
  apply-Above limit a b (purge p) s = record {
    entries = λ k h.
        get-remove_where (λ j. leb j (index p)) a.entries k
        ∙ ap (λ o. if leb k (index p) then none else o) (s.entries k h)
        ∙ sym (get-remove_where (λ j. leb j (index p)) b.entries k);
    committed = s.committed;
  }
  apply-Above limit a b (committed c) s = record { entries = s.entries; committed = refl }
  apply-Above limit a b (checkpoint p c) s = record {
    entries = s.entries;
    committed = ap (λ o. or_else o c) s.committed;
  }

  replay-Above :
      (limit : ℕ) (a b : WalState LogId Entry) (rs : List (WalRecord LogId Entry))
      → Above limit a b
      → Above limit (replay index entry_index a rs) (replay index entry_index b rs)
  unfolding replay
  replay-Above limit a b [] s = s
  replay-Above limit a b (r ∷ rs) s =
      replay-Above limit (apply index entry_index a r) (apply index entry_index b r) rs
        (apply-Above limit a b r s)

  -- The purge itself removes what differs.
  purge-Above :
      (p : LogId) (a b : WalState LogId Entry)
      → Above (index p) a b
      → SameLog (apply index entry_index a (purge p)) (apply index entry_index b (purge p))
  unfolding apply
  purge-Above p a b s = record {
    entries = λ k. ground (
      arith,
      get-remove_where (λ j. leb j (index p)) a.entries k,
      get-remove_where (λ j. leb j (index p)) b.entries k,
      s.entries k,
    );
    last_purged = refl;
    committed = s.committed;
  }

  -- Records without an entry above the limit put none into the state.
  apply_below :
      (limit : ℕ) (s : WalState LogId Entry) (r : WalRecord LogId Entry)
      → ((k : ℕ) → limit < k → get s.entries k ≡ none)
      → IsBelow limit r
      → (k : ℕ) → limit < k
      → get (apply index entry_index s r).entries k ≡ none
  unfolding apply
  apply_below limit s (entry e) h b k l =
      ground (arith, get-insert s.entries (entry_index e) k e, h k l)
  apply_below limit s (truncate_from i) h b k l =
      ground (arith, get-remove_where (λ j. leb i j) s.entries k, h k l)
  apply_below limit s (purge p) h b k l =
      ground (arith, get-remove_where (λ j. leb j (index p)) s.entries k, h k l)
  apply_below limit s (committed c) h b k l = h k l
  apply_below limit s (checkpoint p c) h b k l = h k l

  replay_below :
      (limit : ℕ) (s : WalState LogId Entry) (rs : List (WalRecord LogId Entry))
      → ((k : ℕ) → limit < k → get s.entries k ≡ none)
      → All (IsBelow limit) rs
      → (k : ℕ) → limit < k
      → get (replay index entry_index s rs).entries k ≡ none
  unfolding replay
  replay_below limit s [] h b = h
  replay_below limit s (r ∷ rs) h b =
      replay_below limit (apply index entry_index s r) rs (apply_below limit s r h b.0) b.1

  -- What is left of the disk opens with a checkpoint that restates the committed pointer, or all is left.
  abbrev pub Restates : List (WalRecord LogId Entry) → List (WalRecord LogId Entry) → Type 0
  Restates dead rest =
      (dead ≡ [])
      ⊎ ((p : Option LogId) × (tail : List (WalRecord LogId Entry)) × (rest
            ≡ checkpoint p (replay index entry_index State.empty dead).committed ∷ tail))

  -- Without the dead prefix the replay ends, behind the purge, in the same log.
  pub drop_prefix :
      (p : LogId) (dead rest : List (WalRecord LogId Entry))
      → All (IsBelow (index p)) dead
      → Restates dead rest
      → SameLog
          (replay index entry_index State.empty (rest ++ purge p ∷ []))
          (replay index entry_index State.empty ((dead ++ rest) ++ purge p ∷ []))
  unfolding replay apply get
  drop_prefix p dead rest b r =
      rw
        (
          replay-append index entry_index State.empty rest (purge p ∷ []),
          replay-append index entry_index State.empty (dead ++ rest) (purge p ∷ []),
          replay-append index entry_index State.empty dead rest,
        )
        (purge-Above p _ _ (go r))
    where
      go :
          Restates dead rest
          → Above
              (index p)
              (replay index entry_index State.empty rest)
              (replay index entry_index (replay index entry_index State.empty dead) rest)
      go (inl e) = rw e (record { entries = λ k l. refl; committed = refl })
      go (inr (q, tail, e)) =
          let s : WalState LogId Entry = replay index entry_index State.empty dead in
          rw e (
            replay-Above (index p) _ (apply index entry_index s (checkpoint q s.committed)) tail
              (record {
                entries = λ k l. sym (replay_below (index p) State.empty dead (λ j h. refl) b k l);
                committed = sym (or_else_self s.committed);
              }))
