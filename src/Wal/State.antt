-- ===== src/Wal/State.antt =====
-- wal.rs: the records of the log and the state that they fold into. The types of openraft are
-- parameters: a log id, an entry, and the index that each carries.
use aether_engine.Prelude.{
  ℕ, ◌≡◌, refl, ◌∙◌, Bool, ◌&&◌, List, [], ◌∷◌, ◌++◌, Option, none, some, if◌then◌else◌, arith,
  nat_eq, ◌==◌, beq→eq, any, is_some, leb,
}
use aether_engine.Prelude.HashMap
use aether_engine.Prelude.HashMap.{HashMap, get, get-insert, get-remove}

pub data WalRecord (LogId Entry : Type 0) : Type 0 where
  entry : Entry → WalRecord LogId Entry
  truncate_from : ℕ → WalRecord LogId Entry
  purge : LogId → WalRecord LogId Entry
  committed : Option LogId → WalRecord LogId Entry
  checkpoint : Option LogId → Option LogId → WalRecord LogId Entry

pub record WalState (LogId Entry : Type 0) : Type 0 where
  pub entries : HashMap ℕ Entry
  pub last_purged : Option LogId
  pub committed : Option LogId

abbrev pub empty : {LogId Entry : Type 0} → WalState LogId Entry
empty = record { entries = []; last_purged = none; committed = none }

-- `range(..).map(|(k, _)| *k).collect()`, then `remove` for each key.
unfoldable pub keys_where : {V : Type 0} → (ℕ → Bool) → HashMap ℕ V → List ℕ
keys_where p [] = []
keys_where p ((k, v) ∷ m) = if p k then k ∷ keys_where p m else keys_where p m

unfoldable pub remove_keys : {V : Type 0} → HashMap ℕ V → List ℕ → HashMap ℕ V
remove_keys m [] = m
remove_keys m (k ∷ ks) = remove_keys (HashMap.remove m k) ks

abbrev pub remove_where : {V : Type 0} → (ℕ → Bool) → HashMap ℕ V → HashMap ℕ V
remove_where p m = remove_keys m (keys_where p m)

abbrev pub or_else : {A : Type 0} → Option A → Option A → Option A
or_else none b = b
or_else (some a) b = some a

module _ {LogId Entry : Type 0} (index : LogId → ℕ) (entry_index : Entry → ℕ) where
  unfoldable pub apply : WalState LogId Entry → WalRecord LogId Entry → WalState LogId Entry
  apply s (entry e) = record s { entries = HashMap.insert s.entries (entry_index e) e }
  apply s (truncate_from i) = record s { entries = remove_where (λ k. leb i k) s.entries }
  apply s (purge p) = record s {
    entries = remove_where (λ k. leb k (index p)) s.entries;
    last_purged = some p;
  }
  apply s (committed c) = record s { committed = c }
  apply s (checkpoint p c) = record s {
    last_purged = or_else s.last_purged p;
    committed = or_else s.committed c;
  }

  -- The fold of a record stream.
  unfoldable pub replay : WalState LogId Entry → List (WalRecord LogId Entry) → WalState LogId Entry
  unfolding apply
  replay s [] = s
  replay s (r ∷ rs) = replay (apply s r) rs

  pub replay-append :
      (s : WalState LogId Entry) (rs qs : List (WalRecord LogId Entry))
      → replay s (rs ++ qs) ≡ replay (replay s rs) qs
  unfolding replay
  replay-append s [] qs = refl
  replay-append s (r ∷ rs) qs = replay-append (apply s r) rs qs

abbrev among : ℕ → List ℕ → Bool
among k = any (λ j. j == k)

module _ {V : Type 0} where
  get-remove_keys :
      (m : HashMap ℕ V) (ks : List ℕ) (k : ℕ)
      → get (remove_keys m ks) k ≡ (if among k ks then none else get m k)
  unfolding remove_keys any
  get-remove_keys m [] k = refl
  get-remove_keys m (j ∷ ks) k =
      ground (arith, get-remove_keys (HashMap.remove m j) ks k, get-remove m j k)

  among-keys_where :
      (p : ℕ → Bool) (m : HashMap ℕ V) (k : ℕ)
      → among k (keys_where p m) ≡ (p k && is_some (get m k))
  unfolding keys_where any get
  among-keys_where p [] k = ground arith
  among-keys_where p ((j, v) ∷ m) k = ground (arith, among-keys_where p m k, beq→eq j k)

  -- What the two loops leave: the entries whose key fails the test.
  pub get-remove_where :
      (p : ℕ → Bool) (m : HashMap ℕ V) (k : ℕ)
      → get (remove_where p m) k ≡ (if p k then none else get m k)
  get-remove_where p m k =
      get-remove_keys m (keys_where p m) k ∙ ground (arith, among-keys_where p m k)
