-- ===== src/Wal/Tests.antt =====
-- Runs of the scan with numbers for log ids and entries: a file of three records, and the same file
-- torn in its last record.
use native.Mathlib.Nat.{mod-lt}
use aether_engine.Prelude.{
  ℕ, zero, suc, ◌+◌, ◌%◌, ◌^◌, ◌≤◌, ◌≡◌, refl, List, [], ◌∷◌, ◌++◌, Option, none, some, arith, take,
}
use aether_engine.Wal.State.{WalRecord, entry, truncate_from, purge, committed, checkpoint}
use aether_engine.Wal.Frame.{Codec, frames, scan}
use aether_engine.Wal.Frame.Recovery.{Cut, size, scan_recovers_prefix}

abbrev option_bytes : Option ℕ → List ℕ
option_bytes none = 0 ∷ []
option_bytes (some n) = 1 ∷ n ∷ []

abbrev serialize : WalRecord ℕ ℕ → List ℕ
serialize (entry e) = 0 ∷ e ∷ []
serialize (truncate_from i) = 1 ∷ i ∷ []
serialize (purge p) = 2 ∷ p ∷ []
serialize (committed c) = 3 ∷ option_bytes c
serialize (checkpoint p c) = 4 ∷ option_bytes p ++ option_bytes c

abbrev deserialize : List ℕ → Option (WalRecord ℕ ℕ)
deserialize (zero ∷ e ∷ []) = some (entry e)
deserialize ((suc zero) ∷ i ∷ []) = some (truncate_from i)
deserialize ((suc (suc zero)) ∷ p ∷ []) = some (purge p)
deserialize ((suc (suc (suc zero))) ∷ zero ∷ []) = some (committed none)
deserialize ((suc (suc (suc zero))) ∷ (suc zero) ∷ c ∷ []) = some (committed (some c))
deserialize ((suc (suc (suc (suc zero)))) ∷ zero ∷ zero ∷ []) = some (checkpoint none none)
deserialize ((suc (suc (suc (suc zero)))) ∷ zero ∷ (suc zero) ∷ c ∷ []) =
    some (checkpoint none (some c))
deserialize ((suc (suc (suc (suc zero)))) ∷ (suc zero) ∷ p ∷ zero ∷ []) =
    some (checkpoint (some p) none)
deserialize ((suc (suc (suc (suc zero)))) ∷ (suc zero) ∷ p ∷ (suc zero) ∷ c ∷ []) =
    some (checkpoint (some p) (some c))
deserialize _ = none

pub deserialize-serialize : (r : WalRecord ℕ ℕ) → deserialize (serialize r) ≡ some r
deserialize-serialize (entry e) = refl
deserialize-serialize (truncate_from i) = refl
deserialize-serialize (purge p) = refl
deserialize-serialize (committed none) = refl
deserialize-serialize (committed (some c)) = refl
deserialize-serialize (checkpoint none none) = refl
deserialize-serialize (checkpoint none (some c)) = refl
deserialize-serialize (checkpoint (some p) none) = refl
deserialize-serialize (checkpoint (some p) (some c)) = refl

-- A checksum by addition.
abbrev sum : List ℕ → ℕ
sum [] = 0
sum (b ∷ bytes) = b + sum bytes

abbrev pub codec : Codec ℕ ℕ
codec = record {
  serialize = serialize;
  deserialize = deserialize;
  crc32 = λ bytes. sum bytes % 2 ^ 32;
  deserialize_serialize = deserialize-serialize;
  crc32_small = λ bytes. mod-lt (sum bytes) (omega arith);
}

abbrev three : List (WalRecord ℕ ℕ)
three = checkpoint none none ∷ entry 5 ∷ committed (some 5) ∷ []

-- The file has 32 bytes, of which the last record takes 11.
inside : 29 ≤ size codec three
unfolding frames
inside = omega arith

scan_recovers_prefix_example : Cut codec three 29 0 (scan codec (take 29 (frames codec three)))
scan_recovers_prefix_example =
    scan_recovers_prefix codec three 29 (omega arith, (omega arith, (omega arith, tt))) inside

torn : (scan codec (take 29 (frames codec three))).good ≡ 21
unfolding scan frames
torn = refl
