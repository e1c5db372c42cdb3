-- ===== src/Wal/Frame.antt =====
-- wal.rs: the framing of records on disk and the scan that recovers them.
pub mod Reading
pub mod Recovery
use aether_engine.Prelude.{
  ℕ, zero, suc, ◌+◌, ◌*◌, ◌/◌, ◌%◌, ◌^◌, ◌≤◌, ◌<◌, ◌≡◌, Bool, true, false, not, List, [], ◌∷◌, ◌++◌,
  Option, none, some, if◌then◌else◌, nat_eq, ◌==◌, ltb, length, is_empty, take, drop,
}
use aether_engine.Wal.State.{WalRecord}

-- The `bincode` of a record and the `crc32fast` checksum: what is serialized deserializes again, and
-- a checksum is a `u32`.
pub record Codec (LogId Entry : Type 0) : Type 0 where
  pub serialize : WalRecord LogId Entry → List ℕ
  pub deserialize : List ℕ → Option (WalRecord LogId Entry)
  pub crc32 : List ℕ → ℕ
  pub deserialize_serialize : (r : WalRecord LogId Entry) → deserialize (serialize r) ≡ some r
  pub crc32_small : (bytes : List ℕ) → crc32 bytes < 2 ^ 32

-- `u32::to_le_bytes`, with the cast to `u32`, and back.
unfoldable pub to_le_bytes : ℕ → List ℕ
to_le_bytes n = n % 256 ∷ n / 256 % 256 ∷ n / 65536 % 256 ∷ n / 16777216 % 256 ∷ []

unfoldable pub from_le_bytes : ℕ → ℕ → ℕ → ℕ → ℕ
from_le_bytes a b c d = a + 256 * b + 65536 * c + 16777216 * d

-- The length and checksum fields at the head of the bytes, and what follows them; `none` when fewer
-- than `FRAME_HEADER` bytes are left.
unfoldable pub header : List ℕ → Option (ℕ × ℕ × List ℕ)
unfolding from_le_bytes
header (a ∷ b ∷ c ∷ d ∷ e ∷ f ∷ g ∷ h ∷ body) =
    some (from_le_bytes a b c d, from_le_bytes e f g h, body)
header _ = none

-- What a scan found: the records, the offset up to which the file is good, and whether it was good
-- to its end (`corrupt_at` is `None`).
pub record Scan (LogId Entry : Type 0) : Type 0 where
  pub records : List (WalRecord LogId Entry)
  pub good : ℕ
  pub clean : Bool

module _ {LogId Entry : Type 0} (codec : Codec LogId Entry) where
  open codec use {serialize, deserialize, crc32}

  unfoldable pub frame : List ℕ → List ℕ
  unfolding to_le_bytes
  frame payload = to_le_bytes (length payload) ++ (to_le_bytes (crc32 payload) ++ payload)

  unfoldable pub frames : List (WalRecord LogId Entry) → List ℕ
  unfolding frame
  frames [] = []
  frames (r ∷ rs) = frame (serialize r) ++ frames rs

  abbrev pub stop : ℕ → Bool → Scan LogId Entry
  stop offset clean = record { records = []; good = offset; clean = clean }

  abbrev pub push : WalRecord LogId Entry → Scan LogId Entry → Scan LogId Entry
  push r s = record s { records = r ∷ s.records }

  -- One round of the loop on a complete header, with the rounds that follow it.
  unfoldable pub scan_payload : ℕ → ℕ → ℕ → List ℕ → Scan LogId Entry → Scan LogId Entry
  scan_payload offset len crc body later =
      if ltb (length body) len
      then stop offset false
      else if crc32 (take len body) == crc
      then elim (deserialize (take len body)) [ none ↦ stop offset false | some r ↦ push r later ]
      else stop offset false

  -- The loop over the bytes from the offset on. Each round consumes a header, so that more fuel than
  -- there are bytes is never used up.
  unfoldable pub scan_from : ℕ → ℕ → List ℕ → Scan LogId Entry
  unfolding header scan_payload
  scan_from zero offset rest = stop offset false
  scan_from (suc fuel) offset rest = elim (header rest) [
    | none ↦ stop offset (is_empty rest)
    | some (len, crc, body) ↦
        scan_payload offset len crc body (scan_from fuel (offset + 8 + len) (drop len body))
  ]

  unfoldable pub scan : List ℕ → Scan LogId Entry
  unfolding scan_from
  scan bytes = scan_from (suc (length bytes)) 0 bytes
