-- ===== src/Shard.antt =====
-- crates/common/src/shard.rs and the ownership test of crates/shard-node/src/ingest.rs: which shard
-- or virtual shard a key hashes to, and what a node keeps of the ingest stream.
pub mod Placement
pub mod Tests
use Prim.Native.Nat.{bit_xor}
use aether_engine.Prelude.{
  ℕ, ◌*◌, ◌%◌, ◌^◌, String, Bool, true, false, Option, none, some, List, [], ◌∷◌, length, get_elem?,
  if◌then◌else◌, ◌==◌, nat_eq,
}
use aether_engine.Prelude.Text.{as_bytes, encode}

abbrev pub fnv_offset_basis : ℕ
fnv_offset_basis = 0xcbf29ce484222325

abbrev pub fnv_prime : ℕ
fnv_prime = 0x100000001b3

-- The loop over the bytes, from the hash so far.
pub fnv1a_from : ℕ → List ℕ → ℕ
fnv1a_from hash [] = hash
fnv1a_from hash (byte ∷ key) = fnv1a_from (bit_xor hash byte * fnv_prime % 2 ^ 64) key

unfoldable pub fnv1a_64 : List ℕ → ℕ
unfolding fnv1a_from
fnv1a_64 key = fnv1a_from fnv_offset_basis key

-- `shard_count` is a `NonZeroU32`: the theorems take `0 < shard_count`.
unfoldable pub shard_for : String → ℕ → ℕ
unfolding fnv1a_64 encode
shard_for icao24 shard_count = fnv1a_64 (as_bytes icao24) % shard_count % 2 ^ 32

unfoldable pub vshard_for : String → ℕ → ℕ
unfolding shard_for
vshard_for icao24 vshard_count = shard_for icao24 vshard_count

pub record ShardAssignment : Type 0 where
  pub index : ℕ
  pub count : ℕ

-- The table behind the `Arc<RwLock<..>>` is the value read under the lock.
pub data Ownership : Type 0 where
  all : Ownership
  modulo : ShardAssignment → Ownership
  mapped : ℕ → List ℕ → Ownership

-- `ShardAssignment::owns`.
pub assignment_owns : ShardAssignment → String → Bool
assignment_owns a icao24 = shard_for icao24 a.count == a.index

-- `table.get(vshard).copied() == Some(group)`.
abbrev pub is_group : Option ℕ → ℕ → Bool
is_group none group = false
is_group (some g) group = g == group

-- The lookup of `Mapped`; `NonZeroU32::new(table.len() as u32)` refuses a length of zero.
pub mapped_owns : ℕ → List ℕ → String → Bool
mapped_owns group table icao24 =
    let v = length table % 2 ^ 32 in
    if v == 0 then false else is_group (get_elem? table (vshard_for icao24 v)) group

unfoldable pub owns : Ownership → String → Bool
unfolding assignment_owns mapped_owns
owns all icao24 = true
owns (modulo a) icao24 = assignment_owns a icao24
owns (mapped group table) icao24 = mapped_owns group table icao24
