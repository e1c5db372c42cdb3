-- ===== src/Wal.antt =====
-- crates/consensus/src/wal.rs: the write-ahead log of a raft member.
pub mod State
pub mod SameLog
pub mod Frame
pub mod Log
pub mod Open
pub mod Tests
