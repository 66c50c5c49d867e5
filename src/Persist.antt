-- ===== src/Persist.antt =====
-- crates/vex-core/src/persist.rs: an index of either kind, and the binary snapshot format. A writer
-- is the list of the bytes written, a reader a function of the bytes that are left.
pub mod Format
pub mod Write
pub mod Read
pub mod Any
pub mod Bytes
pub mod Values
pub mod FlatRoundTrip
pub mod NodeValues
pub mod NodeMap
pub mod HnswRoundTrip
pub mod Revival
pub mod Sound
pub mod Queries
