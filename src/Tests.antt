-- ===== src/Tests.antt =====
-- Concrete inputs for the theorems.
mod Numbers
mod Bits
mod FlatIndex
mod Storage
mod Lifetime
mod Snapshot
mod Graph
mod Search
mod Bindings
mod Loading
mod Server
mod Filters
mod Built
mod Revival
