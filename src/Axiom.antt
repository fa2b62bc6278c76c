-- ===== src/Axiom.antt =====
-- Axiom (vendor/newrelic/axiom): the segments of a transaction, the containers that they are kept
-- in, and the exclusive time of a segment.
pub mod Vector
pub mod Stack
pub mod Children
pub mod ExclusiveTime
pub mod Ranking
pub mod Slab
pub mod Segment
pub mod Txn
mod Tests
mod TxnTests
mod SlabTests
