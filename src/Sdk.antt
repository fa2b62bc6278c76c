-- ===== src/Sdk.antt =====
-- The functions of src/*.c, the SDK proper.
pub mod Config
pub mod Machine
pub mod Datastore
pub mod External
pub mod Segment
pub mod Global
pub mod App
pub mod Transaction
pub mod Attribute
pub mod CustomEvent
pub mod Error
pub mod DistributedTrace
pub mod Stack
pub mod Api
mod Fixture
mod SegmentTests
mod Tests
mod ClientTests
