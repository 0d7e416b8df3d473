-- ===== src/Orderbook.antt =====
-- src/orderbook.rs: the order book of one market. The children hold its data (`Types`), the B-tree
-- of price levels (`Levels`), resting orders (`Resting`), matching (`Matching`), the volume checks
-- (`Volume`) and the views (`Views`); the others prove properties of these.
pub mod Types
pub mod Levels
pub mod Resting
pub mod Volume
pub mod Matching
pub mod Views
pub mod Validity
pub mod Measure
pub mod Walk
pub mod Trim
pub mod Placement
pub mod Insertion
pub mod Crossing
pub mod Filling
pub mod Rejection
pub mod Appended
pub mod Reduction
pub mod Upkeep
pub mod Summary
pub mod Entries
pub mod Capacity
pub mod Cancellation
pub mod Flat
pub mod Priority
