-- ===== src/Exchange.antt =====
-- src/exchange.rs: the exchange. Its children hold the state and the calls that set it up (`State`),
-- the settlement of transactions (`Settle`), the order commands (`Orders`), the queries and the
-- dispatch (`Commands`), and the properties of these.
pub mod State
pub mod Settle
pub mod Orders
pub mod Commands
pub mod Totals
pub mod Conservation
pub mod Modification
pub mod Identity
pub mod Replies
pub mod Panics
pub mod Soundness
pub mod Placing
pub mod Liveness
pub mod Opening
pub mod Untouched
pub mod Refused
pub mod Books
pub mod Rings
pub mod Progress
pub mod Owners
pub mod Setup
pub mod Refusal
pub mod Supply
