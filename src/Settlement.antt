-- ===== src/Settlement.antt =====
-- src/internal/settlement: from billable records to amounts settled on the chain.
pub mod Floats
pub mod Records
pub mod Pricing
pub mod Leaves
pub mod Settle
pub mod Scanner
pub mod Aggregator
pub mod Balance
pub mod Settler
pub mod Merkle
pub mod Pricer
pub mod Reconciler
mod Tests
