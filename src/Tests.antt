-- ===== src/Tests.antt =====
-- The theorems at concrete inputs.
pub mod Clocks
pub mod Waits
pub mod Routes
pub mod Blocks
pub mod Shares
pub mod Searches
pub mod Majorities
pub mod Overlaps
pub mod Deliveries
pub mod Networks
pub mod Races
pub mod Exchanges
pub mod BothWays
pub mod Types
pub mod Interfaces
pub mod Consensus
pub mod Deciding
pub mod Results
pub mod Clients
