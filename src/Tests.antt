-- ===== src/Tests.antt =====
-- The theorems of the library at concrete inputs, and small runs of its definitions.
pub mod Iterators
pub mod Transactions
pub mod Chains
pub mod Counts
pub mod Paths
pub mod Shapes
pub mod Stores
pub mod Streams
pub mod Tags
