-- ===== src/Graph.antt =====
-- The package graph: values and tags, the iterator interface, transactions.
pub mod Value
pub mod Tagger
pub mod Stats
pub mod Transaction
pub mod Iterator
pub mod Iterate
