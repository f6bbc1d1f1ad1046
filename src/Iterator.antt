-- ===== src/Iterator.antt =====
-- The package graph/iterator.
pub mod Laws
pub mod Sweep
pub mod Fixed
pub mod And
pub mod Or
pub mod Limit
pub mod Skip
pub mod Not
pub mod Unique
pub mod Optional
pub mod Count
