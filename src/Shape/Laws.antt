-- ===== src/Shape/Laws.antt =====
-- The theorems about shapes: replacements that keep the values of a shape.
pub mod Faithful
pub mod Single
pub mod Filters
pub mod Quads
pub mod Gather
pub mod Nodes
pub mod Parts
pub mod Union
pub mod Passes
pub mod Sorting
pub mod Pinned
pub mod Action
pub mod Push
pub mod Scanned
pub mod Body
pub mod Intersect
pub mod Path
pub mod Built
pub mod Rewrite
pub mod Page
