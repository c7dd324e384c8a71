-- ===== src/Graph.antt =====
-- crates/graph/src: the ontology schema and the in-memory graph.
pub mod Ids
pub mod Model
pub mod Schema
pub mod State
pub mod Payloads
pub mod Concepts
pub mod Relations
pub mod Removal
pub mod Listing
pub mod Rules
pub mod Actions
pub mod Traversal
mod Examples
