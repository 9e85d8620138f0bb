-- ===== src/Graph.antt =====
-- packages/graph/src: the normalized graph and the pure passes over it.
pub mod Schema
pub mod Containment
pub mod Integrity
pub mod Json
pub mod Values
pub mod Redact
pub mod Diff
