-- ===== src/Viewer.antt =====
-- packages/viewer/src/lib: the pure parts of the viewer.
pub mod Reachability
