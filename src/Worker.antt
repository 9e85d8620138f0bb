-- ===== src/Worker.antt =====
-- packages/worker/src: the scheduler of the scans, and the sync with the organization.
pub mod Schedule
pub mod Scheduler
pub mod OrgSync
pub mod ScanJob
pub mod Drain
