-- ===== src/Db.antt =====
-- packages/db/src: the SQLite repositories, over tables that are lists of rows.
pub mod Table
pub mod Suppression
pub mod Findings
pub mod Scans
pub mod Leases
pub mod Snapshots
pub mod Accounts
pub mod Results
