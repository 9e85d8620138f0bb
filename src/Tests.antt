-- ===== src/Tests.antt =====
-- Runs of the model, and the theorems applied to small data.
mod Graphs
mod Tables
mod Analyses
mod Jobs
mod Scans
mod Secrets
mod Checks
mod Access
mod Feeds
