-- ===== src/Lib.antt =====
-- Verification of kumomiru: the graph of a cloud account, the passes that build it, the rules that
-- judge it, and the store that keeps what was found.
--
-- A scan merges the graphs of its passes (packages/adapters/src/common/merge.ts), marks the principals
-- of other registered accounts (analysis/stitch.ts), checks the references of the graph
-- (packages/graph/src/validate.ts), evaluates the rules (packages/rules/src/run.ts), reconciles the
-- findings with those of earlier scans (packages/db/src/sqlite-lifecycle.ts) and compares the snapshot
-- with the one before (packages/graph/src/diff.ts). The API redacts a graph that is shared
-- (packages/graph/src/redact.ts), and the viewer walks it (packages/viewer/src/lib/reachability.ts).
--
-- Prelude, JsSet, JsMap and Glob hold what the parts share: Boolean tests, lists, the `Set` and the
-- `Map` of the source in their order of insertion, and the matcher of the globs.
-- Graph: packages/graph/src. Schema is schema.ts, Integrity is checkReferentialIntegrity, Redact is
-- redactGraph, Diff is diffSnapshots, with JSON.stringify in Json and
-- the reading of unknown values in Values.
-- Adapters: packages/adapters/src. Merge is mergeGraphs, Stitch is stitchKnownAccounts, Policy is
-- evaluate and its globs, Iam is analyzeAssumeRole, with its patterns in Arn, ResourceAccess is
-- analyzeResourceAccess, Dataflow is analyzeDataflow, HashId is hashId, Credentials is the broker of
-- aws-live/credentials.ts. PolicyDoc, Ingress, Containers and Sanitize, with its regular
-- expressions in Regex, are the files of those names in common,
-- Asff and AccessAnalyzer those in feeds, with their ids in Slug. `Date.parse`, `JSON.parse`,
-- `decodeURIComponent`, `trim` and `toLowerCase` are arguments of what calls them.
-- Db: packages/db/src. A table is the list of its rows; an operation takes the table and gives it
-- back. `now` is what the clock says, and a fresh id is an argument. Table has what the tables share;
-- Accounts, Scans, Snapshots and Leases are sqlite.ts, Findings, Suppression and Results are
-- sqlite-lifecycle.ts. `enqueue` runs with nothing between its two statements where a loop of the worker
-- calls it; Scans.Races has its insertion as a step of its own, between the writes of other processes.
-- Rules: packages/rules/src. Run is evaluate, Registry, Ids and Compliance are the files of those
-- names, Frameworks has the catalogues, and Checks the built-in rules, a module for each file of
-- packages/rules/src/checks.
-- Worker: packages/worker/src. Schedule is isDue, with the cron library as an argument; Scheduler is
-- the loop of the tick that queues scans, Drain the loop that runs them, ScanJob is runScan, with what AWS
-- answers and which writes of the store throw as an argument; the write that marks a scan as failed does
-- not throw. OrgSync is runOrgSync, with the listing as an argument.
-- Viewer: packages/viewer/src/lib. Reachability is reachability.ts.
-- Tests runs the definitions and applies the theorems to small data.
--
-- An optional field is an `Option`, a `null` column too, and an enum a data type. Texts are ordered and
-- hashed as the source does, on UTF-16 code units for the globs and the hashes. The two reachability
-- walks take fuel, one more than the edges of the graph: a node is queued at most once, as the start or
-- as an end of an edge. The loop that runs the scans takes one more than the queued scans: each round
-- takes one out of the queue. Decimal and base 36 texts take the number of digits as fuel.
--
-- Not modelled: calls of the AWS SDK, HTTP, SQL text, the user interface, the Terraform mappings,
-- the collectors, and what another worker or a request writes while the worker runs a scan.
mod Prelude
pub mod JsSet
pub mod JsMap
pub mod Glob
pub mod Graph
pub mod Adapters
pub mod Db
pub mod Viewer
pub mod Rules
pub mod Worker
mod Tests
