-- ===== src/Db/Snapshots.antt =====
-- packages/db/src/sqlite.ts: `snapshotRepo`. The graph column holds the graph that is serialized.
use kumomiru.Prelude.{ℕ, String, Option, none, some, List, [], ◌∷◌, ◌++◌, ◌==◌, keep_if, length}
use kumomiru.Graph.Schema.{Graph}
use kumomiru.Db.Table

pub record SnapshotRow : Type 0 where
  pub id : String
  pub scan_id : String
  pub account_id : String
  pub generated_at : String
  pub source : String
  pub graph : Graph
  pub node_count : ℕ
  pub edge_count : ℕ
  pub finding_count : ℕ
  pub prev_snapshot_id : Option String
  pub created_at : String

abbrev pub snapshot_id : SnapshotRow → String
snapshot_id s = s.id

unfoldable pub latest : String → List SnapshotRow → Option SnapshotRow
latest account t = Table.last_by (λ s. s.generated_at) (keep_if (λ s. s.account_id == account) t)

abbrev id_of : Option SnapshotRow → Option String
id_of none = none
id_of (some s) = some s.id

-- The graph with its `meta.snapshotId` and `meta.scanId` filled in.
abbrev pub stamped : String → String → Graph → Graph
stamped id scan g = record g { meta = record g.meta { snapshot_id = some id; scan_id = some scan } }

unfoldable pub new_snapshot :
    String → String → String → String → Graph → List SnapshotRow → SnapshotRow
unfolding latest
new_snapshot id now scan account g t = record {
  id = id;
  scan_id = scan;
  account_id = account;
  generated_at = g.meta.generated_at;
  source = g.meta.source;
  graph = stamped id scan g;
  node_count = length g.nodes;
  edge_count = length g.edges;
  finding_count = length g.findings;
  prev_snapshot_id = id_of (latest account t);
  created_at = now;
}

unfoldable pub insert :
    String → String → String → String → Graph → List SnapshotRow → SnapshotRow × List SnapshotRow
unfolding new_snapshot
insert id now scan account g t = let s = new_snapshot id now scan account g t in (s, t ++ s ∷ [])

abbrev graph_of : Option SnapshotRow → Option Graph
graph_of none = none
graph_of (some s) = some s.graph

unfoldable pub get_graph : String → List SnapshotRow → Option Graph
get_graph id t = graph_of (Table.get snapshot_id id t)
