-- ===== src/Db/Results.antt =====
-- packages/db/src/sqlite-lifecycle.ts: `ruleResultRepo` and `diffRepo`.
use kumomiru.Prelude.{
  String, Bool, not, ◌&&◌, Option, none, some, List, [], ◌∷◌, ◌++◌, map, ◌==◌, keep_if, any,
  if◌then◌else◌,
}
use kumomiru.JsMap
use kumomiru.Graph.Diff.{SnapshotDiff}

pub data RuleStatus : Type 0 where
  pass fail not_applicable not_assessed : RuleStatus

pub record RuleResult : Type 0 where
  pub rule_id : String
  pub resource_id : String
  pub resource_type : String
  pub status : RuleStatus

-- A row of `rule_results` is a snapshot id and a result. PRIMARY KEY (snapshot_id, rule_id, resource_id).
abbrev pub same_row : String → RuleResult → String × RuleResult → Bool
same_row snapshot r row =
    row.0 == snapshot && (row.1.rule_id == r.rule_id && row.1.resource_id == r.resource_id)

-- The loop of `ins.run`. None is the exception of the insertion that the primary key refuses.
unfoldable pub insert_results :
    String → List RuleResult → List (String × RuleResult) → Option (List (String × RuleResult))
unfolding any
insert_results snapshot [] t = some t
insert_results snapshot (r ∷ rs) t =
    let rest = insert_results snapshot rs (t ++ (snapshot, r) ∷ []) in
    if any (same_row snapshot r) t then none else rest

-- One transaction: where it throws, the table is as before.
unfoldable pub replace_for_snapshot :
    String → List RuleResult → List (String × RuleResult) → Option (List (String × RuleResult))
unfolding insert_results keep_if
replace_for_snapshot snapshot results t =
    insert_results snapshot results (keep_if (λ row. not (row.0 == snapshot)) t)

unfoldable pub for_snapshot : String → List (String × RuleResult) → List RuleResult
for_snapshot snapshot t = map (λ row. row.1) (keep_if (λ row. row.0 == snapshot) t)

-- `scan_diffs`, an upsert on the snapshot id.
unfoldable pub set_diff :
    String → SnapshotDiff → List (String × SnapshotDiff) → List (String × SnapshotDiff)
set_diff = JsMap.set

unfoldable pub get_diff : String → List (String × SnapshotDiff) → Option SnapshotDiff
get_diff = JsMap.get
