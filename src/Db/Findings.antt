-- ===== src/Db/Findings.antt =====
-- packages/db/src/sqlite-lifecycle.ts: the findings table. A column `x_json` holds the value that
-- the code serializes. The repository runs inside one transaction, so its steps are a function.
pub mod Reconcile
pub mod Summary
pub mod Suppress
use kumomiru.Prelude.{
  ℕ, zero, suc, ◌+◌, String, Bool, true, false, not, ◌&&◌, ◌||◌, Option, none, some, List, [], ◌∷◌,
  ◌++◌, map, if◌then◌else◌, or_else, ◌==◌, keep_if, foldl, length,
}
use kumomiru.JsSet
use kumomiru.Graph.Schema.{
  Severity, Attributes, ControlRef, Remediation, FindingSource, Finding, info, low, medium, high,
  critical,
}
use kumomiru.Db.Table
use kumomiru.Db.Suppression.{SuppressionRecord, Target, match_suppression}

pub data Status : Type 0 where
  opened resolved suppressed : Status

pub record FindingRow : Type 0 where
  pub id : String
  pub account_id : String
  pub rule_id : Option String
  pub source : FindingSource
  pub severity : Severity
  pub kind : String
  pub resource_id : Option String
  pub resource_type : Option String
  pub title : String
  pub detail : String
  pub controls : List ControlRef
  pub remediation : Option Remediation
  pub evidence : Option Attributes
  pub external_id : Option String
  pub status : Status
  pub first_seen_at : String
  pub last_seen_at : String
  pub resolved_at : Option String
  pub last_snapshot_id : String
  pub suppression_id : Option String

abbrev pub row_id : FindingRow → String
row_id r = r.id

pub record ReconcileInput : Type 0 where
  pub account_id : String
  pub snapshot_id : String
  pub observed_at : String
  pub findings : List Finding
  pub suppressions : List SuppressionRecord

pub record ReconcileSummary : Type 0 where
  pub opened : List String
  pub reopened : List String
  pub resolved : List String
  pub suppressed : List String
  pub unchanged : ℕ

abbrev pub suppression_of : ReconcileInput → Finding → Option SuppressionRecord
suppression_of input f =
    match_suppression
      (record { rule_id = f.rule_id; node_id = f.node_id; account_id = input.account_id })
      input.suppressions input.observed_at

-- `sup ? "suppressed" : "open"` and `sup?.id ?? null`.
abbrev pub status_for : Option SuppressionRecord → Status
status_for none = opened
status_for (some s) = suppressed

abbrev pub id_of : Option SuppressionRecord → Option String
id_of none = none
id_of (some s) = some s.id

abbrev pub coalesce : Option String → Option String → Option String
coalesce none old = old
coalesce (some v) old = some v

-- The row that `insert` writes.
unfoldable pub inserted : ReconcileInput → Finding → FindingRow
inserted input f =
    let sup = suppression_of input f in
    record {
      id = f.id;
      account_id = input.account_id;
      rule_id = f.rule_id;
      source = or_else f.source FindingSource.native;
      severity = f.severity;
      kind = f.kind;
      resource_id = f.node_id;
      resource_type = f.resource_type;
      title = f.title;
      detail = f.detail;
      controls = or_else f.controls [];
      remediation = f.remediation;
      evidence = f.evidence;
      external_id = f.external_id;
      status = status_for sup;
      first_seen_at = input.observed_at;
      last_seen_at = input.observed_at;
      resolved_at = none;
      last_snapshot_id = input.snapshot_id;
      suppression_id = id_of sup;
    }

-- What `refresh` sets in a row.
unfoldable pub refreshed : ReconcileInput → Finding → FindingRow → FindingRow
refreshed input f r =
    let sup = suppression_of input f in
    record r {
      severity = f.severity;
      title = f.title;
      detail = f.detail;
      controls = or_else f.controls [];
      remediation = f.remediation;
      evidence = f.evidence;
      resource_type = coalesce f.resource_type r.resource_type;
      status = status_for sup;
      last_seen_at = input.observed_at;
      resolved_at = none;
      last_snapshot_id = input.snapshot_id;
      suppression_id = id_of sup;
    }

-- What `resolve` sets in a row.
unfoldable pub resolved_row : String → FindingRow → FindingRow
resolved_row at r = record r { status = resolved; resolved_at = some at; suppression_id = none }

abbrev pub is_resolved : Status → Bool
is_resolved resolved = true
is_resolved _ = false

-- status IN ('open','suppressed')
abbrev pub is_unresolved : FindingRow → Bool
is_unresolved r = not (is_resolved r.status)

abbrev no_changes : ReconcileSummary
no_changes = record { opened = []; reopened = []; resolved = []; suppressed = []; unchanged = 0 }

-- The table and the summary, as the transaction goes.
pub record Progress : Type 0 where
  pub table : List FindingRow
  pub summary : ReconcileSummary

abbrev note_new : Option SuppressionRecord → String → ReconcileSummary → ReconcileSummary
note_new none id s = record s { opened = s.opened ++ id ∷ [] }
note_new (some sup) id s = record s { suppressed = s.suppressed ++ id ∷ [] }

abbrev note_old : Status → String → ReconcileSummary → ReconcileSummary
note_old resolved id s = record s { reopened = s.reopened ++ id ∷ [] }
note_old _ id s = record s { unchanged = suc s.unchanged }

abbrev pub upsert_at : ReconcileInput → Finding → Progress → Option FindingRow → Progress
upsert_at input f p none = record {
  table = p.table ++ inserted input f ∷ [];
  summary = note_new (suppression_of input f) f.id p.summary;
}
upsert_at input f p (some existing) = record {
  table = Table.update row_id f.id (refreshed input f) p.table;
  summary = note_old existing.status f.id p.summary;
}

-- One round of the loop over the findings.
unfoldable pub upsert : ReconcileInput → Progress → Finding → Progress
upsert input p f = upsert_at input f p (Table.get row_id f.id p.table)

-- One round of the loop over the unresolved rows of the account.
unfoldable pub resolve_unseen : ReconcileInput → List String → Progress → String → Progress
resolve_unseen input seen p id = if JsSet.has id seen then p else record {
  table = Table.update row_id id (resolved_row input.observed_at) p.table;
  summary = record p.summary { resolved = p.summary.resolved ++ id ∷ [] };
}

unfoldable pub unresolved_for : String → List FindingRow → List String
unresolved_for account t = map row_id (keep_if (λ r. r.account_id == account && is_unresolved r) t)

abbrev pub upsert_all : ReconcileInput → List FindingRow → Progress
upsert_all input t =
    foldl (upsert input) (record { table = t; summary = no_changes }) input.findings

abbrev pub seen_ids : ReconcileInput → List String
seen_ids input = JsSet.of_list (map (λ f. f.id) input.findings)

unfoldable pub reconcile : ReconcileInput → List FindingRow → Progress
unfolding upsert resolve_unseen unresolved_for
reconcile input t =
    let p = upsert_all input t in
    foldl (resolve_unseen input (seen_ids input)) p (unresolved_for input.account_id p.table)

-- `applySuppressions`: what one row becomes.
unfoldable pub resuppressed : List SuppressionRecord → String → FindingRow → FindingRow
resuppressed suppressions now r =
    let sup =
      match_suppression
        (record { rule_id = r.rule_id; node_id = r.resource_id; account_id = r.account_id })
        suppressions now in
    record r { status = status_for sup; suppression_id = id_of sup }

abbrev pub same_status : Status → Status → Bool
same_status opened opened = true
same_status resolved resolved = true
same_status suppressed suppressed = true
same_status _ _ = false

abbrev pub same_id : Option String → Option String → Bool
same_id none none = true
same_id (some a) (some b) = a == b
same_id _ _ = false

-- The update is made only if the status or the suppression differs.
unfoldable pub apply_one :
    List SuppressionRecord → String → List FindingRow → FindingRow → List FindingRow
unfolding resuppressed
apply_one suppressions now t r =
    let want = resuppressed suppressions now r in
    if not (same_status want.status r.status) || not (same_id want.suppression_id r.suppression_id)
    then Table.update row_id r.id
        (λ q. record q { status = want.status; suppression_id = want.suppression_id }) t
    else t

unfoldable pub apply_suppressions :
    List SuppressionRecord → String → List FindingRow → List FindingRow
unfolding apply_one
apply_suppressions suppressions now t =
    foldl (apply_one suppressions now) t (keep_if is_unresolved t)

abbrev severity_is : Severity → Severity → Bool
severity_is info info = true
severity_is low low = true
severity_is medium medium = true
severity_is high high = true
severity_is critical critical = true
severity_is _ _ = false

abbrev pub for_account : Option String → FindingRow → Bool
for_account none r = true
for_account (some a) r = a == "" || r.account_id == a

-- `openCounts` at one severity: COUNT(*) of the open rows, 0 where the grouping has no row.
unfoldable pub open_count : Option String → Severity → List FindingRow → ℕ
open_count account severity t = length (
    keep_if
      (λ r. same_status r.status opened && for_account account r && severity_is r.severity severity)
      t)
