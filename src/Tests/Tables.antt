-- ===== src/Tests/Tables.antt =====
-- Small tables, and the theorems on the store applied to them.
use mathlib.Core.Option
use kumomiru.Prelude.{
  ℕ, ◌+◌, ◌≤◌, ◌<◌, String, ◌≡◌, refl, ◌≢◌, ◌⊎◌, Bool, true, false, not, ◌&&◌, Option, none, some,
  List, [], ◌∷◌, map, length, is_some, All, eq_iff, arith,
}
use kumomiru.JsSet
use kumomiru.Graph.Schema.{Severity, Finding, plain_finding}
use kumomiru.Db.Table
use kumomiru.Db.Suppression.{SuppressionRecord, Target, match_suppression, active_for}
use kumomiru.Db.Suppression.Active.{IsFilled, match_suppression-active_for}
use kumomiru.Db.Findings.{
  FindingRow, row_id, ReconcileInput, reconcile, inserted, apply_suppressions,
}
use kumomiru.Db.Findings.Reconcile.{
  lookup, outcome, finding_of, of_account, reconcile-lookup, reconcile-HasKey,
}
use kumomiru.Db.Findings.Summary.{counted, reconcile-summary}
use kumomiru.Db.Findings.Suppress.{settled, apply_suppressions-lookup}
use kumomiru.Db.Scans.{
  ScanRow, ScanStatus, scan_id, ScanTrigger, new_scan, insert, enqueue, active_of, claim_next,
  claimable,
}
use kumomiru.Db.Scans.Queue.{Claims, claim_next-Claims}
use kumomiru.Db.Scans.Races
use kumomiru.Db.Results.{RuleStatus, RuleResult, replace_for_snapshot}
use kumomiru.Db.Leases.{acquire}
use kumomiru.Db.Leases.Exclusion.{Leases, Run, start, acquired, acquire-exclusive}

abbrev finding : Finding
finding = plain_finding "f" Severity.high "open-ingress" (some "sg") "Open" "Port 22 is open."

abbrev muted : SuppressionRecord
muted = record {
  id = "s";
  rule_id = "ec2.ssh";
  resource_pattern = "*";
  account_id = none;
  reason = "bastion";
  created_by = none;
  created_at = "2024-01-01";
  expires_at = none;
  revoked_at = none;
}

abbrev input : ReconcileInput
input = record {
  account_id = "111111111111";
  snapshot_id = "n1";
  observed_at = "2024-01-02";
  findings = finding ∷ [];
  suppressions = [];
}

-- The table after another finding of the account was stored.
abbrev stored : List FindingRow
stored = (reconcile (record input { findings = record finding { id = "g" } ∷ [] }) []).table

stored-HasKey : Table.HasKey row_id stored
stored-HasKey =
    reconcile-HasKey (record input { findings = record finding { id = "g" } ∷ [] }) [] tt

findings_distinct : JsSet.Distinct (map (λ f. f.id) input.findings)
unfolding JsSet.has
findings_distinct = (refl, tt)

reconcile-lookup_example :
    lookup "g" (reconcile input stored).table
    ≡ outcome input (finding_of input "g" input.findings) (lookup "g" stored)
reconcile-lookup_example = reconcile-lookup input stored stored-HasKey findings_distinct "g"

-- What the scan does not see is resolved.
resolved_ids : (reconcile input stored).summary.resolved ≡ "g" ∷ []
unfolding reconcile kumomiru.Prelude.keep_if Table.get inserted match_suppression JsSet.has
    JsSet.of_list
resolved_ids = refl

reconcile-HasKey_example : Table.HasKey row_id (reconcile input stored).table
reconcile-HasKey_example = reconcile-HasKey input stored stored-HasKey

reconcile-summary_example :
    (counted (reconcile input stored).summary ≡ length input.findings)
    × ((id : String)
        → JsSet.has id (reconcile input stored).summary.resolved ≡ (
            Table.satisfies row_id (of_account input) (lookup id stored)
            && not (is_some (finding_of input id input.findings))))
reconcile-summary_example = reconcile-summary input stored stored-HasKey findings_distinct

apply_suppressions-lookup_example :
    lookup "g" (apply_suppressions (muted ∷ []) "2024-01-03" stored)
    ≡ Option.map (settled (muted ∷ []) "2024-01-03") (lookup "g" stored)
apply_suppressions-lookup_example =
    apply_suppressions-lookup (muted ∷ []) "2024-01-03" stored stored-HasKey "g"

abbrev target : Target
target = record { rule_id = some "ec2.ssh"; node_id = some "sg"; account_id = "111111111111" }

muted-IsFilled : IsFilled muted
muted-IsFilled = record { account_id = λ e. cc e; expires_at = λ e. cc e; revoked_at = λ e. cc e }

match_suppression-active_for_example :
    is_some (
      match_suppression target
        (active_for target.account_id "2024-01-03" (muted ∷ []))
        "2024-01-03")
    ≡ is_some (match_suppression target (muted ∷ []) "2024-01-03")
match_suppression-active_for_example =
    match_suppression-active_for target "2024-01-03" (muted ∷ []) (muted-IsFilled, tt)

matched : is_some (match_suppression target (muted ∷ []) "2024-01-03") ≡ true
unfolding match_suppression kumomiru.Db.Suppression.covers_resource
matched = refl

abbrev queue : List ScanRow
queue = (enqueue "a" "t1" "111111111111" ScanTrigger.manual []).1

-- Two processes find no active scan, and then both insert one; of the two only one runs.
abbrev scan_of : String → ScanRow
scan_of id = new_scan id "t1" "111111111111" ScanTrigger.manual

abbrev raced : List ScanRow
raced = insert (scan_of "b") (insert (scan_of "a") [])

raced-Reach : Races.Reach raced
unfolding Table.get
raced-Reach =
    Races.next
      (Races.next Races.empty (Races.inserted "a" "t1" "111111111111" ScanTrigger.manual refl))
      (Races.inserted "b" "t1" "111111111111" ScanTrigger.manual refl)

Reach-OneRunning_example : Races.OneRunning (claim_next "t3" "v" (claim_next "t2" "w" raced).1).1
Reach-OneRunning_example = Races.Reach-OneRunning (
    Races.next (Races.next raced-Reach (Races.claimed_next "t2" "w")) (Races.claimed_next "t3" "v"))

two_active : Table.count (active_of "111111111111") raced ≡ 2
unfolding kumomiru.Prelude.keep_if
two_active = refl

one_claimed :
    map (λ s. s.status) (claim_next "t3" "v" (claim_next "t2" "w" raced).1).1
    ≡ ScanStatus.running ∷ ScanStatus.queued ∷ []
unfolding claim_next Table.first_by kumomiru.Prelude.text_le Table.get Table.update_where
    kumomiru.Prelude.keep_if kumomiru.Prelude.any
one_claimed = refl

abbrev result : RuleResult
result = record {
  rule_id = "ec2.ssh";
  resource_id = "sg";
  resource_type = "aws::ec2::sg";
  status = RuleStatus.fail;
}

same_key_refused : replace_for_snapshot "n" (result ∷ result ∷ []) [] ≡ none
unfolding replace_for_snapshot
same_key_refused = refl

queue-HasKey : Table.HasKey scan_id queue
unfolding enqueue JsSet.has Table.first_by kumomiru.Prelude.keep_if
queue-HasKey = (refl, tt)

claim_next-Claims_example :
    ((s : ScanRow) × (t' : List ScanRow) × (claim_next "t2" "w" queue ≡ (some s, t'))
      × Claims "t2" "w" queue s t')
    ⊎ ((claim_next "t2" "w" queue ≡ (none, queue)) × All (λ s. claimable queue s ≡ false) queue)
claim_next-Claims_example = claim_next-Claims "t2" "w" queue queue-HasKey

abbrev leased : Leases
leased = (acquire 5 "scheduler" "w1" 10 []).0

-- Another worker tries in between.
abbrev tried : Run 5 leased 8 (acquire 8 "scheduler" "w2" 10 leased).0
tried = acquired 8 "scheduler" "w2" 10 (start 5 leased) (omega arith)

first_acquired : (acquire 5 "scheduler" "w1" 10 []).1 ≡ true
unfolding acquire kumomiru.JsMap.get
first_acquired = refl

acquire-exclusive_example :
    (acquire 9 "scheduler" "w3" 10 (acquire 8 "scheduler" "w2" 10 leased).0).1 ≡ false
acquire-exclusive_example =
    acquire-exclusive 5 10 "scheduler" "w1" [] first_acquired tried
      (λ _ e. ground (arith, (eq_iff "w2" "w1").1 e), tt) 9 10 "w3" (omega arith) (omega arith)
      (λ e. ground (arith, (eq_iff "w3" "w1").1 e))
