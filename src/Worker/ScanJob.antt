-- ===== src/Worker/ScanJob.antt =====
-- packages/worker/src/jobs/scan.ts: one claimed scan, run to its end. What AWS answers is an argument,
-- the graph that `discoverGraph` makes of a pass included; an error is its text as `summarize` gives
-- it. The clocks and the fresh id are an argument too, with one text of the store's clock for all the
-- writes of a scan. A statement of the store may throw, which is an argument as well: the exception of a
-- read stands for that of the next write. The write that marks a scan as failed does not throw. The log
-- and the scrubbing of the credentials are left out.
pub mod Outcomes
pub mod Laws
pub mod Ends
use kumomiru.Prelude.{
  ℕ, String, Bool, true, false, not, ◌&&◌, ◌⊎◌, inl, inr, Option, none, some, List, [], ◌∷◌, ◌++◌,
  map, foldl, length, keep_if, if◌then◌else◌, or_else, ◌==◌, join, ◌+ₛ◌,
}
use kumomiru.JsSet
use kumomiru.JsMap
use kumomiru.Graph.Schema.{Json, Items, Number, Attributes, Graph, GraphMeta}
use kumomiru.Graph.Integrity.{check_referential_integrity}
use kumomiru.Graph.Diff.{SnapshotDiff, diff_snapshots}
use kumomiru.Adapters.Merge.{merge_graphs}
use kumomiru.Adapters.Stitch.{stitch_known_accounts}
use kumomiru.Rules.{Rule}
use kumomiru.Rules.Run
use kumomiru.Rules.Run.{Evaluation}
use kumomiru.Db.Accounts
use kumomiru.Db.Accounts.{AccountRow, AccountStatus}
use kumomiru.Db.Scans
use kumomiru.Db.Scans.{ScanRow, ScanTrigger, FinalStatus, ScanResult}
use kumomiru.Db.Snapshots
use kumomiru.Db.Snapshots.{SnapshotRow}
use kumomiru.Db.Findings
use kumomiru.Db.Findings.{FindingRow, ReconcileSummary}
use kumomiru.Db.Suppression
use kumomiru.Db.Suppression.{SuppressionRecord}
use kumomiru.Db.Results
use kumomiru.Db.Results.{RuleResult}

-- The tables that the job reads and writes.
pub record Database : Type 0 where
  pub accounts : List AccountRow
  pub scans : List ScanRow
  pub snapshots : List SnapshotRow
  pub findings : List FindingRow
  pub suppressions : List SuppressionRecord
  pub rule_results : List (String × RuleResult)
  pub diffs : List (String × SnapshotDiff)

-- The writes of a scan that may throw.
pub data Write : Type 0 where
  regions_write snapshot_write results_write findings_write diff_write finish_write account_write :
      Write

-- What the outside world answers in the course of a scan. `store` has the exceptions of the writes, but
-- for the one of a primary key that `rule_results` refuses, which is `conflict`.
pub record Answers : Type 0 where
  pub assumed : Unit {0} ⊎ String
  pub regions : List String ⊎ String
  pub global : Graph ⊎ String
  pub regional : String → Graph ⊎ String
  pub account_id : String ⊎ String
  pub store : Write → Option String
  pub conflict : String

-- The clocks, the id of the snapshot, and the registry with the capabilities of the deployment.
pub record Setting : Type 0 where
  pub generated_at : String
  pub store_now : String
  pub snapshot_id : String
  pub duration_ms : Number
  pub rules : List Rule
  pub capabilities : Option (List String)
  pub discovery_capabilities : List String

first_five : List String → List String
first_five (a ∷ b ∷ c ∷ d ∷ e ∷ _) = a ∷ b ∷ c ∷ d ∷ e ∷ []
first_five problems = problems

abbrev items_of : List String → Items
items_of [] = Items.nil
items_of (x ∷ xs) = Items.cons (Json.str x) (items_of xs)

abbrev number : ℕ → Json
number n = Json.num (Number.pos n)

abbrev pub failure : String → ScanResult
failure error = record { status = FinalStatus.failed; error = some error; stats = none }

-- The graphs of the passes, and `failed`. No region bears a name that every object inherits.
pub record Passes : Type 0 where
  pub graphs : List Graph
  pub failed : List (String × String)

-- One round of the loop over the regions.
unfoldable pub try_region : Answers → Passes → String → Passes
unfolding JsMap.set
try_region w p region = elim (w.regional region) [
  | inl g ↦ record p { graphs = p.graphs ++ g ∷ [] }
  | inr error ↦ record p { failed = JsMap.set region error p.failed }
]

-- The passes over the regions, after the global one.
abbrev pub passes : Answers → Graph → List String → Passes
passes w global = foldl (try_region w) (record { graphs = global ∷ []; failed = [] })

unfoldable pub covered : List String → Passes → List String
unfolding keep_if JsMap.has
covered regions p = keep_if (λ r. not (JsMap.has r p.failed)) regions

module _ (c : Setting) where
  unfoldable pub merged : AccountRow → List AccountRow → List String → Passes → Graph
  unfolding merge_graphs stitch_known_accounts covered Accounts.list JsSet.of_list
  merged account accounts regions p =
      stitch_known_accounts
        (merge_graphs p.graphs (record {
          generated_at = c.generated_at;
          source = "aws-live";
          account_id = some account.id;
          regions = some (covered regions p);
          snapshot_id = none;
          scan_id = none;
          capabilities = none;
          feeds = none;
          security_hub_controls = none;
        }))
        (JsSet.of_list (map (λ a. a.id) (Accounts.list accounts)))

  -- `deps.capabilities ?? merged.meta.capabilities ?? DISCOVERY_CAPABILITIES`
  unfoldable pub assess : Graph → Evaluation
  unfolding Run.evaluate
  assess g =
      Run.evaluate g c.rules
        (or_else c.capabilities (or_else g.meta.capabilities c.discovery_capabilities))

  abbrev stats_of :
      Graph
      → Evaluation
      → ReconcileSummary
      → SnapshotDiff
      → List String
      → List (String × String)
      → Attributes
  stats_of g e l d regions failed =
      ("snapshotId", Json.str c.snapshot_id)
      ∷ ("regions", Json.arr (items_of regions))
      ∷ ("failedRegions", Json.arr (items_of (JsMap.keys failed)))
      ∷ ("nodes", number (length g.nodes))
      ∷ ("edges", number (length g.edges))
      ∷ ("findings", number (length g.findings))
      ∷ ("rulesNotAssessed", Json.arr (items_of e.not_assessed_rules))
      ∷ ("feeds", Json.arr (items_of (or_else g.meta.feeds [])))
      ∷ ("securityHubControls", number (length (or_else g.meta.security_hub_controls [])))
      ∷ ("findingsSuperseded", number (length e.superseded_findings))
      ∷ ("findingsOpened", number (length l.opened))
      ∷ ("findingsReopened", number (length l.reopened))
      ∷ ("findingsResolved", number (length l.resolved))
      ∷ ("findingsSuppressed", number (length l.suppressed))
      ∷ ("nodesAdded", number (length d.nodes_added))
      ∷ ("nodesRemoved", number (length d.nodes_removed))
      ∷ ("nodesChanged", number (length d.nodes_changed))
      ∷ ("durationMs", Json.num c.duration_ms)
      ∷ []

  -- The status and the error of a scan of which some regions may have failed.
  abbrev pub conclusion : List (String × String) → Attributes → ScanResult
  conclusion [] stats = record { status = FinalStatus.ok; error = none; stats = some stats }
  conclusion (f ∷ failed) stats = record {
    status = FinalStatus.partial;
    error = some (join " | " (map (λ e. e.0 +ₛ ": " +ₛ e.1) (f ∷ failed)));
    stats = some stats;
  }

  abbrev pub is_enabled : AccountStatus → Bool
  is_enabled AccountStatus.active = true
  is_enabled _ = false

  -- The graph of the previous snapshot.
  abbrev pub previous : AccountRow → Database → Option Graph
  previous account db = elim (Snapshots.latest account.id db.snapshots) [
    | none ↦ none
    | some meta ↦ Snapshots.get_graph meta.id db.snapshots
  ]

  abbrev pub give_up : ScanRow → String → Database → Database
  give_up scan error db = record db {
    scans = Scans.finish c.store_now scan.id (failure error) db.scans;
  }

  -- What follows a write that does not throw; the handler of the exception if it does.
  abbrev pub attempt : Option String → ScanRow → Database → Database → Database
  attempt none scan db next = next
  attempt (some error) scan db next = give_up scan error db

  -- The last statements: the scan is finished, and the account marked as active if it was not.
  unfoldable pub conclude : Answers → ScanRow → AccountRow → ScanResult → Database → Database
  unfolding Scans.finish Accounts.set_status
  conclude w scan account result db = attempt (w.store finish_write) scan db (
      let done = record db { scans = Scans.finish c.store_now scan.id result db.scans } in
      if is_enabled account.status
      then done
      else attempt (w.store account_write) scan done (record done {
        accounts = Accounts.set_status c.store_now account.id AccountStatus.active done.accounts;
      }))

  abbrev pub reconciled : AccountRow → Graph → Evaluation → Database → Findings.Progress
  reconciled account graph e db =
      Findings.reconcile
        (record {
          account_id = account.id;
          snapshot_id = c.snapshot_id;
          observed_at = graph.meta.generated_at;
          findings = e.findings;
          suppressions = Suppression.active_for account.id graph.meta.generated_at db.suppressions;
        })
        db.findings

  -- What follows the write of the rule results: the lifecycle, the diff and the end of the scan.
  unfoldable pub compare :
      Answers
      → ScanRow
      → AccountRow
      → List String
      → List (String × String)
      → Graph
      → Evaluation
      → Option Graph
      → Database
      → Database
  unfolding conclude Snapshots.get_graph Results.set_diff Findings.reconcile Suppression.active_for
      diff_snapshots
  compare w scan account regions failed graph e prev db =
      let lifecycle = reconciled account graph e db in
      let stored = or_else (Snapshots.get_graph c.snapshot_id db.snapshots) graph in
      let diff = diff_snapshots prev stored in
      let db1 = record db { findings = lifecycle.table } in
      let db2 = record db1 { diffs = Results.set_diff c.snapshot_id diff db.diffs } in
      attempt (w.store findings_write) scan db (
        attempt (w.store diff_write) scan db1 (
          conclude w scan account
            (conclusion failed (stats_of graph e lifecycle.summary diff regions failed)) db2))

  -- The write of the rule results, which fails if two of them have the same rule and resource.
  abbrev pub write_results :
      Answers
      → ScanRow
      → Option (List (String × RuleResult))
      → Database
      → (Database → Database)
      → Database
  write_results w scan none db next = give_up scan w.conflict db
  write_results w scan (some rows) db next = next (record db { rule_results = rows })

  -- The graph that is stored: with the findings of the rules.
  abbrev pub assessed : Graph → Graph
  assessed g = record g { findings = (assess g).findings }

  abbrev pub with_snapshot : ScanRow → AccountRow → Graph → Database → Database
  with_snapshot scan account g db = record db {
    snapshots =
        (Snapshots.insert c.snapshot_id c.store_now scan.id account.id (assessed g) db.snapshots).1;
  }

  -- Rules, persistence, lifecycle and diff of a merged graph.
  unfoldable pub persist :
      Answers
      → ScanRow
      → AccountRow
      → List String
      → List (String × String)
      → Graph
      → Database
      → Database
  unfolding compare assess Snapshots.latest Snapshots.get_graph Snapshots.insert
      Results.replace_for_snapshot
  persist w scan account regions failed g db =
      let e = assess g in
      let prev = previous account db in
      let db1 = with_snapshot scan account g db in
      attempt (w.store snapshot_write) scan db (
        attempt (w.store results_write) scan db1 (
          write_results w scan
            (Results.replace_for_snapshot c.snapshot_id e.results db.rule_results) db1
            (compare w scan account regions failed (assessed g) e prev)))

  -- The integrity check between the merge and the rules.
  unfoldable pub check_and_persist :
      Answers
      → ScanRow
      → AccountRow
      → List String
      → List (String × String)
      → Graph
      → Database
      → Database
  unfolding persist first_five check_referential_integrity Scans.finish
  check_and_persist w scan account regions failed g db = elim (check_referential_integrity g) [
    | [] ↦ persist w scan account regions failed g db
    | p ∷ ps ↦ give_up scan ("graph_integrity: " +ₛ join "; " (first_five (p ∷ ps))) db
  ]

  -- The passes over the regions, once they are known.
  unfoldable pub discover : Answers → ScanRow → AccountRow → List String → Database → Database
  unfolding check_and_persist merged covered try_region Scans.set_regions Scans.finish
  discover w scan account regions db =
      let db' = record db { scans = Scans.set_regions scan.id regions db.scans } in
      let later : Database = elim w.global [
        | inr error ↦ give_up scan error db'
        | inl global ↦
            let p = passes w global regions in
            check_and_persist w scan account (covered regions p) p.failed
              (merged account db.accounts regions p) db'
      ] in
      attempt (w.store regions_write) scan db later

  -- The end of a verification that lands in the account.
  unfoldable pub confirm : Answers → ScanRow → AccountRow → Database → Database
  unfolding Scans.finish Accounts.set_status
  confirm w scan account db =
      let seen = record db {
        accounts = Accounts.set_status c.store_now account.id AccountStatus.active db.accounts;
      } in
      attempt (w.store account_write) scan db (
        attempt (w.store finish_write) scan seen (record seen {
          scans =
              Scans.finish c.store_now scan.id
                (record {
                  status = FinalStatus.ok;
                  error = none;
                  stats = some (("verified", Json.bool true) ∷ []);
                })
                db.scans;
        }))

  unfoldable pub verify : Answers → ScanRow → AccountRow → Database → Database
  unfolding confirm Scans.finish
  verify w scan account db = elim w.account_id [
    | inr error ↦ give_up scan error db
    | inl seen ↦
        if not (seen == account.id)
        then give_up scan
            ("role " +ₛ account.role_arn +ₛ " resolved to account " +ₛ seen +ₛ ", expected "
              +ₛ account.id)
            db
        else confirm w scan account db
  ]

  abbrev is_verify : ScanTrigger → Bool
  is_verify ScanTrigger.verify = true
  is_verify _ = false

  -- `account.regions ?? await deps.listRegions(master)`
  abbrev regions_of : Answers → AccountRow → List String ⊎ String
  regions_of w account = elim account.regions [ some rs ↦ inl rs | none ↦ w.regions ]

  unfoldable pub run_scan : Answers → ScanRow → AccountRow → Database → Database
  unfolding discover verify Scans.finish
  run_scan w scan account db = elim w.assumed [
    | inr error ↦ give_up scan error db
    | inl _ ↦
        if is_verify scan.trigger then verify w scan account db else elim (regions_of w account) [
          | inr error ↦ give_up scan error db
          | inl regions ↦ discover w scan account regions db
        ]
  ]
