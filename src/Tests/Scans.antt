-- ===== src/Tests/Scans.antt =====
-- A store with one queued scan, and the theorems on the scan job and the loop of the worker applied to
-- it.
use mathlib.Core.Option
use kumomiru.Prelude.{
  ℕ, ◌<◌, String, ◌≡◌, refl, inl, inr, Bool, true, false, Option, none, some, List, [], ◌∷◌, map,
  if◌then◌else◌, ◌==◌, arith,
}
use kumomiru.Graph.Schema.{Number, Graph, CloudNode}
use kumomiru.Db.Table
use kumomiru.Db.Accounts.{AccountRow, AccountStatus, Onboarding}
use kumomiru.Db.Scans.{ScanRow, ScanStatus, ScanTrigger, scan_id, is_queued, new_scan}
use kumomiru.Worker.ScanJob.{Database, Answers, Setting, Write, run_scan}
use kumomiru.Worker.ScanJob.Outcomes.{Outcome}
use kumomiru.Worker.ScanJob.Laws.{run_scan-Outcome}
use kumomiru.Worker.ScanJob.Ends.{Ends, run_scan-Ends}
use kumomiru.Worker.Drain.{World, drain}
use kumomiru.Worker.Drain.Terminates.{Drained, drain-Drained}

abbrev account : AccountRow
account = record {
  id = "111111111111";
  name = "prod";
  role_arn = "arn:aws:iam::111111111111:role/scan";
  external_id = none;
  regions = some ("eu-west-1" ∷ "eu-central-1" ∷ []);
  schedule_cron = "0 * * * *";
  onboarding = Onboarding.manual;
  status = AccountStatus.pending;
  org_id = none;
  ou_path = none;
  email = none;
  created_at = "2024-01-01";
  updated_at = "2024-01-01";
}

abbrev node : CloudNode
node = record {
  id = "vpc";
  type = "aws::ec2::vpc";
  name = "main";
  account = "111111111111";
  region = some "eu-west-1";
  parent = none;
  tags = [];
  attributes = [];
}

abbrev pub graph : Graph
graph = record {
  nodes = node ∷ [];
  edges = [];
  findings = [];
  meta = record {
    generated_at = "2024-01-02";
    source = "aws-live";
    account_id = none;
    regions = none;
    snapshot_id = none;
    scan_id = none;
    capabilities = none;
    feeds = none;
    security_hub_controls = none;
  };
}

abbrev answers : Answers
answers = record {
  assumed = inl tt;
  regions = inl [];
  global = inl graph;
  regional = λ r. if r == "eu-west-1" then inl graph else inr "AccessDenied";
  account_id = inl "111111111111";
  store = λ x. none;
  conflict = "SqliteError: UNIQUE constraint failed";
}

abbrev setting : Setting
setting = record {
  generated_at = "2024-01-02";
  store_now = "2024-01-02";
  snapshot_id = "n1";
  duration_ms = Number.pos 10;
  rules = [];
  capabilities = none;
  discovery_capabilities = [];
}

abbrev scan : ScanRow
scan = new_scan "s1" "2024-01-01" "111111111111" ScanTrigger.manual

-- The account of this one is gone.
abbrev orphan : ScanRow
orphan = new_scan "s2" "2024-01-01" "222222222222" ScanTrigger.manual

abbrev db : Database
db = record {
  accounts = account ∷ [];
  scans = scan ∷ orphan ∷ [];
  snapshots = [];
  findings = [];
  suppressions = [];
  rule_results = [];
  diffs = [];
}

run_scan-Outcome_example :
    Outcome setting answers scan account db (run_scan setting answers scan account db)
run_scan-Outcome_example = run_scan-Outcome setting answers scan account db

run_scan-Ends_example : Ends "s1" db.scans (run_scan setting answers scan account db).scans
run_scan-Ends_example = run_scan-Ends setting answers scan account db

one_region_failed :
    map (λ s. s.status) (run_scan setting answers scan account db).scans
    ≡ ScanStatus.partial ∷ ScanStatus.queued ∷ []
unfolding run_scan kumomiru.Adapters.Stitch.known_nodes kumomiru.JsMap.Collect.collect
    kumomiru.JsMap.set_new kumomiru.Adapters.Stitch.is_sibling Table.update_where
one_region_failed = refl

-- A diff that cannot be written leaves a failed scan and its snapshot.
abbrev full_disk : Answers
full_disk = record answers { store = refuse_diff }
  where
    refuse_diff : Write → Option String
    refuse_diff Write.diff_write = some "SqliteError: disk full"
    refuse_diff _ = none

diff_refused :
    ◌≡◌ {A = List ScanStatus × List String}
      (
        map (λ s. s.status) (run_scan setting full_disk scan account db).scans,
        map (λ s. s.id) (run_scan setting full_disk scan account db).snapshots,
      )
      (ScanStatus.failed ∷ ScanStatus.queued ∷ [], "n1" ∷ [])
unfolding run_scan kumomiru.Adapters.Stitch.known_nodes kumomiru.JsMap.Collect.collect
    kumomiru.JsMap.set_new kumomiru.Adapters.Stitch.is_sibling Table.update_where
diff_refused = refl

abbrev world : World
world = record {
  worker_id = "w";
  setting = λ s. setting;
  answers = λ s. answers;
  claim_now = λ n. "2024-01-02";
}

scans-HasKey : Table.HasKey scan_id db.scans
unfolding kumomiru.JsSet.has
scans-HasKey = (refl, (refl, tt))

two_queued : Table.count is_queued db.scans < 3
unfolding kumomiru.Prelude.keep_if
two_queued = omega arith

drain-Drained_example :
    (ran : ℕ) × (db' : Database) × (drain world 3 0 db ≡ some (ran, db'))
    × Drained world 0 db ran db'
drain-Drained_example = drain-Drained world 3 0 db scans-HasKey two_queued

abbrev statuses : ℕ × Database → ℕ × List ScanStatus
statuses r = (r.0, map (λ s. s.status) r.1.scans)

drained :
    Option.map statuses (drain world 3 0 db) ≡ some (1, ScanStatus.partial ∷ ScanStatus.failed ∷ [])
unfolding drain Table.first_by kumomiru.Prelude.text_le Table.update_where
    kumomiru.Adapters.Stitch.known_nodes kumomiru.JsMap.Collect.collect kumomiru.JsMap.set_new
    kumomiru.Adapters.Stitch.is_sibling Table.update
drained = refl
