-- ===== src/Tests/Jobs.antt =====
-- A small organization and network, and the theorems on the jobs and the dataflow pass applied to them.
use kumomiru.Prelude.{
  ℕ, String, ◌≡◌, refl, ◌⊎◌, inl, inr, Bool, true, false, Option, none, some, List, [], ◌∷◌, map,
  length, All, Any,
}
use kumomiru.Graph.Schema.{Json}
use kumomiru.Db.Table
use kumomiru.Db.Accounts.{AccountRow, AccountStatus, Onboarding, account_id}
use kumomiru.Db.Scans.{ScanRow}
use kumomiru.Adapters.Dataflow.{DataflowInput, analyze_dataflow}
use kumomiru.Adapters.Dataflow.Laws.{IsBacked, analyze_dataflow-IsBacked}
use kumomiru.Worker.Schedule.{Cron}
use kumomiru.Worker.Scheduler.{enqueue_due}
use kumomiru.Worker.Scheduler.Laws.{Queued, enqueue_due-Queued}
use kumomiru.Worker.OrgSync.{OrgAccount, OrgListing, Store, run_org_sync}
use kumomiru.Worker.OrgSync.Laws.{Keeps, run_org_sync-Keeps}

abbrev input : DataflowInput
input = record {
  members =
      record { id = "web"; group_ids = "sg-1" ∷ [] }
      ∷ record { id = "db"; group_ids = "sg-2" ∷ [] }
      ∷ [];
  ingress =
      record { group_id = "sg-2"; source_group_ids = "sg-1" ∷ "sg-2" ∷ []; ports = "5432" } ∷ [];
  references =
      record { from = "web"; to = "db"; relationship = "reads-from"; via = "lambda-env" } ∷ [];
}

analyze_dataflow-IsBacked_example : All (IsBacked input) (analyze_dataflow input)
analyze_dataflow-IsBacked_example = analyze_dataflow-IsBacked input

relationships : map (λ e. e.relationship) (analyze_dataflow input) ≡ "talks-to" ∷ "reads-from" ∷ []
unfolding analyze_dataflow kumomiru.JsMap.set_new kumomiru.Adapters.HashId.hash_id
relationships = refl

abbrev account : AccountRow
account = record {
  id = "111111111111";
  name = "prod";
  role_arn = "arn:aws:iam::111111111111:role/scan";
  external_id = none;
  regions = some ("eu-west-1" ∷ []);
  schedule_cron = "0 0 * * *";
  onboarding = Onboarding.manual;
  status = AccountStatus.active;
  org_id = none;
  ou_path = none;
  email = none;
  created_at = "2024-01-01";
  updated_at = "2024-01-01";
}

abbrev hourly : Cron
hourly = record { accepts = λ e. true; next_run = λ e last. some 60 }

abbrev fresh : List ScanRow → String
fresh t = "scan"

abbrev clock : List ScanRow → String
clock t = "2024-01-02"

enqueue_due-Queued_example :
    (((enqueue_due hourly 90 fresh clock (account ∷ []) 0 []).1 ≡ none)
      × Any (λ a. hourly.accepts a.schedule_cron ≡ false) (account ∷ []))
    ⊎ ((m : ℕ) × (u : List ScanRow) × (enqueue_due hourly 90 fresh clock (account ∷ []) 0 []
          ≡ (u, some m))
        × Queued hourly 90 fresh clock (account ∷ []) 0 [] m u)
enqueue_due-Queued_example = enqueue_due-Queued hourly 90 fresh clock (account ∷ []) 0 []

queued : (enqueue_due hourly 90 fresh clock (account ∷ []) 0 []).1 ≡ some 1
unfolding enqueue_due Table.first_by kumomiru.Prelude.keep_if Table.last_by
queued = refl

abbrev db : Store
db = record {
  settings = ("org.sync.enabled", Json.bool true) ∷ [];
  accounts = account ∷ [];
  scans = [];
}

abbrev member : OrgAccount
member = record {
  id = "111111111111";
  name = "Production";
  email = none;
  status = "ACTIVE";
  ou_path = "/prod";
}

abbrev listing : OrgListing
listing = record { org_id = "o-1"; accounts = member ∷ [] }

account_stored : Table.get account_id "111111111111" db.accounts ≡ some account
unfolding Table.get
account_stored = refl

run_org_sync-Keeps_example :
    Keeps "111111111111" account
      (run_org_sync fresh clock "u" "t" "aws" (inl listing) db).0.accounts
run_org_sync-Keeps_example =
    run_org_sync-Keeps fresh clock "u" "t" "aws" (inl listing) db "111111111111" account
      account_stored

-- The regions of the account do not survive the sync.
regions_lost :
    map (λ a. a.regions) (run_org_sync fresh clock "u" "t" "aws" (inl listing) db).0.accounts
    ≡ none ∷ []
unfolding run_org_sync Table.update
regions_lost = refl
