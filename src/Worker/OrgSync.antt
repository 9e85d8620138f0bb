-- ===== src/Worker/OrgSync.antt =====
-- packages/worker/src/jobs/orgSync.ts: the accounts of the organization registered. The listing that
-- AWS Organizations gives is an argument, or the text of its error; `stamp` and `iso` are what the
-- clocks of the store and of the job say, and `uuid` what `randomUUID()` gives. The log is left out.
pub mod Laws
use kumomiru.Prelude.{
  ◌+ₛ◌, ℕ, suc, String, Bool, true, false, not, ◌&&◌, ◌⊎◌, inl, inr, Option, none, some, List, [],
  ◌∷◌, foldl, length, if◌then◌else◌, is_some, or_else, ◌==◌,
}
use kumomiru.JsMap
use kumomiru.Graph.Schema.{Json}
use kumomiru.Db.Table
use kumomiru.Db.Accounts
use kumomiru.Db.Accounts.{AccountRow, NewAccount, AccountStatus, Onboarding, account_id}
use kumomiru.Db.Scans
use kumomiru.Db.Scans.{ScanRow, ScanTrigger}

pub record OrgAccount : Type 0 where
  pub id : String
  pub name : String
  pub email : Option String
  pub status : String
  pub ou_path : String

pub record OrgListing : Type 0 where
  pub org_id : String
  pub accounts : List OrgAccount

-- What the job reads and writes of the store.
pub record Store : Type 0 where
  pub settings : List (String × Json)
  pub accounts : List AccountRow
  pub scans : List ScanRow

pub record SyncCounts : Type 0 where
  pub discovered : ℕ
  pub registered : ℕ
  pub verify_queued : ℕ

-- `settings.get<string>(key)`, and its truth
abbrev setting : String → List (String × Json) → Option String
setting key s = elim (JsMap.get key s) [ some (Json.str v) ↦ some v | _ ↦ none ]

abbrev is_enabled : Option Json → Bool
is_enabled (some (Json.bool b)) = b
is_enabled _ = false

abbrev not_empty : Option String → Option String
not_empty none = none
not_empty (some v) = if v == "" then none else some v

-- `ensureExternalId`: the id, and the settings.
unfoldable pub ensure_external_id : String → List (String × Json) → String × List (String × Json)
unfolding JsMap.get JsMap.set
ensure_external_id uuid s = elim (not_empty (setting "org.externalId" s)) [
  | some id ↦ (id, s)
  | none ↦ ("kumomiru-" +ₛ uuid, JsMap.set "org.externalId" (Json.str ("kumomiru-" +ₛ uuid)) s)
]

-- The sync of one account.
pub record Sync : Type 0 where
  pub accounts : List AccountRow
  pub scans : List ScanRow
  pub registered : ℕ
  pub verify_queued : ℕ

-- `before?.name ?? a.name` and the like
abbrev name_of : Option AccountRow → String → String
name_of none name = name
name_of (some b) name = b.name

abbrev role_of : Option AccountRow → String → String
role_of none role = role
role_of (some b) role = b.role_arn

abbrev external_of : Option AccountRow → String → String
external_of none external = external
external_of (some b) external = or_else b.external_id external

abbrev is_pending : Option AccountRow → Bool
is_pending none = false
is_pending (some b) = elim b.status [ AccountStatus.pending ↦ true | _ ↦ false ]

module _ (fresh stamp : List ScanRow → String)
    (partition role_name external_id org_id : String) where
  unfoldable pub registration : OrgAccount → Option AccountRow → NewAccount
  registration a before = record {
    id = a.id;
    name = name_of before a.name;
    role_arn = role_of before ("arn:" +ₛ partition +ₛ ":iam::" +ₛ a.id +ₛ ":role/" +ₛ role_name);
    external_id = some (external_of before external_id);
    regions = none;
    schedule_cron = none;
    onboarding = some Onboarding.organizations;
    status = none;
    org_id = some org_id;
    ou_path = some a.ou_path;
    email = not_empty a.email;
  }

  -- One round of the loop.
  unfoldable pub sync_account : Sync → OrgAccount → Sync
  unfolding registration Table.get Accounts.upsert Scans.active Scans.enqueue
  sync_account s a =
      let before = Table.get account_id a.id s.accounts in
      let accounts = Accounts.upsert (stamp s.scans) (registration a before) s.accounts in
      if not (a.status == "ACTIVE")
      then s
      else if is_pending (Table.get account_id a.id accounts)
          && not (is_some (Scans.active a.id s.scans))
      then record {
        accounts = accounts;
        scans = (Scans.enqueue (fresh s.scans) (stamp s.scans) a.id ScanTrigger.verify s.scans).1;
        registered = suc s.registered;
        verify_queued = suc s.verify_queued;
      }
      else record s { accounts = accounts; registered = suc s.registered }

abbrev default_scan_role : String
default_scan_role = "KumomiruScanRole"

module _ (fresh stamp : List ScanRow → String) (uuid iso partition : String) where
  -- The settings when the answer comes, and the time of the run noted.
  abbrev ran : Store → List (String × Json)
  ran db = JsMap.set "org.sync.lastRun" (Json.str iso) (ensure_external_id uuid db.settings).1

  -- The `try` block for a listing, and the `catch` block for an error.
  unfoldable pub sync_answer : Store → OrgListing ⊎ String → Store × Option SyncCounts
  unfolding ensure_external_id sync_account JsMap.get JsMap.set
  sync_answer db (inl listing) =
      let s =
        foldl
          (sync_account fresh stamp partition
            (or_else (setting "org.scanRoleName" db.settings) default_scan_role)
            (ensure_external_id uuid db.settings).0 listing.org_id)
          (record { accounts = db.accounts; scans = db.scans; registered = 0; verify_queued = 0 })
          listing.accounts in
      (
        record {
          settings =
              JsMap.set "org.sync.orgId" (Json.str listing.org_id)
                (JsMap.set "org.sync.lastError" Json.null (ran db));
          accounts = s.accounts;
          scans = s.scans;
        },
        some (record {
          discovered = length listing.accounts;
          registered = s.registered;
          verify_queued = s.verify_queued;
        }),
      )
  sync_answer db (inr error) = (
    record db { settings = JsMap.set "org.sync.lastError" (Json.str error) (ran db) },
    some (record { discovered = 0; registered = 0; verify_queued = 0 }),
  )

  -- `none` is the `null` of a sync that is not enabled.
  unfoldable pub run_org_sync : OrgListing ⊎ String → Store → Store × Option SyncCounts
  unfolding sync_answer JsMap.get
  run_org_sync answer db =
      if not (is_enabled (JsMap.get "org.sync.enabled" db.settings))
      then (db, none)
      else sync_answer db answer
