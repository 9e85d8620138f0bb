-- ===== src/Worker/OrgSync/Laws.antt =====
-- What a sync leaves of the accounts that it finds.
use kumomiru.Prelude.{
  String, ◌≡◌, refl, sym, ap, ◌∙◌, ◌⊎◌, inl, inr, not, ◌&&◌, some, or_else, List, if◌then◌else◌,
  is_some, ◌==◌, eq_iff, All-members, Member, foldl-keeps, arith, Bool-cases, Option-cases,
}
use kumomiru.JsMap
use kumomiru.Db.Table
use kumomiru.Db.Accounts
use kumomiru.Db.Accounts.{AccountRow, NewAccount, account_id, merged_row, new_row}
use kumomiru.Db.Accounts.Laws.{get-upsert_found, get-upsert_missing}
use mathlib.Core.Option
use kumomiru.Db.Scans
use kumomiru.Db.Scans.{ScanRow}
use kumomiru.Worker.OrgSync.{
  OrgAccount, OrgListing, Store, Sync, registration, sync_account, sync_answer, run_org_sync,
  is_pending, is_enabled, setting, default_scan_role, ensure_external_id,
}

-- The row under the id is still there, with the old one's name, role, status, schedule and time.
pub record Keeps (id : String) (old : AccountRow) (t : List AccountRow) : Type 0 where
  pub row : AccountRow
  pub stored : Table.get account_id id t ≡ some row
  pub name : row.name ≡ old.name
  pub role_arn : row.role_arn ≡ old.role_arn
  pub status : row.status ≡ old.status
  pub schedule_cron : row.schedule_cron ≡ old.schedule_cron
  pub created_at : row.created_at ≡ old.created_at

module _ (fresh stamp : List ScanRow → String)
    (partition role_name external_id org_id : String) where
  abbrev entry : OrgAccount → List AccountRow → NewAccount
  entry a t =
      registration fresh stamp partition role_name external_id org_id a
        (Table.get account_id a.id t)

  -- An entry that is written into the row of the account that it was made from.
  Keeps-merged :
      (id : String) (old b : AccountRow) (now : String) (a : OrgAccount) (t u : List AccountRow)
      → Table.get account_id id t ≡ some b
      → Table.get account_id a.id t ≡ some b
      → Table.get account_id id u ≡ some (merged_row now (entry a t) b)
      → Keeps id old t
      → Keeps id old u
  unfolding merged_row registration
  Keeps-merged id old b now a t u at found e k =
      let same : k.row ≡ b = ground (arith, k.stored, at) in
      record {
        row = merged_row now (entry a t) b;
        stored = e;
        name = rw found (ap (λ r. r.name) (sym same) ∙ k.name);
        role_arn = rw found (ap (λ r. r.role_arn) (sym same) ∙ k.role_arn);
        status = ap (λ r. r.status) (sym same) ∙ k.status;
        schedule_cron = ap (λ r. r.schedule_cron) (sym same) ∙ k.schedule_cron;
        created_at = ap (λ r. r.created_at) (sym same) ∙ k.created_at;
      }

  Keeps-stored :
      (id : String) (old : AccountRow) (t u : List AccountRow)
      → Table.get account_id id u ≡ Table.get account_id id t
      → Keeps id old t
      → Keeps id old u
  Keeps-stored id old t u e k = record {
    row = k.row;
    stored = e ∙ k.stored;
    name = k.name;
    role_arn = k.role_arn;
    status = k.status;
    schedule_cron = k.schedule_cron;
    created_at = k.created_at;
  }

  Keeps-upsert :
      (id : String) (old : AccountRow) (now : String) (a : OrgAccount) (t : List AccountRow)
      → Keeps id old t
      → Keeps id old (Accounts.upsert now (entry a t) t)
  unfolding registration
  Keeps-upsert id old now a t k = elim (Bool-cases (a.id == id)) [
    | inl same ↦
        let at : a.id ≡ id = (eq_iff a.id id).0 same in
        let found : Table.get account_id a.id t ≡ some k.row =
          ap (λ i. Table.get account_id i t) at ∙ k.stored in
        Keeps-merged id old k.row now a t (Accounts.upsert now (entry a t) t) k.stored found
          (get-upsert_found id now (entry a t) t k.row found
            ∙ ap
                (λ b.
                  if b
                  then Option.map (merged_row now (entry a t)) (Table.get account_id id t)
                  else Table.get account_id id t)
                same
            ∙ ap (Option.map (merged_row now (entry a t))) k.stored)
          k
    | inr other ↦ elim (Option-cases (Table.get account_id a.id t)) [
      | inl missing ↦
          Keeps-stored id old t (Accounts.upsert now (entry a t) t)
            (get-upsert_missing id now (entry a t) t missing
              ∙ ap (λ b. if b then some (new_row now (entry a t)) else Table.get account_id id t)
                  other)
            k
      | inr (b, found) ↦
          Keeps-stored id old t (Accounts.upsert now (entry a t) t)
            (get-upsert_found id now (entry a t) t b found
              ∙ ap
                  (λ b.
                    if b
                    then Option.map (merged_row now (entry a t)) (Table.get account_id id t)
                    else Table.get account_id id t)
                  other)
            k
    ]
  ]

  Keeps-sync_account :
      (id : String) (old : AccountRow) (s : Sync) (a : OrgAccount)
      → Keeps id old s.accounts
      → Keeps id old (sync_account fresh stamp partition role_name external_id org_id s a).accounts
  unfolding sync_account
  Keeps-sync_account id old s a k =
      let up = Keeps-upsert id old (stamp s.scans) a s.accounts k in
      elim (Bool-cases (a.status == "ACTIVE")) [
        | inr skipped ↦ rw skipped k
        | inl synced ↦
            elim (Bool-cases (
              is_pending (
                Table.get account_id a.id
                  (Accounts.upsert (stamp s.scans) (entry a s.accounts) s.accounts))
              && not (is_some (Scans.active a.id s.scans)))) [
                | inl verified ↦ rw (synced, verified) up
                | inr left ↦ rw (synced, left) up
              ]
      ]

Keeps-sync_answer :
    (fresh stamp : List ScanRow → String) (uuid iso partition : String) (db : Store)
    (answer : OrgListing ⊎ String) (id : String) (old : AccountRow)
    → Keeps id old db.accounts
    → Keeps id old (sync_answer fresh stamp uuid iso partition db answer).0.accounts
unfolding sync_answer
Keeps-sync_answer fresh stamp uuid iso partition db (inr error) id old k = k
Keeps-sync_answer fresh stamp uuid iso partition db (inl listing) id old k =
    let role_name = or_else (setting "org.scanRoleName" db.settings) default_scan_role in
    let external_id = (ensure_external_id uuid db.settings).0 in
    foldl-keeps (sync_account fresh stamp partition role_name external_id listing.org_id)
      (λ s. Keeps id old s.accounts) (λ a. Member a listing.accounts)
      (λ s a m i.
        Keeps-sync_account fresh stamp partition role_name external_id listing.org_id id old s a i)
      listing.accounts (All-members listing.accounts)
      (record { accounts = db.accounts; scans = db.scans; registered = 0; verify_queued = 0 }) k

-- Whatever the organization lists, and if it cannot be listed, a sync keeps every account that the
-- store has: it is found under its id with the name, the role, the status, the schedule and the time of
-- creation that it had.
pub run_org_sync-Keeps :
    (fresh stamp : List ScanRow → String) (uuid iso partition : String)
    (answer : OrgListing ⊎ String) (db : Store) (id : String) (old : AccountRow)
    → Table.get account_id id db.accounts ≡ some old
    → Keeps id old (run_org_sync fresh stamp uuid iso partition answer db).0.accounts
unfolding run_org_sync
run_org_sync-Keeps fresh stamp uuid iso partition answer db id old h =
    let k : Keeps id old db.accounts = record {
      row = old;
      stored = h;
      name = refl;
      role_arn = refl;
      status = refl;
      schedule_cron = refl;
      created_at = refl;
    } in
    elim (Bool-cases (is_enabled (JsMap.get "org.sync.enabled" db.settings))) [
      | inr off ↦ rw off k
      | inl on ↦ rw on (Keeps-sync_answer fresh stamp uuid iso partition db answer id old k)
    ]
