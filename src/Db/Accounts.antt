-- ===== src/Db/Accounts.antt =====
-- packages/db/src/sqlite.ts: `accountRepo`. `now` is the clock's ISO text.
pub mod Laws
use kumomiru.Prelude.{
  String, Bool, not, Option, none, some, List, [], ◌∷◌, ◌++◌, ◌==◌, keep_if, any, or_else, text_le,
  if◌then◌else◌,
}
use kumomiru.Db.Table

pub data AccountStatus : Type 0 where
  pending active inactive : AccountStatus

pub data Onboarding : Type 0 where
  manual organizations : Onboarding

pub record AccountRow : Type 0 where
  pub id : String
  pub name : String
  pub role_arn : String
  pub external_id : Option String
  pub regions : Option (List String)
  pub schedule_cron : String
  pub onboarding : Onboarding
  pub status : AccountStatus
  pub org_id : Option String
  pub ou_path : Option String
  pub email : Option String
  pub created_at : String
  pub updated_at : String

pub record NewAccount : Type 0 where
  pub id : String
  pub name : String
  pub role_arn : String
  pub external_id : Option String
  pub regions : Option (List String)
  pub schedule_cron : Option String
  pub onboarding : Option Onboarding
  pub status : Option AccountStatus
  pub org_id : Option String
  pub ou_path : Option String
  pub email : Option String

abbrev pub account_id : AccountRow → String
account_id a = a.id

abbrev pub default_schedule : String
default_schedule = "0 */6 * * *"

-- COALESCE(new, old)
abbrev pub coalesce {ℓ} : {A : Type ℓ} → Option A → Option A → Option A
coalesce none old = old
coalesce (some v) old = some v

unfoldable pub new_row : String → NewAccount → AccountRow
new_row now a = record {
  id = a.id;
  name = a.name;
  role_arn = a.role_arn;
  external_id = a.external_id;
  regions = a.regions;
  schedule_cron = or_else a.schedule_cron default_schedule;
  onboarding = or_else a.onboarding Onboarding.manual;
  status = or_else a.status pending;
  org_id = a.org_id;
  ou_path = a.ou_path;
  email = a.email;
  created_at = now;
  updated_at = now;
}

-- ON CONFLICT(id) DO UPDATE SET …
unfoldable pub merged_row : String → NewAccount → AccountRow → AccountRow
merged_row now a old = record old {
  name = a.name;
  role_arn = a.role_arn;
  external_id = a.external_id;
  regions = a.regions;
  schedule_cron = or_else a.schedule_cron old.schedule_cron;
  onboarding = or_else a.onboarding Onboarding.manual;
  status = or_else a.status old.status;
  org_id = coalesce a.org_id old.org_id;
  ou_path = coalesce a.ou_path old.ou_path;
  email = coalesce a.email old.email;
  updated_at = now;
}

abbrev upsert_at : String → NewAccount → Option AccountRow → List AccountRow → List AccountRow
upsert_at now a none t = t ++ new_row now a ∷ []
upsert_at now a (some old) t = Table.update account_id a.id (merged_row now a) t

unfoldable pub upsert : String → NewAccount → List AccountRow → List AccountRow
unfolding new_row merged_row
upsert now a t = upsert_at now a (Table.get account_id a.id t) t

unfoldable pub set_status : String → String → AccountStatus → List AccountRow → List AccountRow
set_status now id status =
    Table.update account_id id (λ a. record a { status = status; updated_at = now })

-- DELETE FROM accounts WHERE id = ?, and whether a row went.
unfoldable pub remove : String → List AccountRow → List AccountRow × Bool
remove id t = (keep_if (λ a. not (a.id == id)) t, any (λ a. a.id == id) t)

-- ORDER BY id
insert_by_id : AccountRow → List AccountRow → List AccountRow
insert_by_id a [] = a ∷ []
insert_by_id a (b ∷ bs) =
    let rest = insert_by_id a bs in if text_le a.id b.id then a ∷ b ∷ bs else b ∷ rest

unfoldable pub list : List AccountRow → List AccountRow
unfolding insert_by_id
list [] = []
list (a ∷ t) = insert_by_id a (list t)
