-- ===== src/Db/Accounts/Laws.antt =====
-- What an upsert leaves under an id.
use mathlib.Core.Option
use kumomiru.Prelude.{String, ◌≡◌, refl, none, some, List, if◌then◌else◌, ◌==◌}
use kumomiru.Db.Table
use kumomiru.Db.Accounts.{AccountRow, NewAccount, account_id, merged_row, new_row, upsert}

id-merged_row :
    (now : String) (a : NewAccount) (old : AccountRow) → (merged_row now a old).id ≡ old.id
unfolding merged_row
id-merged_row now a old = refl

id-new_row : (now : String) (a : NewAccount) → (new_row now a).id ≡ a.id
unfolding new_row
id-new_row now a = refl

pub get-upsert_found :
    (j now : String) (a : NewAccount) (t : List AccountRow) (b : AccountRow)
    → Table.get account_id a.id t ≡ some b
    → Table.get account_id j (upsert now a t) ≡ (
        if a.id == j
        then Option.map (merged_row now a) (Table.get account_id j t)
        else Table.get account_id j t)
unfolding upsert
get-upsert_found j now a t b found =
    rw found (Table.get-update account_id a.id j (merged_row now a) t (id-merged_row now a))

pub get-upsert_missing :
    (j now : String) (a : NewAccount) (t : List AccountRow)
    → Table.get account_id a.id t ≡ none
    → Table.get account_id j (upsert now a t)
      ≡ (if a.id == j then some (new_row now a) else Table.get account_id j t)
unfolding upsert new_row
get-upsert_missing j now a t missing =
    rw missing (Table.get-insert account_id j (new_row now a) t missing)
