-- ===== src/Db/Scans.antt =====
-- packages/db/src/sqlite.ts: the scan queue. `now` is the clock's ISO text and `id` the fresh
-- `randomUUID()`. Rows that are equal in an ORDER BY column come in the order of the table.
pub mod Queue
pub mod Races
use kumomiru.Prelude.{
  ℕ, String, Bool, true, false, not, ◌&&◌, ◌||◌, Option, none, some, List, [], ◌∷◌, ◌++◌, map,
  if◌then◌else◌, ◌==◌, keep_if, any, length, nat_eq, text_le,
}
use kumomiru.Graph.Schema.{Attributes}
use kumomiru.Db.Table

pub data ScanStatus : Type 0 where
  queued running ok partial failed : ScanStatus

pub data ScanTrigger : Type 0 where
  schedule manual verify : ScanTrigger

pub record ScanRow : Type 0 where
  pub id : String
  pub account_id : String
  pub status : ScanStatus
  pub trigger : ScanTrigger
  pub regions : List String
  pub created_at : String
  pub started_at : Option String
  pub finished_at : Option String
  pub error : Option String
  pub worker_id : Option String
  pub stats : Option Attributes

abbrev pub scan_id : ScanRow → String
scan_id s = s.id

abbrev pub is_queued : ScanRow → Bool
is_queued s = elim s.status [ queued ↦ true | _ ↦ false ]

abbrev pub is_running : ScanRow → Bool
is_running s = elim s.status [ running ↦ true | _ ↦ false ]

-- status IN ('queued','running')
abbrev pub is_active : ScanRow → Bool
is_active s = is_queued s || is_running s

abbrev pub active_of : String → ScanRow → Bool
active_of account s = s.account_id == account && is_active s

abbrev pub running_of : String → ScanRow → Bool
running_of account s = s.account_id == account && is_running s

unfoldable pub active : String → List ScanRow → Option ScanRow
active account t = Table.first_by (λ s. s.created_at) (keep_if (active_of account) t)

-- The row of `insert`.
abbrev pub new_scan : String → String → String → ScanTrigger → ScanRow
new_scan id now account trigger = record {
  id = id;
  account_id = account;
  status = queued;
  trigger = trigger;
  regions = [];
  created_at = now;
  started_at = none;
  finished_at = none;
  error = none;
  worker_id = none;
  stats = none;
}

-- `insert.run(…)`, with an id that no row has.
abbrev pub insert : ScanRow → List ScanRow → List ScanRow
insert fresh t = t ++ fresh ∷ []

abbrev enqueue_unless : Option ScanRow → ScanRow → List ScanRow → ScanRow × List ScanRow
enqueue_unless (some existing) fresh t = (existing, t)
enqueue_unless none fresh t = (fresh, insert fresh t)

-- The two statements `active.get` and `insert.run`, where no other process writes between them: they
-- are not in a transaction.
unfoldable pub enqueue :
    String → String → String → ScanTrigger → List ScanRow → ScanRow × List ScanRow
unfolding active
enqueue id now account trigger t =
    enqueue_unless (active account t) (new_scan id now account trigger) t

-- status = 'queued' AND NOT EXISTS (a running scan of the account)
unfoldable pub claimable : List ScanRow → ScanRow → Bool
claimable t s = is_queued s && not (any (running_of s.account_id) t)

unfoldable pub next_queued : List ScanRow → Option ScanRow
unfolding claimable
next_queued t = Table.first_by (λ s. s.created_at) (keep_if (claimable t) t)

-- The WHERE and the SET of `claim`.
abbrev pub is_target : String → ScanRow → Bool
is_target id s = s.id == id && is_queued s

abbrev pub claimed : String → String → ScanRow → ScanRow
claimed now worker s = record s { status = running; started_at = some now; worker_id = some worker }

unfoldable pub claim : String → String → String → List ScanRow → List ScanRow
claim now worker id = Table.update_where (is_target id) (claimed now worker)

-- A `changes` other than 1 gives null, with the update made.
abbrev claim_result :
    String → String → Option ScanRow → List ScanRow → Option ScanRow × List ScanRow
claim_result now worker none t = (none, t)
claim_result now worker (some r) t =
    let t' = claim now worker r.id t in
    if nat_eq (Table.count (is_target r.id) t) 1
    then (Table.get scan_id r.id t', t')
    else (none, t')

unfoldable pub claim_next : String → String → List ScanRow → Option ScanRow × List ScanRow
unfolding next_queued claim
claim_next now worker t = claim_result now worker (next_queued t) t

unfoldable pub set_regions : String → List String → List ScanRow → List ScanRow
set_regions id regions = Table.update_where (λ s. s.id == id) (λ s. record s { regions = regions })

-- The statuses that a scan can be finished with.
pub data FinalStatus : Type 0 where
  ok partial failed : FinalStatus

abbrev pub final : FinalStatus → ScanStatus
final FinalStatus.ok = ScanStatus.ok
final FinalStatus.partial = ScanStatus.partial
final FinalStatus.failed = ScanStatus.failed

pub record ScanResult : Type 0 where
  pub status : FinalStatus
  pub error : Option String
  pub stats : Option Attributes

unfoldable pub finish : String → String → ScanResult → List ScanRow → List ScanRow
finish now id result =
    Table.update_where (λ s. s.id == id)
      (λ s. record s {
        status = final result.status;
        finished_at = some now;
        error = result.error;
        stats = result.stats;
      })

abbrev pub was_started : ScanRow → Bool
was_started s = elim s.started_at [ none ↦ false | some at ↦ true ]

abbrev started_text : ScanRow → String
started_text s = elim s.started_at [ none ↦ "" | some at ↦ at ]

abbrev start_of : Option ScanRow → Option String
start_of none = none
start_of (some s) = s.started_at

unfoldable pub last_started_at : String → List ScanRow → Option String
last_started_at account t =
    start_of
      (Table.last_by started_text (keep_if (λ s. s.account_id == account && was_started s) t))
