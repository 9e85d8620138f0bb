-- ===== src/Worker/Drain.antt =====
-- packages/worker/src/scheduler.ts: the loop of `tick` that runs the queued scans. What differs from
-- scan to scan (the answers of the outside world, the clocks and the fresh id) is a function of the
-- scan, the clock of a claim one of the fuel that is left. The loop has the tables to itself: another
-- worker or a request that writes to them meanwhile is not modelled.
pub mod Terminates
use kumomiru.Prelude.{ℕ, zero, suc, ◌+◌, String, Option, none, some, List}
use kumomiru.Db.Table
use kumomiru.Db.Accounts
use kumomiru.Db.Accounts.{AccountRow, account_id}
use kumomiru.Db.Scans
use kumomiru.Db.Scans.{ScanRow, claim_next}
use kumomiru.Worker.ScanJob.{Database, Answers, Setting, give_up, run_scan}

pub record World : Type 0 where
  pub worker_id : String
  pub setting : ScanRow → Setting
  pub answers : ScanRow → Answers
  pub claim_now : ℕ → String

module _ (w : World) where
  -- The body of the loop after a claim, with what it adds to `ran`.
  unfoldable pub serve : ScanRow → Database → ℕ × Database
  unfolding run_scan Table.get Scans.finish
  serve scan db = elim (Table.get account_id scan.account_id db.accounts) [
    | none ↦ (0, give_up (w.setting scan) scan "account no longer exists" db)
    | some account ↦ (1, run_scan (w.setting scan) (w.answers scan) scan account db)
  ]

  -- The rounds from a claim on; `rest` is those after it.
  abbrev pub go_on :
      (ℕ → Database → Option (ℕ × Database))
      → ℕ
      → Database
      → Option ScanRow × List ScanRow
      → Option (ℕ × Database)
  go_on rest ran db (none, scans) = some (ran, record db { scans = scans })
  go_on rest ran db (some scan, scans) =
      let served = serve scan (record db { scans = scans }) in rest (ran + served.0) served.1

  -- None when the fuel runs out.
  unfoldable pub drain : ℕ → ℕ → Database → Option (ℕ × Database)
  unfolding serve claim_next
  drain zero ran db = none
  drain (suc n) ran db = go_on (drain n) ran db (claim_next (w.claim_now n) w.worker_id db.scans)
