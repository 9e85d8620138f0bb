-- ===== src/Worker/Scheduler.antt =====
-- packages/worker/src/scheduler.ts: the part of `tick` under the lease that queues the scans that are
-- due. A round of the loop takes the id that `randomUUID()` gives and the clock's text from the table
-- that it finds. `none` says that the cron library threw, which ends the tick.
pub mod Laws
use kumomiru.Prelude.{
  ℕ, suc, String, Bool, true, false, not, ◌&&◌, Option, none, some, List, [], ◌∷◌, if◌then◌else◌,
  is_some,
}
use kumomiru.Db.Accounts.{AccountRow, AccountStatus}
use kumomiru.Db.Scans.{ScanRow, ScanTrigger, active, enqueue, last_started_at}
use kumomiru.Worker.Schedule.{Cron, is_due}

abbrev pub is_enabled : AccountRow → Bool
is_enabled a = elim a.status [ AccountStatus.active ↦ true | _ ↦ false ]

module _ (cron : Cron) (now : ℕ) (fresh stamp : List ScanRow → String) where
  abbrev queue_if : AccountRow → ℕ → List ScanRow → Option Bool → Option (ℕ × List ScanRow)
  queue_if a n t none = none
  queue_if a n t (some false) = some (n, t)
  queue_if a n t (some true) =
      some (suc n, (enqueue (fresh t) (stamp t) a.id ScanTrigger.schedule t).1)

  -- One round: the number of scans that were queued, and the table.
  unfoldable pub visit_account : AccountRow → ℕ → List ScanRow → Option (ℕ × List ScanRow)
  unfolding active enqueue last_started_at is_due
  visit_account a n t =
      if not (is_enabled a)
      then some (n, t)
      else if is_some (active a.id t)
      then some (n, t)
      else queue_if a n t (is_due cron a.schedule_cron (last_started_at a.id t) now)

  unfoldable pub enqueue_due : List AccountRow → ℕ → List ScanRow → List ScanRow × Option ℕ
  unfolding visit_account
  enqueue_due [] n t = (t, some n)
  enqueue_due (a ∷ more) n t = elim (visit_account a n t) [
    | none ↦ (t, none)
    | some (m, u) ↦ enqueue_due more m u
  ]
