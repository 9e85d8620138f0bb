-- ===== src/Worker/Schedule.antt =====
-- packages/worker/src/schedule.ts. The cron library is an argument: whether it takes an expression, and
-- the next occurrence after a time, if there is one. An exception is `none`.
use kumomiru.Prelude.{ℕ, String, Bool, true, false, Option, none, some, leb, if◌then◌else◌, ◌==◌}

pub record Cron : Type 0 where
  pub accepts : String → Bool
  pub next_run : String → String → Option ℕ

-- `next !== null && next.getTime() <= now.getTime()`
abbrev pub reached : Option ℕ → ℕ → Bool
reached none now = false
reached (some at) now = leb at now

abbrev after_last : Cron → String → String → ℕ → Option Bool
after_last cron expr last now =
    if cron.accepts expr then some (reached (cron.next_run expr last) now) else none

unfoldable pub is_due : Cron → String → Option String → ℕ → Option Bool
is_due cron expr none now = some true
is_due cron expr (some last) now = if last == "" then some true else after_last cron expr last now
