-- ===== src/Db/Leases.antt =====
-- packages/db/src/sqlite.ts: `leaseRepo`. A time is a number of milliseconds, and `now` what the
-- clock shows when the transaction runs.
pub mod Exclusion
use kumomiru.Prelude.{
  ℕ, ◌+◌, String, Bool, true, false, not, ◌&&◌, Option, none, some, List, [], ◌∷◌, if◌then◌else◌,
  ◌==◌, ltb, keep_if,
}
use kumomiru.JsMap

pub record Lease : Type 0 where
  pub holder : String
  pub expires_at : ℕ

-- `cur && cur.holder !== holder && cur.expires_at > t`
abbrev pub held_by_other : Option Lease → String → ℕ → Bool
held_by_other none holder now = false
held_by_other (some cur) holder now = not (cur.holder == holder) && ltb now cur.expires_at

unfoldable pub acquire :
    ℕ → String → String → ℕ → List (String × Lease) → List (String × Lease) × Bool
acquire now name holder ttl_ms t =
    if held_by_other (JsMap.get name t) holder now
    then (t, false)
    else (JsMap.set name (record { holder = holder; expires_at = now + ttl_ms }) t, true)

-- DELETE FROM worker_leases WHERE name = ? AND holder = ?
unfoldable pub release : String → String → List (String × Lease) → List (String × Lease)
release name holder = keep_if (λ e. not (e.0 == name && e.1.holder == holder))
