-- ===== src/Worker/Drain/Terminates.antt =====
-- The loop over the queued scans comes to its end.
use kumomiru.Prelude.{
  ℕ, zero, suc, ◌+◌, ◌<◌, ◌≤◌, String, ◌≡◌, refl, sym, ap, ◌∙◌, ◌⊎◌, inl, inr, true, false, some,
  List, map, All, if◌then◌else◌, ◌==◌, eq_iff, eq_refl, arith, subst, Bool-cases, Option-cases,
}
use mathlib.Core.Option.{some-injective}
use kumomiru.JsSet
use kumomiru.Db.Table
use kumomiru.Db.Accounts.{account_id}
use kumomiru.Db.Scans.{
  ScanRow, ScanStatus, scan_id, is_queued, is_target, claim, claimed, claimable,
}
use kumomiru.Db.Scans.Queue.{IsNext, claim_next-cases, lookup-claim, is_queued-eq}
use kumomiru.Worker.ScanJob.{Database, failure}
use kumomiru.Worker.ScanJob.Outcomes.{is_over}
use kumomiru.Worker.ScanJob.Ends.{Ends, Ends-finish, run_scan-Ends}
use kumomiru.Worker.Drain.{World, serve, drain}

-- From `t` to `t'` a row has either not changed, or it was queued before and is over now.
abbrev pub Settles : List ScanRow → List ScanRow → Type 0
Settles t t' =
    (j : String)
    → (Table.get scan_id j t' ≡ Table.get scan_id j t)
      ⊎ ((before : ScanRow) × (after : ScanRow) × (Table.get scan_id j t ≡ some before)
          × (before.status ≡ ScanStatus.queued)
          × (Table.get scan_id j t' ≡ some after)
          × (is_over after.status ≡ true))

over-apart : (r s : ScanRow) → r ≡ s → is_over r.status ≡ true → s.status ≡ ScanStatus.queued → ⊥
over-apart r s same over waiting =
    let h : is_over ScanStatus.queued ≡ true =
      ap is_over (sym waiting ∙ ap (λ x. x.status) (sym same)) ∙ over in
    cc h

Settles-after : (t u v : List ScanRow) → Settles t u → Settles u v → Settles t v
Settles-after t u v a b j = elim (b j) [
  | inl kept ↦ elim (a j) [
    | inl same ↦ inl (kept ∙ same)
    | inr (before, after, was, waiting, now, over) ↦
        inr (before, after, was, waiting, kept ∙ now, over)
  ]
  | inr (before, after, was, waiting, now, over) ↦ elim (a j) [
    | inl same ↦ inr (before, after, sym same ∙ was, waiting, now, over)
    | inr (first, left, was', waiting', now', over') ↦
        let same : left ≡ before = some-injective left before (sym now' ∙ was) in
        elim (over-apart left before same over' waiting) [ ]
  ]
]

module _ (w : World) where
  serve-Ends : (scan : ScanRow) (db : Database) → Ends scan.id db.scans (serve w scan db).1.scans
  unfolding serve
  serve-Ends scan db = elim (Option-cases (Table.get account_id scan.account_id db.accounts)) [
    | inl gone ↦
        rw (serve, gone)
          (Ends-finish (w.setting scan).store_now scan.id (failure "account no longer exists")
            db.scans)
    | inr (account, found) ↦
        rw (serve, found) (run_scan-Ends (w.setting scan) (w.answers scan) scan account db)
  ]

  serve-ran : (scan : ScanRow) (db : Database) → (serve w scan db).0 ≤ 1
  unfolding serve
  serve-ran scan db = elim (Option-cases (Table.get account_id scan.account_id db.accounts)) [
    | inl gone ↦ rw (serve, gone) (omega arith)
    | inr (account, found) ↦ rw (serve, found) (omega arith)
  ]

  -- A claim and the run of the claimed scan.
  record Round (t t' : List ScanRow) : Type 0 where
    keys : map scan_id t' ≡ map scan_id t
    settles : Settles t t'
    fewer : Table.count is_queued t' < Table.count is_queued t

  claim-ids :
      (now worker i : String) (t : List ScanRow)
      → map scan_id (claim now worker i t) ≡ map scan_id t
  unfolding claim
  claim-ids now worker i t =
      Table.ids-update_where scan_id (is_target i) (claimed now worker) t (λ r. refl)

  claimed_count :
      (now worker : String) (t : List ScanRow) (r : ScanRow)
      → Table.HasKey scan_id t
      → Table.get scan_id r.id t ≡ some r
      → is_queued r ≡ true
      → Table.count is_queued (claim now worker r.id t) < Table.count is_queued t
  unfolding claim
  claimed_count now worker t r k here q =
      let one : Table.count (is_target r.id) t ≡ 1 =
        Table.count-key scan_id is_queued r.id t k ∙ rw (here, q) refl in
      omega (
        arith,
        one,
        Table.count-update_where-out is_queued (is_target r.id) (claimed now worker)
            (λ s h. ground arith) (λ s h. refl) t,
      )

  after-Round :
      (now : String) (db : Database) (r : ScanRow)
      → Table.HasKey scan_id db.scans
      → IsNext db.scans r
      → Round db.scans
          (serve w
            (claimed now w.worker_id r)
            (record db { scans = claim now w.worker_id r.id db.scans })).1.scans
  after-Round now db r k (here, q, alone) =
      let t = db.scans in
      let t1 = claim now w.worker_id r.id t in
      let db' = (serve w (claimed now w.worker_id r) (record db { scans = t1 })).1 in
      let e = serve-Ends (claimed now w.worker_id r) (record db { scans = t1 }) in
      let seen : (j : String)
          → Table.get scan_id j t1
            ≡ (if r.id == j then some (claimed now w.worker_id r) else Table.get scan_id j t) =
        λ j. lookup-claim now w.worker_id t r j here q in
      record {
        keys = e.ids ∙ claim-ids now w.worker_id r.id t;
        settles = λ j. elim (Bool-cases (r.id == j)) [
          | inr other ↦ inl (e.others j other ∙ seen j ∙ rw other refl)
          | inl same ↦
              let (after, now_there, over) =
                e.over (claimed now w.worker_id r) (seen r.id ∙ rw (eq_refl r.id) refl) in
              let eq = (eq_iff r.id j).0 same in
              inr (
                r,
                after,
                subst (λ i. Table.get scan_id i t ≡ some r) eq here,
                is_queued-eq r q,
                subst (λ i. Table.get scan_id i db'.scans ≡ some after) eq now_there,
                over,
              )
        ];
        fewer = omega (arith, e.queue, claimed_count now w.worker_id t r k here q);
      }

  -- What the loop leaves when it returns.
  pub record Drained (ran : ℕ) (db : Database) (ran' : ℕ) (db' : Database) : Type 0 where
    pub idle : All (λ s. claimable db'.scans s ≡ false) db'.scans
    pub settles : Settles db.scans db'.scans
    pub runs : ran' + Table.count is_queued db'.scans ≤ ran + Table.count is_queued db.scans

  -- With unique scan ids and as fuel one more than the number of queued scans, the loop returns,
  -- whatever the outside world answers to each scan. Then no scan can be claimed; every row is as it
  -- was, or it was queued and is over now; and no more runs were counted than the queue lost scans.
  pub drain-Drained :
      (n ran : ℕ) (db : Database)
      → Table.HasKey scan_id db.scans
      → Table.count is_queued db.scans < n
      → (ran' : ℕ) × (db' : Database) × (drain w n ran db ≡ some (ran', db'))
        × Drained ran db ran' db'
  unfolding drain
  drain-Drained zero ran db k f = let none_less : ⊥ = omega (arith, f) in elim none_less [ ]
  drain-Drained (suc n) ran db k f =
      elim (claim_next-cases (w.claim_now n) w.worker_id db.scans k) [
        | inr (none_left, idle) ↦ (
          ran,
          db,
          rw none_left refl,
          record { idle = idle; settles = λ j. inl refl; runs = omega arith },
        )
        | inl (r, known, e) ↦
            let now = w.claim_now n in
            let s = claimed now w.worker_id r in
            let db1 = record db { scans = claim now w.worker_id r.id db.scans } in
            let served = serve w s db1 in
            let round = after-Round now db r k known in
            let (ran', db', returned, later) =
              drain-Drained n (ran + served.0) served.1 (subst JsSet.Distinct (sym round.keys) k)
                (omega (arith, f, round.fewer)) in
            (
              ran',
              db',
              rw e returned,
              record {
                idle = later.idle;
                settles =
                    Settles-after db.scans served.1.scans db'.scans round.settles later.settles;
                runs = omega (arith, later.runs, round.fewer, serve-ran s db1);
              },
            )
      ]
