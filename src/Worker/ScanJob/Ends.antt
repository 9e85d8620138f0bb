-- ===== src/Worker/ScanJob/Ends.antt =====
-- What a scan leaves of the table of scans.
use kumomiru.Prelude.{
  String, ◌≤◌, ◌≡◌, refl, sym, ap, ◌∙◌, ◌⊎◌, inl, inr, Bool, true, false, some, List, map, ◌==◌,
  eq_iff, arith, subst, Bool-cases, Option-cases,
}
use kumomiru.Db.Table
use kumomiru.Db.Accounts.{AccountRow}
use kumomiru.Db.Scans
use kumomiru.Db.Scans.{ScanRow, ScanResult, FinalStatus, final, scan_id, is_queued}
use kumomiru.Worker.ScanJob.{Database, Answers, Setting, failure, run_scan}
use kumomiru.Worker.ScanJob.Outcomes.{is_over, failed, cut_short, stored, verified, unmarked}
use kumomiru.Worker.ScanJob.Laws.{run_scan-Outcome}

-- Of the table `t` only the row of one scan has changed, and that scan is over. No row was added or
-- removed, and no more scans are queued than before.
pub record Ends (i : String) (t t' : List ScanRow) : Type 0 where
  pub ids : map scan_id t' ≡ map scan_id t
  pub others : (j : String) → i == j ≡ false → Table.get scan_id j t' ≡ Table.get scan_id j t
  pub over :
      (r : ScanRow)
      → Table.get scan_id i t ≡ some r
      → (r' : ScanRow) × (Table.get scan_id i t' ≡ some r') × (is_over r'.status ≡ true)
  pub queue : Table.count is_queued t' ≤ Table.count is_queued t

is_over-final : (s : FinalStatus) → is_over (final s) ≡ true
is_over-final FinalStatus.ok = refl
is_over-final FinalStatus.partial = refl
is_over-final FinalStatus.failed = refl

is_queued-final : (r : ScanRow) (s : FinalStatus) → r.status ≡ final s → is_queued r ≡ false
is_queued-final r FinalStatus.ok h = rw h refl
is_queued-final r FinalStatus.partial h = rw h refl
is_queued-final r FinalStatus.failed h = rw h refl

-- An update of the row with the id `i` leaves the others.
other-update :
    (f : ScanRow → ScanRow) (i j : String) (t : List ScanRow)
    → ((r : ScanRow) → (f r).id ≡ r.id)
    → i == j ≡ false
    → Table.get scan_id j (Table.update_where (λ s. s.id == i) f t) ≡ Table.get scan_id j t
other-update f i j t k other =
    Table.get-update_where scan_id (λ s. s.id == i) f j t
      (λ r. elim (Bool-cases (r.id == i)) [ inl h ↦ k r | inr h ↦ k r ])
    ∙ elim (Option-cases (Table.get scan_id j t)) [
      | inl absent ↦ rw absent refl
      | inr (s, found) ↦
          rw found (ground (arith, Table.id-get scan_id j t s found, eq_iff s.id i, eq_iff i j))
    ]

this-update :
    (f : ScanRow → ScanRow) (i : String) (t : List ScanRow) (r : ScanRow)
    → ((r : ScanRow) → (f r).id ≡ r.id)
    → Table.get scan_id i t ≡ some r
    → Table.get scan_id i (Table.update_where (λ s. s.id == i) f t) ≡ some (f r)
this-update f i t r k found =
    Table.get-update_where scan_id (λ s. s.id == i) f i t k
    ∙ rw found (ground (arith, Table.id-get scan_id i t r found, eq_iff r.id i))

pub Ends-finish :
    (now i : String) (result : ScanResult) (t : List ScanRow)
    → Ends i t (Scans.finish now i result t)
unfolding Scans.finish
Ends-finish now i result t =
    let f : ScanRow → ScanRow = λ s. record s {
      status = final result.status;
      finished_at = some now;
      error = result.error;
      stats = result.stats;
    } in
    let p : ScanRow → Bool = λ s. s.id == i in
    record {
      ids = Table.ids-update_where scan_id p f t (λ r. refl);
      others = λ j other. other-update f i j t (λ r. refl) other;
      over = λ r e. (f r, this-update f i t r (λ q. refl) e, is_over-final result.status);
      queue =
          Table.count-update_where-le is_queued p f
            (λ r h q. cc (q, is_queued-final (f r) result.status refl)) t;
    }

Ends-set_regions :
    (i : String) (rs : List String) (t t' : List ScanRow)
    → Ends i (Scans.set_regions i rs t) t'
    → Ends i t t'
unfolding Scans.set_regions
Ends-set_regions i rs t t' e =
    let f : ScanRow → ScanRow = λ s. record s { regions = rs } in
    let p : ScanRow → Bool = λ s. s.id == i in
    record {
      ids = e.ids ∙ Table.ids-update_where scan_id p f t (λ r. refl);
      others = λ j other. e.others j other ∙ other-update f i j t (λ r. refl) other;
      over = λ r found. e.over (f r) (this-update f i t r (λ q. refl) found);
      queue = omega (arith, e.queue, Table.count-update_where-le is_queued p f (λ r h q. q) t);
    }

Ends-equal : (i : String) (t u v : List ScanRow) → u ≡ v → Ends i t v → Ends i t u
Ends-equal i t u v e h = subst (Ends i t) (sym e) h

-- A scan that was given regions, or was not, and was finished then.
Ends-later :
    (now i : String) (result : ScanResult) (t before : List ScanRow)
    → (before ≡ t) ⊎ ((rs : List String) × (before ≡ Scans.set_regions i rs t))
    → Ends i t (Scans.finish now i result before)
Ends-later now i result t before (inl same) =
    subst (λ u. Ends i t (Scans.finish now i result u)) (sym same) (Ends-finish now i result t)
Ends-later now i result t before (inr (rs, noted)) =
    subst (λ u. Ends i t (Scans.finish now i result u)) (sym noted)
      (Ends-set_regions i rs t _ (Ends-finish now i result (Scans.set_regions i rs t)))

Ends-trans : (i : String) (t u v : List ScanRow) → Ends i t u → Ends i u v → Ends i t v
Ends-trans i t u v a b = record {
  ids = b.ids ∙ a.ids;
  others = λ j other. b.others j other ∙ a.others j other;
  over = λ r found. let (r', there, over) = a.over r found in b.over r' there;
  queue = omega (arith, a.queue, b.queue);
}

-- The scan was finished before, or was not, and was finished then.
Ends-again :
    (now i : String) (result : ScanResult) (t before : List ScanRow)
    → (before ≡ t) ⊎ ((r : ScanResult) × (before ≡ Scans.finish now i r t))
    → Ends i t (Scans.finish now i result before)
Ends-again now i result t before (inl same) =
    subst (λ u. Ends i t (Scans.finish now i result u)) (sym same) (Ends-finish now i result t)
Ends-again now i result t before (inr (r, done)) =
    subst (λ u. Ends i t (Scans.finish now i result u)) (sym done)
      (Ends-trans i t (Scans.finish now i r t) _ (Ends-finish now i r t)
        (Ends-finish now i result _))

-- Whatever the outside world answers, after the run of a scan its row is over, with a status that is
-- ok, partial or failed, and of the table of scans nothing else has changed.
pub run_scan-Ends :
    (c : Setting) (w : Answers) (scan : ScanRow) (account : AccountRow) (db : Database)
    → Ends scan.id db.scans (run_scan c w scan account db).scans
run_scan-Ends c w scan account db = elim (run_scan-Outcome c w scan account db) [
  | failed f ↦
      Ends-equal scan.id db.scans _ _ (ap (λ d. d.scans) f.after)
        (Ends-later c.store_now scan.id (failure f.error) db.scans f.before f.regions)
  | cut_short s ↦ Ends-equal scan.id db.scans _ _ s.scans (
      Ends-set_regions scan.id s.found.regions db.scans _
        (Ends-again c.store_now scan.id (failure s.error) _ s.before s.marked))
  | stored s ↦
      Ends-equal scan.id db.scans _ _ s.scans
        (Ends-set_regions scan.id s.found.regions db.scans _ (Ends-finish c.store_now scan.id _ _))
  | verified v ↦
      Ends-equal scan.id db.scans _ _ (ap (λ d. d.scans) v.after)
        (Ends-finish c.store_now scan.id _ db.scans)
  | unmarked v ↦
      Ends-equal scan.id db.scans _ _ (ap (λ d. d.scans) v.after)
        (Ends-finish c.store_now scan.id _ db.scans)
]
