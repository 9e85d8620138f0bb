-- ===== src/Db/Scans/Races.antt =====
-- The queue when several processes use the file at once. `enqueue` reads and writes in two statements, so
-- that its insertion is a step of its own; `claim_next` is a transaction.
use kumomiru.Prelude.{
  ◌≤◌, String, ◌≡◌, refl, sym, ◌∙◌, Bool, true, false, none, some, List, [], not, ◌&&◌,
  if◌then◌else◌, ◌==◌, eq_iff, arith, Bool-cases, inl, inr, subst, keep_if,
}
use kumomiru.JsSet
use kumomiru.Db.Table
use kumomiru.Db.Scans.{
  ScanTrigger, ScanRow, scan_id, is_queued, is_running, running_of, new_scan, insert, is_target,
  claimed, claim, claim_next, set_regions, ScanResult, finish, final, FinalStatus,
}
use kumomiru.Db.Scans.Queue.{IsNext, claim_next-cases}

-- What one process writes between two writes of the others. The primary key lets an insertion through
-- if no row has its id.
pub data Step (t : List ScanRow) : List ScanRow → Type 0 where
  inserted :
      (id now account : String) (trigger : ScanTrigger)
      → Table.get scan_id id t ≡ none
      → Step t (insert (new_scan id now account trigger) t)
  claimed_next : (now worker : String) → Step t (claim_next now worker t).1
  covering : (id : String) (regions : List String) → Step t (set_regions id regions t)
  finished : (now id : String) (result : ScanResult) → Step t (finish now id result t)
  -- ON DELETE CASCADE, when an account is removed
  removed : (account : String) → Step t (keep_if (λ s. not (s.account_id == account)) t)

pub data Reach : List ScanRow → Type 0 where
  empty : Reach []
  next : {t u : List ScanRow} → Reach t → Step t u → Reach u

-- The ids are unique, and no account has two scans that run.
pub record OneRunning (t : List ScanRow) : Type 0 where
  pub key : Table.HasKey scan_id t
  pub one : (account : String) → Table.count (running_of account) t ≤ 1

OneRunning-update :
    (p : ScanRow → Bool) (f : ScanRow → ScanRow)
    → ((r : ScanRow) → (f r).id ≡ r.id)
    → ((a : String) (r : ScanRow) → p r ≡ true → running_of a (f r) ≡ true → running_of a r ≡ true)
    → (t : List ScanRow) → OneRunning t
    → OneRunning (Table.update_where p f t)
OneRunning-update p f same k t h = record {
  key = subst JsSet.Distinct (sym (Table.ids-update_where scan_id p f t same)) h.key;
  one = λ a. omega (arith, Table.count-update_where-le (running_of a) p f (k a) t, h.one a);
}

-- The target of a claim, if it is of the account.
abbrev target_of : String → String → ScanRow → Bool
target_of id a s = s.id == id && (s.account_id == a && is_queued s)

count-target_of :
    (t : List ScanRow) (r : ScanRow) (a : String)
    → Table.HasKey scan_id t
    → Table.get scan_id r.id t ≡ some r
    → is_queued r ≡ true
    → Table.count (target_of r.id a) t ≡ (if r.account_id == a then 1 else 0)
count-target_of t r a k here q =
    Table.count-key scan_id (λ s. s.account_id == a && is_queued s) r.id t k
    ∙ rw (here, q) (ground arith)

OneRunning-claim :
    (now worker : String) (t : List ScanRow) (r : ScanRow)
    → IsNext t r
    → OneRunning t
    → OneRunning (claim now worker r.id t)
unfolding claim
OneRunning-claim now worker t r (here, q, alone) h =
    let added = λ (a : String).
      Table.count-update_where-add (running_of a) (is_target r.id) (target_of r.id a)
        (claimed now worker) (λ s k n. ground arith) t in
    record {
      key =
          subst JsSet.Distinct
            (sym
              (Table.ids-update_where scan_id (is_target r.id) (claimed now worker) t (λ s. refl)))
            h.key;
      one = λ a. elim (Bool-cases (r.account_id == a)) [
        | inl same ↦
            let target : Table.count (target_of r.id a) t ≡ 1 =
              count-target_of t r a h.key here q ∙ rw same refl in
            let e = (eq_iff r.account_id a).0 same in
            omega (
              arith,
              added a,
              target,
              subst (λ b. Table.count (running_of b) t ≡ 0) e
                  (Table.count-none (running_of r.account_id) t alone),
            )
        | inr other ↦
            let target : Table.count (target_of r.id a) t ≡ 0 =
              count-target_of t r a h.key here q ∙ rw other refl in
            omega (arith, added a, h.one a, target)
      ];
    }

OneRunning-claim_next :
    (now worker : String) (t : List ScanRow) → OneRunning t → OneRunning (claim_next now worker t).1
OneRunning-claim_next now worker t h = elim (claim_next-cases now worker t h.key) [
  | inl (r, known, e) ↦ rw e (OneRunning-claim now worker t r known h)
  | inr (idle, none_left) ↦ rw idle h
]

is_running-final : (s : ScanRow) (f : FinalStatus) → s.status ≡ final f → is_running s ≡ false
is_running-final s FinalStatus.ok h = rw h refl
is_running-final s FinalStatus.partial h = rw h refl
is_running-final s FinalStatus.failed h = rw h refl

Step-OneRunning : {t u : List ScanRow} → Step t u → OneRunning t → OneRunning u
unfolding set_regions finish
Step-OneRunning {t} (inserted id now account trigger new) h = record {
  key = Table.HasKey-insert scan_id (new_scan id now account trigger) t h.key new;
  one = λ a.
      ground
        (arith, Table.count-insert (running_of a) t (new_scan id now account trigger), h.one a);
}
Step-OneRunning {t} (claimed_next now worker) h = OneRunning-claim_next now worker t h
Step-OneRunning {t} (covering id regions) h =
    OneRunning-update (λ s. s.id == id) (λ s. record s { regions = regions }) (λ r. refl)
      (λ a r e k. k) t h
Step-OneRunning {t} (finished now id result) h =
    OneRunning-update _ _ (λ r. refl) (λ a r e k. ground arith) t h
Step-OneRunning {t} (removed account) h = record {
  key = Table.HasKey-keep_if scan_id (λ s. not (s.account_id == account)) t h.key;
  one = λ a. omega (
    arith,
    Table.count-keep_if-le (running_of a) (λ s. not (s.account_id == account)) t,
    h.one a,
  );
}

-- Whatever processes insert queued scans with ids that no row has, claim, note the regions, finish and
-- remove with their account, in whatever order, from an empty table on, so that an insertion may come long after the lookup that
-- it rests on: at every moment the ids are unique, and no account has two scans that run.
pub Reach-OneRunning : {t : List ScanRow} → Reach t → OneRunning t
unfolding keep_if
Reach-OneRunning empty = record { key = tt; one = λ a. omega arith }
Reach-OneRunning (next r s) = Step-OneRunning s (Reach-OneRunning r)
