-- ===== src/Db/Scans/Queue.antt =====
-- What a claim does, and the active scans of an account while no process writes between the two
-- statements of another's `enqueue`.
use kumomiru.Prelude.{
  ◌≤◌, String, ◌≡◌, refl, ap, ◌∙◌, Bool, true, false, none, some, List, [], if◌then◌else◌, ◌==◌,
  eq_iff, eq_refl, keep_if, All-kept, keep_if-nil, All, any, length, arith, Bool-cases,
  Option-cases, inl, inr, ◌⊎◌, nat_eq,
}
use kumomiru.Db.Table
use kumomiru.Db.Scans.{
  ScanTrigger, queued, ScanRow, scan_id, is_queued, active_of, running_of, active, new_scan,
  enqueue, claimable, next_queued, is_target, claimed, claim, claim_next, set_regions, ScanResult,
  finish,
}

-- No account has two scans that are queued or running.
abbrev pub OneActive : List ScanRow → Type 0
OneActive t = (account : String) → Table.count (active_of account) t ≤ 1

-- The steps of the program on the table of scans, an `enqueue` with nothing between its statements.
pub data Step (t : List ScanRow) : List ScanRow → Type 0 where
  enqueued :
      (id now account : String) (trigger : ScanTrigger)
      → Step t (enqueue id now account trigger t).1
  claimed_next : (now worker : String) → Step t (claim_next now worker t).1
  covering : (id : String) (regions : List String) → Step t (set_regions id regions t)
  finished : (now id : String) (result : ScanResult) → Step t (finish now id result t)

pub data Reach : List ScanRow → Type 0 where
  empty : Reach []
  next : {t u : List ScanRow} → Reach t → Step t u → Reach u

OneActive-enqueue :
    (id now account : String) (trigger : ScanTrigger) (t : List ScanRow)
    → OneActive t
    → OneActive (enqueue id now account trigger t).1
unfolding enqueue active
OneActive-enqueue id now account trigger t h a =
    elim (Option-cases (Table.first_by (λ s. s.created_at) (keep_if (active_of account) t))) [
      | inl free ↦
          let none_active =
            Table.first_by-none (λ s. s.created_at) (keep_if (active_of account) t) free in
          rw free (
            ground (
              arith,
              Table.count-insert (active_of a) t (new_scan id now account trigger),
              ap length none_active,
              eq_iff account a,
              h a,
            ))
      | inr (r, busy) ↦ rw busy (h a)
    ]

OneActive-update :
    (p : ScanRow → Bool) (f : ScanRow → ScanRow)
    → ((a : String) (r : ScanRow) → p r ≡ true → active_of a (f r) ≡ true → active_of a r ≡ true)
    → (t : List ScanRow) → OneActive t
    → OneActive (Table.update_where p f t)
OneActive-update p f k t h a =
    omega (arith, Table.count-update_where-le (active_of a) p f (k a) t, h a)

OneActive-claim :
    (now worker id : String) (t : List ScanRow) → OneActive t → OneActive (claim now worker id t)
unfolding claim
OneActive-claim now worker id t =
    OneActive-update (is_target id) (claimed now worker) (λ a r e k. ground arith) t

OneActive-claim_next :
    (now worker : String) (t : List ScanRow) → OneActive t → OneActive (claim_next now worker t).1
unfolding claim_next
OneActive-claim_next now worker t h = elim (Option-cases (next_queued t)) [
  | inl idle ↦ rw idle h
  | inr (r, e) ↦ rw e (elim (Bool-cases (nat_eq (Table.count (is_target r.id) t) 1)) [
    | inl one ↦ rw one (OneActive-claim now worker r.id t h)
    | inr other ↦ rw other (OneActive-claim now worker r.id t h)
  ])
]

Step-OneActive : {t u : List ScanRow} → Step t u → OneActive t → OneActive u
unfolding set_regions finish
Step-OneActive {t} (enqueued id now account trigger) h =
    OneActive-enqueue id now account trigger t h
Step-OneActive {t} (claimed_next now worker) h = OneActive-claim_next now worker t h
Step-OneActive {t} (covering id regions) h =
    OneActive-update (λ s. s.id == id) (λ s. record s { regions = regions }) (λ a r e k. k) t h
Step-OneActive {t} (finished now id result) h = OneActive-update _ _ (λ a r e k. ground arith) t h

-- However scans are queued, claimed, given regions and finished by these steps, from an empty table on,
-- at every moment an account has at most one scan that is queued or running.
pub Reach-OneActive : {t : List ScanRow} → Reach t → OneActive t
unfolding keep_if
Reach-OneActive empty a = omega arith
Reach-OneActive (next r s) a = Step-OneActive s (Reach-OneActive r) a

id-claimed : (now worker : String) (s : ScanRow) → (claimed now worker s).id ≡ s.id
id-claimed now worker s = refl

pub lookup-claim :
    (now worker : String) (t : List ScanRow) (r : ScanRow) (j : String)
    → Table.get scan_id r.id t ≡ some r
    → is_queued r ≡ true
    → Table.get scan_id j (claim now worker r.id t)
      ≡ (if r.id == j then some (claimed now worker r) else Table.get scan_id j t)
unfolding claim
lookup-claim now worker t r j here q =
    Table.get-update_where scan_id (is_target r.id) (claimed now worker) j t (λ s. refl)
    ∙ elim (Bool-cases (r.id == j)) [
      | inl same ↦ let e = (eq_iff r.id j).0 same in ground (arith, eq_refl r.id)
      | inr other ↦ rw other (elim (Option-cases (Table.get scan_id j t)) [
        | inl absent ↦ rw absent refl
        | inr (s, found) ↦
            rw found
              (ground (arith, Table.id-get scan_id j t s found, eq_iff s.id r.id, eq_iff r.id j))
      ])
    ]

-- What is known of the scan that is to be claimed.
abbrev pub IsNext : List ScanRow → ScanRow → Type 0
IsNext t r =
    (Table.get scan_id r.id t ≡ some r)
    × (is_queued r ≡ true)
    × (any (running_of r.account_id) t ≡ false)

next_queued-IsNext :
    (t : List ScanRow) (r : ScanRow) → Table.HasKey scan_id t → next_queued t ≡ some r → IsNext t r
unfolding next_queued claimable
next_queued-IsNext t r k e =
    let (stored, test) =
      Table.first_by-All (λ s. s.created_at)
        (λ s. (Table.get scan_id s.id t ≡ some s) × (claimable t s ≡ true))
        (keep_if (claimable t) t) r
        (All-kept (λ s. Table.get scan_id s.id t ≡ some s) (claimable t) t
          (Table.AreStored-self scan_id t k))
        e in
    (stored, ground arith, ground arith)

count_of_target :
    (t : List ScanRow) (r : ScanRow)
    → Table.HasKey scan_id t
    → IsNext t r
    → Table.count (is_target r.id) t ≡ 1
count_of_target t r k (here, q, alone) =
    Table.count-key scan_id is_queued r.id t k ∙ rw (here, q) refl

claim_next-of_next :
    (now worker : String) (t : List ScanRow) (r : ScanRow)
    → Table.HasKey scan_id t
    → next_queued t ≡ some r
    → claim_next now worker t ≡ (some (claimed now worker r), claim now worker r.id t)
unfolding claim_next
claim_next-of_next now worker t r k e =
    let known = next_queued-IsNext t r k e in
    let found = lookup-claim now worker t r r.id known.0 known.1 in
    rw (e, count_of_target t r k known, found, eq_refl r.id) refl

-- What a claim did: the scan `s` was queued, no scan of its account ran, it runs now for the
-- worker, and every other row is as it was.
pub record Claims (now worker : String) (t : List ScanRow) (s : ScanRow) (t' : List ScanRow)
    : Type 0 where
  pub before : ScanRow
  pub stored : Table.get scan_id s.id t ≡ some before
  pub waiting : before.status ≡ queued
  pub alone : any (running_of s.account_id) t ≡ false
  pub started : s ≡ claimed now worker before
  pub after :
      (j : String) → Table.get scan_id j t' ≡ (if s.id == j then some s else Table.get scan_id j t)

pub is_queued-eq : (s : ScanRow) → is_queued s ≡ true → s.status ≡ queued
is_queued-eq s h = ground arith

-- What `claim_next` gives, in the terms of `claim`.
pub claim_next-cases :
    (now worker : String) (t : List ScanRow)
    → Table.HasKey scan_id t
    → ((r : ScanRow) × IsNext t r
        × (claim_next now worker t ≡ (some (claimed now worker r), claim now worker r.id t)))
      ⊎ ((claim_next now worker t ≡ (none, t)) × All (λ s. claimable t s ≡ false) t)
unfolding claim_next next_queued
claim_next-cases now worker t k = elim (Option-cases (next_queued t)) [
  | inl idle ↦
      inr
        (rw idle refl, keep_if-nil (claimable t) t (Table.first_by-none (λ s. s.created_at) _ idle))
  | inr (r, e) ↦ inl (r, next_queued-IsNext t r k e, claim_next-of_next now worker t r k e)
]

-- With unique scan ids `claim_next` gives a scan that was queued and whose account had no running
-- scan, marks it as running for the worker and changes no other row; and it gives none only if
-- there is no such scan, with the table as it was.
pub claim_next-Claims :
    (now worker : String) (t : List ScanRow)
    → Table.HasKey scan_id t
    → ((s : ScanRow) × (t' : List ScanRow) × (claim_next now worker t ≡ (some s, t'))
        × Claims now worker t s t')
      ⊎ ((claim_next now worker t ≡ (none, t)) × All (λ s. claimable t s ≡ false) t)
claim_next-Claims now worker t k = elim (claim_next-cases now worker t k) [
  | inr idle ↦ inr idle
  | inl (r, known, e) ↦ inl (
    claimed now worker r,
    claim now worker r.id t,
    e,
    record {
      before = r;
      stored = known.0;
      waiting = is_queued-eq r known.1;
      alone = known.2;
      started = refl;
      after = λ j. lookup-claim now worker t r j known.0 known.1;
    },
  )
]
