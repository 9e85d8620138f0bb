-- ===== src/Db/Findings/Suppress.antt =====
-- Applying the suppressions to the stored findings.
use mathlib.Core.Option
use kumomiru.Prelude.{
  String, ◌≡◌, refl, ap, ◌∙◌, true, false, Option, none, some, List, [], ◌∷◌, map, if◌then◌else◌,
  ◌==◌, eq_iff, keep_if, All-keep_if, foldl, arith, Bool-cases, inl, inr, All,
}
use kumomiru.JsSet
use kumomiru.Db.Table
use kumomiru.Db.Suppression.{SuppressionRecord}
use kumomiru.Db.Findings.{
  Status, opened, resolved, suppressed, FindingRow, row_id, is_unresolved, same_status, same_id,
  resuppressed, apply_one, apply_suppressions,
}
use kumomiru.Db.Findings.Reconcile.{lookup}

same_status-eq : (a b : Status) → same_status a b ≡ true → a ≡ b
same_status-eq opened opened h = refl
same_status-eq resolved resolved h = refl
same_status-eq suppressed suppressed h = refl
same_status-eq opened resolved h = cc
same_status-eq opened suppressed h = cc
same_status-eq resolved opened h = cc
same_status-eq resolved suppressed h = cc
same_status-eq suppressed opened h = cc
same_status-eq suppressed resolved h = cc

same_id-eq : (a b : Option String) → same_id a b ≡ true → a ≡ b
same_id-eq none none h = refl
same_id-eq (some a) (some b) h = ap some ((eq_iff a b).0 h)
same_id-eq none (some b) h = cc
same_id-eq (some a) none h = cc

module _ (ss : List SuppressionRecord) (now : String) where
  -- The row after the pass: a resolved row stays as it is.
  abbrev pub settled : FindingRow → FindingRow
  settled r = if is_unresolved r then resuppressed ss now r else r

  unchanged :
      (r : FindingRow)
      → same_status (resuppressed ss now r).status r.status ≡ true
      → same_id (resuppressed ss now r).suppression_id r.suppression_id ≡ true
      → resuppressed ss now r ≡ r
  unfolding resuppressed
  unchanged r a b =
      let s = same_status-eq _ _ a in
      let i = same_id-eq _ _ b in λ k. record r { status = s k; suppression_id = i k }

  id-resuppressed : (r : FindingRow) → (resuppressed ss now r).id ≡ r.id
  unfolding resuppressed
  id-resuppressed r = refl

  -- What one round of the loop does to a row, from the row `r` that the loop has read.
  abbrev adopt : FindingRow → FindingRow → FindingRow
  adopt r q =
      let want = resuppressed ss now r in
      record q { status = want.status; suppression_id = want.suppression_id }

  adopt_self : (r : FindingRow) → adopt r r ≡ resuppressed ss now r
  unfolding resuppressed
  adopt_self r = refl

  lookup-apply_one :
      (t : List FindingRow) (r : FindingRow) (j : String)
      → lookup r.id t ≡ some r
      → lookup j (apply_one ss now t r)
        ≡ (if r.id == j then some (resuppressed ss now r) else lookup j t)
  unfolding apply_one
  lookup-apply_one t r j here =
      let up = Table.get-update row_id r.id j (adopt r) t (λ q. refl) in
      ground (arith, up, unchanged r, adopt_self r, eq_iff r.id j)

  -- Each of the rows still to be visited stands in the table as it was read.
  abbrev AreStored : List FindingRow → List FindingRow → Type 0
  AreStored t rs = All (λ r. lookup r.id t ≡ some r) rs

  AreStored-apply_one :
      (t : List FindingRow) (r : FindingRow) (rs : List FindingRow)
      → lookup r.id t ≡ some r
      → JsSet.has r.id (map row_id rs) ≡ false
      → AreStored t rs
      → AreStored (apply_one ss now t r) rs
  unfolding JsSet.has
  AreStored-apply_one t r [] here new h = tt
  AreStored-apply_one t r (q ∷ rs) here new h = (
    ground (arith, lookup-apply_one t r q.id here, eq_iff r.id q.id, eq_iff q.id r.id, h.0),
    AreStored-apply_one t r rs here (ground arith) h.1,
  )

  abbrev visited : Option FindingRow → Option FindingRow → Option FindingRow
  visited none before = before
  visited (some r) before = some (resuppressed ss now r)

  lookup-apply_loop :
      (t rs : List FindingRow) (j : String)
      → JsSet.Distinct (map row_id rs)
      → AreStored t rs
      → lookup j (foldl (apply_one ss now) t rs) ≡ visited (lookup j rs) (lookup j t)
  unfolding Table.get
  lookup-apply_loop t [] j d h = refl
  lookup-apply_loop t (r ∷ rs) j d h =
      let rest =
        lookup-apply_loop (apply_one ss now t r) rs j d.1
          (AreStored-apply_one t r rs h.0 d.0 h.1) in
      ground
        (arith, rest, lookup-apply_one t r j h.0, Table.has-ids row_id j rs, eq_iff r.id j, d.0)

module _ (ss : List SuppressionRecord) (now : String) where
  settle :
      (o : Option FindingRow)
      → visited ss now (Table.selected row_id is_unresolved o) o ≡ Option.map (settled ss now) o
  settle none = refl
  settle (some r) = elim (Bool-cases (is_unresolved r)) [
    | inl active ↦ rw active refl
    | inr done ↦ rw done refl
  ]

-- With unique row ids, applying the suppressions leaves every resolved row as it was and gives
-- every other row the status that the suppressions call for at that time: suppressed, with the id
-- of the first one that matches, or open with none.
pub apply_suppressions-lookup :
    (ss : List SuppressionRecord) (now : String) (t : List FindingRow)
    → Table.HasKey row_id t
    → (id : String)
    → lookup id (apply_suppressions ss now t) ≡ Option.map (settled ss now) (lookup id t)
unfolding apply_suppressions
apply_suppressions-lookup ss now t k id =
    lookup-apply_loop ss now t (keep_if is_unresolved t) id
      (Table.HasKey-keep_if row_id is_unresolved t k)
      (All-keep_if _ is_unresolved t (Table.AreStored-self row_id t k))
    ∙ ap (λ o. visited ss now o (lookup id t)) (Table.get-keep_if row_id is_unresolved t id k)
    ∙ settle ss now (lookup id t)
