-- ===== src/Db/Findings/Reconcile.antt =====
-- Reconciling a scan with the findings table, row by row.
use mathlib.Core.Option
use kumomiru.Prelude.{
  String, ◌≡◌, refl, ap, ap₂, ◌∙◌, Bool, true, false, not, ◌&&◌, ◌||◌, Option, none, some, List, [],
  ◌∷◌, map, if◌then◌else◌, ◌==◌, eq_iff, foldl, find_first, is_some, arith, Bool-cases,
  Option-cases, inl, inr,
}
use kumomiru.JsSet
use kumomiru.Graph.Schema.{Finding}
use kumomiru.Db.Table
use kumomiru.Db.Findings.{
  FindingRow, row_id, ReconcileInput, Progress, inserted, refreshed, resolved_row, is_unresolved,
  no_changes, upsert_at, upsert, resolve_unseen, unresolved_for, upsert_all, seen_ids, reconcile,
}

abbrev pub lookup : String → List FindingRow → Option FindingRow
lookup = Table.get row_id

module _ (input : ReconcileInput) where
  -- The row of a finding after the scan saw it.
  abbrev pub seen_row : Finding → Option FindingRow → FindingRow
  seen_row f none = inserted input f
  seen_row f (some r) = refreshed input f r

  -- The row of no finding of this scan.
  abbrev pub unseen_row : FindingRow → FindingRow
  unseen_row r =
      if r.account_id == input.account_id && is_unresolved r
      then resolved_row input.observed_at r
      else r

  -- What the table holds under an id after the scan, from what it held before.
  abbrev pub outcome : Option Finding → Option FindingRow → Option FindingRow
  outcome none before = Option.map unseen_row before
  outcome (some f) before = some (seen_row f before)

  abbrev pub finding_of : String → List Finding → Option Finding
  finding_of id = find_first (λ f. f.id == id)

  id-inserted : (f : Finding) → (inserted input f).id ≡ f.id
  unfolding inserted
  id-inserted f = refl

  id-refreshed : (f : Finding) (r : FindingRow) → (refreshed input f r).id ≡ r.id
  unfolding refreshed
  id-refreshed f r = refl

  id-resolved_row : (at : String) (r : FindingRow) → (resolved_row at r).id ≡ r.id
  unfolding resolved_row
  id-resolved_row at r = refl

  lookup-upsert :
      (p : Progress) (f : Finding) (j : String)
      → lookup j (upsert input p f).table
        ≡ (if f.id == j then some (seen_row f (lookup j p.table)) else lookup j p.table)
  unfolding upsert
  lookup-upsert p f j = elim (Bool-cases (f.id == j)) [
    | inl same ↦
        let e = (eq_iff f.id j).0 same in
        elim (Option-cases (lookup f.id p.table)) [
          | inl fresh ↦
              ground (arith, Table.get-insert row_id j (inserted input f) p.table, id-inserted f)
          | inr (r, known) ↦
              ground
                (arith, Table.get-update row_id f.id j (refreshed input f) p.table (id-refreshed f))
        ]
    | inr other ↦ elim (Option-cases (lookup f.id p.table)) [
      | inl fresh ↦
          ground (arith, Table.get-insert row_id j (inserted input f) p.table, id-inserted f)
      | inr (r, known) ↦
          ground
            (arith, Table.get-update row_id f.id j (refreshed input f) p.table (id-refreshed f))
    ]
  ]

  abbrev pub after_loop : Option Finding → Option FindingRow → Option FindingRow
  after_loop none before = before
  after_loop (some f) before = some (seen_row f before)

  pub has-finding_ids :
      (j : String) (fs : List Finding)
      → JsSet.has j (map (λ f. f.id) fs) ≡ is_some (finding_of j fs)
  unfolding JsSet.has find_first
  has-finding_ids j [] = refl
  has-finding_ids j (f ∷ fs) = ground (arith, has-finding_ids j fs)

  pub lookup-upsert_loop :
      (p : Progress) (fs : List Finding) (j : String)
      → JsSet.Distinct (map (λ f. f.id) fs)
      → lookup j (foldl (upsert input) p fs).table ≡ after_loop (finding_of j fs) (lookup j p.table)
  unfolding find_first
  lookup-upsert_loop p [] j d = refl
  lookup-upsert_loop p (f ∷ fs) j d = elim (Bool-cases (f.id == j)) [
    | inl same ↦
        let e = (eq_iff f.id j).0 same in
        ground (
          arith,
          lookup-upsert_loop (upsert input p f) fs j d.1,
          lookup-upsert p f j,
          has-finding_ids j fs,
          d.0,
        )
    | inr other ↦ rw other (
        lookup-upsert_loop (upsert input p f) fs j d.1
        ∙ ap (after_loop (finding_of j fs)) (lookup-upsert p f j ∙ rw other refl))
  ]

  key-upsert :
      (p : Progress) (f : Finding)
      → Table.HasKey row_id p.table
      → Table.HasKey row_id (upsert input p f).table
  unfolding upsert
  key-upsert p f k = elim (Option-cases (lookup f.id p.table)) [
    | inl fresh ↦
        rw (fresh, upsert_at)
          (Table.HasKey-insert row_id (inserted input f) p.table k
            (ap (λ i. lookup i p.table) (id-inserted f) ∙ fresh))
    | inr (r, known) ↦
        rw (known, upsert_at)
          (rw (Table.ids-update row_id f.id (refreshed input f) p.table (id-refreshed f)) k)
  ]

  pub key-upsert_loop :
      (p : Progress) (fs : List Finding)
      → Table.HasKey row_id p.table
      → Table.HasKey row_id (foldl (upsert input) p fs).table
  key-upsert_loop p [] k = k
  key-upsert_loop p (f ∷ fs) k = key-upsert_loop (upsert input p f) fs (key-upsert p f k)

  module _ (seen : List String) where
    abbrev resolve_if : Bool → Option FindingRow → Option FindingRow
    resolve_if test o = if test then Option.map (resolved_row input.observed_at) o else o

    lookup-resolve :
        (p : Progress) (i j : String)
        → lookup j (resolve_unseen input seen p i).table
          ≡ resolve_if (i == j && not (JsSet.has i seen)) (lookup j p.table)
    unfolding resolve_unseen
    lookup-resolve p i j = ground (
      arith,
      Table.get-update row_id i j (resolved_row input.observed_at) p.table
          (id-resolved_row input.observed_at),
    )

    resolve_twice :
        (a b : Bool) (o : Option FindingRow) → resolve_if a (resolve_if b o) ≡ resolve_if (b || a) o
    unfolding resolved_row
    resolve_twice true true none = refl
    resolve_twice true true (some r) = refl
    resolve_twice true false o = refl
    resolve_twice false true o = refl
    resolve_twice false false o = refl

    lookup-resolve_loop :
        (p : Progress) (is : List String) (j : String)
        → lookup j (foldl (resolve_unseen input seen) p is).table
          ≡ resolve_if (JsSet.has j is && not (JsSet.has j seen)) (lookup j p.table)
    unfolding JsSet.has
    lookup-resolve_loop p [] j = refl
    lookup-resolve_loop p (i ∷ is) j =
        lookup-resolve_loop (resolve_unseen input seen p i) is j
        ∙ ap (resolve_if (JsSet.has j is && not (JsSet.has j seen))) (lookup-resolve p i j)
        ∙ resolve_twice (JsSet.has j is && not (JsSet.has j seen))
            (i == j && not (JsSet.has i seen)) (lookup j p.table)
        ∙ ap (λ b. resolve_if b (lookup j p.table)) (ground (arith, eq_iff i j))

  abbrev pub of_account : FindingRow → Bool
  of_account r = r.account_id == input.account_id && is_unresolved r

  settle :
      (found : Option Finding) (before : Option FindingRow)
      → resolve_if []
          (Table.satisfies row_id of_account (after_loop found before) && not (is_some found))
          (after_loop found before)
        ≡ outcome found before
  settle none none = refl
  settle none (some r) = elim (Bool-cases (of_account r)) [
    | inl mine ↦ rw mine refl
    | inr other ↦ rw other refl
  ]
  settle (some f) before = elim (Bool-cases (of_account (seen_row f before))) [
    | inl mine ↦ rw mine refl
    | inr other ↦ rw other refl
  ]

-- With unique row ids and unique finding ids, after a reconcile the table holds under every id:
-- for a finding of the scan the row of that finding, inserted or refreshed (open, or suppressed if
-- a suppression matches, and not resolved); for any other id the old row, which is resolved at the
-- time of the scan if it belongs to the account and was not resolved before.
pub reconcile-lookup :
    (input : ReconcileInput) (t : List FindingRow)
    → Table.HasKey row_id t
    → JsSet.Distinct (map (λ f. f.id) input.findings)
    → (id : String)
    → lookup id (reconcile input t).table
      ≡ outcome input (finding_of input id input.findings) (lookup id t)
unfolding reconcile unresolved_for
reconcile-lookup input t k d id =
    let p = upsert_all input t in
    let found = finding_of input id input.findings in
    let looked =
      lookup-upsert_loop input (record { table = t; summary = no_changes }) input.findings id d in
    let held =
      key-upsert_loop input (record { table = t; summary = no_changes }) input.findings k in
    let chosen = Table.has-selected row_id (of_account input) id p.table held in
    let seen =
      JsSet.has-of_list id (map (λ f. f.id) input.findings)
      ∙ has-finding_ids input id input.findings in
    lookup-resolve_loop input (seen_ids input) p (unresolved_for input.account_id p.table) id
    ∙ ap₂ (λ a b. resolve_if input [] (a && not b) (lookup id p.table)) chosen seen
    ∙ ap
        (λ o.
          resolve_if input [] (Table.satisfies row_id (of_account input) o && not (is_some found))
            o)
        looked
    ∙ settle input found (lookup id t)

key-resolve_loop :
    (input : ReconcileInput) (seen : List String) (p : Progress) (is : List String)
    → Table.HasKey row_id p.table
    → Table.HasKey row_id (foldl (resolve_unseen input seen) p is).table
unfolding resolve_unseen
key-resolve_loop input seen p [] k = k
key-resolve_loop input seen p (i ∷ is) k =
    key-resolve_loop input seen (resolve_unseen input seen p i) is
      (elim (Bool-cases (JsSet.has i seen)) [
        | inl old ↦ rw old k
        | inr new ↦ rw new (
            rw
              (Table.ids-update row_id i (resolved_row input.observed_at) p.table
                (id-resolved_row input input.observed_at))
              k)
      ])

-- A reconcile keeps the row ids unique.
pub reconcile-HasKey :
    (input : ReconcileInput) (t : List FindingRow)
    → Table.HasKey row_id t
    → Table.HasKey row_id (reconcile input t).table
unfolding reconcile
reconcile-HasKey input t k =
    key-resolve_loop input (seen_ids input) (upsert_all input t)
      (unresolved_for input.account_id (upsert_all input t).table)
      (key-upsert_loop input (record { table = t; summary = no_changes }) input.findings k)
