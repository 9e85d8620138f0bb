-- ===== src/Db/Findings/Summary.antt =====
-- What the summary of a reconcile says.
use kumomiru.Prelude.{
  ℕ, suc, ◌+◌, String, ◌≡◌, refl, ap, ap₂, ◌∙◌, not, ◌&&◌, ◌||◌, Option, none, some, List, [], ◌∷◌,
  map, ◌==◌, eq_iff, foldl, length, length-append, is_some, arith,
}
use native.Mathlib.Nat.{zero-add}
use kumomiru.JsSet
use kumomiru.Graph.Schema.{Finding}
use kumomiru.Db.Table
use kumomiru.Db.Findings.{
  FindingRow, row_id, ReconcileInput, ReconcileSummary, Progress, no_changes, upsert,
  resolve_unseen, unresolved_for, upsert_all, seen_ids, reconcile,
}
use kumomiru.Db.Findings.Reconcile.{
  lookup, finding_of, of_account, key-upsert_loop, has-finding_ids, lookup-upsert_loop, after_loop,
}

-- The findings that a summary counts.
abbrev pub counted : ReconcileSummary → ℕ
counted s = length s.opened + length s.reopened + length s.suppressed + s.unchanged

counted-upsert :
    (input : ReconcileInput) (p : Progress) (f : Finding)
    → counted (upsert input p f).summary ≡ suc (counted p.summary)
unfolding upsert
counted-upsert input p f =
    let one = λ (xs : List String). length-append xs (f.id ∷ []) in
    ground (arith, one p.summary.opened, one p.summary.reopened, one p.summary.suppressed)

counted-upsert_loop :
    (input : ReconcileInput) (p : Progress) (fs : List Finding)
    → counted (foldl (upsert input) p fs).summary ≡ counted p.summary + length fs
counted-upsert_loop input p [] = omega arith
counted-upsert_loop input p (f ∷ fs) =
    omega (arith, counted-upsert_loop input (upsert input p f) fs, counted-upsert input p f)

resolved-upsert :
    (input : ReconcileInput) (p : Progress) (f : Finding)
    → (upsert input p f).summary.resolved ≡ p.summary.resolved
unfolding upsert
resolved-upsert input p f = ground arith

resolved-upsert_loop :
    (input : ReconcileInput) (p : Progress) (fs : List Finding)
    → (foldl (upsert input) p fs).summary.resolved ≡ p.summary.resolved
resolved-upsert_loop input p [] = refl
resolved-upsert_loop input p (f ∷ fs) =
    resolved-upsert_loop input (upsert input p f) fs ∙ resolved-upsert input p f

module _ (input : ReconcileInput) (seen : List String) where
  counted-resolve_loop :
      (p : Progress) (is : List String)
      → counted (foldl (resolve_unseen input seen) p is).summary ≡ counted p.summary
  unfolding resolve_unseen
  counted-resolve_loop p [] = refl
  counted-resolve_loop p (i ∷ is) =
      counted-resolve_loop (resolve_unseen input seen p i) is ∙ ground arith

  has-resolved :
      (p : Progress) (i id : String)
      → JsSet.has id (resolve_unseen input seen p i).summary.resolved
        ≡ (JsSet.has id p.summary.resolved || i == id && not (JsSet.has i seen))
  unfolding resolve_unseen JsSet.has
  has-resolved p i id = ground (arith, JsSet.has-append id p.summary.resolved (i ∷ []))

  has-resolved_loop :
      (p : Progress) (is : List String) (id : String)
      → JsSet.has id (foldl (resolve_unseen input seen) p is).summary.resolved
        ≡ (JsSet.has id p.summary.resolved || JsSet.has id is && not (JsSet.has id seen))
  unfolding JsSet.has
  has-resolved_loop p [] id = ground arith
  has-resolved_loop p (i ∷ is) id = ground (
    arith,
    has-resolved_loop (resolve_unseen input seen p i) is id,
    has-resolved p i id,
    eq_iff i id,
  )

only_unseen :
    (input : ReconcileInput) (id : String) (found : Option Finding) (before : Option FindingRow)
    → (JsSet.has id []
        || Table.satisfies row_id (of_account input) (after_loop input found before)
          && not (is_some found))
      ≡ (Table.satisfies row_id (of_account input) before && not (is_some found))
unfolding JsSet.has
only_unseen input id none before = refl
only_unseen input id (some f) before = ground arith

-- The summary of a reconcile counts every finding of the scan once, as opened, reopened,
-- suppressed or unchanged; and, with unique row ids and unique finding ids, it lists an id as
-- resolved exactly if an unresolved row of the account had it and no finding of the scan has it.
pub reconcile-summary :
    (input : ReconcileInput) (t : List FindingRow)
    → Table.HasKey row_id t
    → JsSet.Distinct (map (λ f. f.id) input.findings)
    → (counted (reconcile input t).summary ≡ length input.findings)
      × ((id : String)
          → JsSet.has id (reconcile input t).summary.resolved ≡ (
              Table.satisfies row_id (of_account input) (lookup id t)
              && not (is_some (finding_of input id input.findings))))
unfolding reconcile unresolved_for
reconcile-summary input t k d =
    let start : Progress = record { table = t; summary = no_changes } in
    let p = upsert_all input t in
    let ids = unresolved_for input.account_id p.table in
    (
      counted-resolve_loop input (seen_ids input) p ids
          ∙ counted-upsert_loop input start input.findings
          ∙ zero-add (length input.findings),
      λ id.
          let found = finding_of input id input.findings in
          let held = key-upsert_loop input start input.findings k in
          let seen =
            JsSet.has-of_list id (map (λ f. f.id) input.findings)
            ∙ has-finding_ids input id input.findings in
          has-resolved_loop input (seen_ids input) p ids id
          ∙ ap (λ xs. JsSet.has id xs || JsSet.has id ids && not (JsSet.has id (seen_ids input)))
              (resolved-upsert_loop input start input.findings)
          ∙ ap₂ (λ a b. JsSet.has id [] || a && not b)
              (Table.has-selected row_id (of_account input) id p.table held) seen
          ∙ ap
              (λ o.
                JsSet.has id []
                || Table.satisfies row_id (of_account input) o && not (is_some found))
              (lookup-upsert_loop input start input.findings id d)
          ∙ only_unseen input id found (lookup id t),
    )
