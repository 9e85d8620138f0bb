-- ===== src/Worker/ScanJob/Laws.antt =====
-- How a scan ends.
use kumomiru.Prelude.{
  String, ◌≡◌, refl, sym, ap, ap₂, ◌∙◌, ◌⊎◌, inl, inr, true, Option, none, some, List, ◌==◌, eq_iff,
  Bool-cases, nil_or_cons, Option-cases,
}
use kumomiru.Graph.Schema.{Graph, Attributes}
use kumomiru.Graph.Integrity.{check_referential_integrity}
use kumomiru.Graph.Integrity.Laws.{IsIntegral, check_referential_integrity-eq-nil_iff}
use kumomiru.Db.Accounts.{AccountRow}
use kumomiru.Db.Scans
use kumomiru.Db.Scans.{ScanRow, ScanResult}
use kumomiru.Db.Findings.{FindingRow}
use kumomiru.Worker.ScanJob.{
  Database, Answers, Setting, regions_write, snapshot_write, results_write, findings_write,
  diff_write, finish_write, account_write, conclusion, passes, assess, assessed, with_snapshot,
  reconciled, is_enabled, attempt, conclude, compare, previous, persist, give_up, check_and_persist,
  discover, confirm, verify, is_verify, regions_of, run_scan,
}
use kumomiru.Worker.ScanJob.Outcomes.{
  Discovered, graph_of, with_regions, with_graph, results_of, Reason, no_role, no_regions,
  no_global, no_identity, other_account, broken_graph, refused, IsVerified, Interrupts, Outcome,
  failed, cut_short, stored, verified, unmarked,
}

attempt-cases :
    (c : Setting) (scan : ScanRow) (P : Database → Type 0) (o : Option String) (db next : Database)
    → ((error : String) → o ≡ some error → P (give_up c scan error db))
    → (o ≡ none → P next)
    → P (attempt c o scan db next)
attempt-cases c scan P none db next f g = g refl
attempt-cases c scan P (some error) db next f g = f error refl

-- A call that goes on by what an answer is.
sum-cases :
    {A B : Type 0} (P : Database → Type 0) (o : A ⊎ B) (f : A → Database) (g : B → Database)
    → ((a : A) → o ≡ inl a → P (f a))
    → ((b : B) → o ≡ inr b → P (g b))
    → P (elim o [ inl a ↦ f a | inr b ↦ g b ])
sum-cases P (inl a) f g h k = h a refl
sum-cases P (inr b) f g h k = k b refl

module _ (c : Setting) (w : Answers) (scan : ScanRow) (account : AccountRow) (db : Database) where
  abbrev Ends : Database → Type 0
  Ends = Outcome c w scan account db

  Ends-give_up :
      (error : String) → Reason c w scan account db error → Ends (give_up c scan error db)
  Ends-give_up error reason = failed (record {
    error = error;
    reason = reason;
    before = db.scans;
    regions = inl refl;
    after = refl;
  })

  module _ (d : Discovered c w scan account db) where
    -- After the regions of the scan were noted.
    abbrev noted : Database
    noted = record db { scans = with_regions c w scan account db d }

    Ends-noted :
        (error : String) → Reason c w scan account db error → Ends (give_up c scan error noted)
    Ends-noted error reason = failed (record {
      error = error;
      reason = reason;
      before = noted.scans;
      regions = inr (d.regions, refl);
      after = refl;
    })

    abbrev g : Graph
    g = graph_of c w scan account db d

    -- A store in which the snapshot stands, and the scan is not over yet.
    record Open (s : Database) : Type 0 where
      scans : s.scans ≡ noted.scans
      snapshots : s.snapshots ≡ with_graph c w scan account db d
      accounts : s.accounts ≡ db.accounts
      suppressions : s.suppressions ≡ db.suppressions

    module _ (ok : IsIntegral g) where
      Ends-cut_short :
          (s : Database) (error : String)
          → Open s
          → Interrupts c w scan account db d error
          → Ends (give_up c scan error s)
      Ends-cut_short s error o cause = cut_short (record {
        found = d;
        integral = ok;
        error = error;
        cause = cause;
        before = s.scans;
        marked = inl o.scans;
        scans = refl;
        snapshots = o.snapshots;
        accounts = o.accounts;
        suppressions = o.suppressions;
      })

      abbrev lost : List (String × String)
      lost = (passes w d.global d.regions).failed

      abbrev new_findings : List FindingRow
      new_findings = (reconciled c account (assessed c g) (assess c g) db).table

      Ends-conclude :
          (s : Database) (stats : Attributes)
          → Open s
          → results_of c w scan account db d ≡ some s.rule_results
          → s.findings ≡ new_findings
          → Ends (conclude c w scan account (conclusion c lost stats) s)
      unfolding conclude
      Ends-conclude s stats o rows same =
          let result = conclusion c lost stats in
          let done = record s { scans = Scans.finish c.store_now scan.id result s.scans } in
          let finished = ap (Scans.finish c.store_now scan.id result) o.scans in
          let kept : (t : Database) → t ≡ record done { accounts = t.accounts } → Ends t = λ t e.
            stored (record {
              found = d;
              integral = ok;
              stats = stats;
              scans = ap (λ x. x.scans) e ∙ finished;
              snapshots = ap (λ x. x.snapshots) e ∙ o.snapshots;
              rule_results = rows ∙ ap (λ x. some x.rule_results) (sym e);
              findings = ap (λ x. x.findings) e ∙ same;
              suppressions = ap (λ x. x.suppressions) e ∙ o.suppressions;
            }) in
          attempt-cases c scan Ends (w.store finish_write) s _
            (λ error e. Ends-cut_short s error o (inl (finish_write, e, refl)))
            (λ _. elim (Bool-cases (is_enabled c account.status)) [
              | inl active ↦ rw active (kept done refl)
              | inr other ↦ rw other (
                  attempt-cases c scan Ends (w.store account_write) done _
                    (λ error e. cut_short (record {
                      found = d;
                      integral = ok;
                      error = error;
                      cause = inl (account_write, e, refl);
                      before = done.scans;
                      marked = inr (result, finished);
                      scans = refl;
                      snapshots = o.snapshots;
                      accounts = o.accounts;
                      suppressions = o.suppressions;
                    }))
                    (λ _. kept _ refl))
            ])

      Ends-compare :
          (s : Database) (regions : List String) (prev : Option Graph)
          → Open s
          → s.findings ≡ db.findings
          → results_of c w scan account db d ≡ some s.rule_results
          → Ends (compare c w scan account regions lost (assessed c g) (assess c g) prev s)
      unfolding compare
      Ends-compare s regions prev o old rows =
          let s1 = record s {
            findings = (reconciled c account (assessed c g) (assess c g) s).table;
          } in
          let o1 : Open s1 = record {
            scans = o.scans;
            snapshots = o.snapshots;
            accounts = o.accounts;
            suppressions = o.suppressions;
          } in
          attempt-cases c scan Ends (w.store findings_write) s _
            (λ error e. Ends-cut_short s error o (inl (findings_write, e, refl)))
            (λ _.
              attempt-cases c scan Ends (w.store diff_write) s1 _
                (λ error e. Ends-cut_short s1 error o1 (inl (diff_write, e, refl)))
                (λ _.
                  Ends-conclude _ _
                    (record {
                      scans = o.scans;
                      snapshots = o.snapshots;
                      accounts = o.accounts;
                      suppressions = o.suppressions;
                    })
                    rows
                    (ap₂
                      (λ fs ss.
                        (reconciled c account (assessed c g) (assess c g)
                          (record db { findings = fs; suppressions = ss })).table)
                      old o.suppressions)))

      Ends-persist : (regions : List String) → Ends (persist c w scan account regions lost g noted)
      unfolding persist
      Ends-persist regions =
          let s = with_snapshot c scan account g noted in
          let o : Open s = record {
            scans = refl;
            snapshots = refl;
            accounts = refl;
            suppressions = refl;
          } in
          attempt-cases c scan Ends (w.store snapshot_write) noted _
            (λ error e. Ends-noted error (refused snapshot_write e))
            (λ _.
              attempt-cases c scan Ends (w.store results_write) s _
                (λ error e. Ends-cut_short s error o (inl (results_write, e, refl)))
                (λ _. elim (Option-cases (results_of c w scan account db d)) [
                  | inl clash ↦ rw clash (Ends-cut_short s w.conflict o (inr (refl, clash)))
                  | inr (rows, e) ↦ rw e (
                      Ends-compare (record s { rule_results = rows }) regions
                        (previous c account noted)
                        (record {
                          scans = refl;
                          snapshots = refl;
                          accounts = refl;
                          suppressions = refl;
                        })
                        refl e)
                ]))

    Ends-check_and_persist :
        (regions : List String)
        → Ends (
            check_and_persist c w scan account regions (passes w d.global d.regions).failed g noted)
    unfolding check_and_persist
    Ends-check_and_persist regions = elim (nil_or_cons (check_referential_integrity g)) [
      | inl clean ↦
          rw (check_and_persist, clean)
            (Ends-persist ((check_referential_integrity-eq-nil_iff g).0 clean) regions)
      | inr (p, ps, e) ↦
          rw (check_and_persist, e)
            (Ends-noted _
              (broken_graph d (λ h. cc (e, (check_referential_integrity-eq-nil_iff g).1 h))))
    ]

  Ends-discover :
      (regions : List String)
      → regions_of c w account ≡ inl regions
      → Ends (discover c w scan account regions db)
  unfolding discover
  Ends-discover regions known =
      let after = record db { scans = Scans.set_regions scan.id regions db.scans } in
      attempt-cases c scan Ends (w.store regions_write) db _
        (λ error e. Ends-give_up error (refused regions_write e))
        (λ _.
          sum-cases Ends w.global _ _
            (λ global e.
              Ends-check_and_persist
                (record { regions = regions; global = global; known = known; passed = e }) _)
            (λ error e. failed (record {
              error = error;
              reason = no_global e;
              before = after.scans;
              regions = inr (regions, refl);
              after = refl;
            })))

  Ends-confirm : IsVerified c w scan account db → Ends (confirm c w scan account db)
  unfolding confirm
  Ends-confirm valid =
      attempt-cases c scan Ends (w.store account_write) db _
        (λ error e. Ends-give_up error (refused account_write e))
        (λ _.
          attempt-cases c scan Ends (w.store finish_write) _ _
            (λ error e.
              unmarked (record { valid = valid; error = error; refused_finish = e; after = refl }))
            (λ _. verified (record { valid = valid; stats = _; after = refl })))

  Ends-verify : is_verify c scan.trigger ≡ true → Ends (verify c w scan account db)
  unfolding verify
  Ends-verify trigger =
      sum-cases Ends w.account_id _ _
        (λ seen e. elim (Bool-cases (seen == account.id)) [
          | inr other ↦ rw other (Ends-give_up _ (other_account seen e other))
          | inl same ↦ rw same (
              Ends-confirm (record {
                trigger = trigger;
                landed = e ∙ ap inl ((eq_iff seen account.id).0 same);
              }))
        ])
        (λ error e. Ends-give_up error (no_identity e))

  -- Whatever AWS answers, and whichever writes of the store throw, but for the one that marks a scan as
  -- failed, a scan ends in one of five ways. It is
  -- marked as failed for a reason, with no change to a table but that of the scans: the role, the regions,
  -- the global pass or the account id was an error, another account answered, the merged graph breaks the
  -- referential checks, or a write threw. Or the merged graph passes the checks, its snapshot is stored
  -- with the findings of the rules, and the scan is marked as failed, since a later write threw or two
  -- rule results have the same key. Or the snapshot, the rule results and the reconciled findings are
  -- stored, and the scan is marked as ok, or as partial where a region failed. Or, for a verification that
  -- lands in the account, the account is marked as active and the scan as ok; or the account is, and the
  -- scan as failed, since the write of its end threw.
  pub run_scan-Outcome : Outcome c w scan account db (run_scan c w scan account db)
  unfolding run_scan
  run_scan-Outcome =
      sum-cases Ends w.assumed _ _
        (λ u e. elim (Bool-cases (is_verify c scan.trigger)) [
          | inl check ↦ rw check (Ends-verify check)
          | inr whole ↦ rw whole (
              sum-cases Ends (regions_of c w account) _ _ (λ regions r. Ends-discover regions r)
                (λ error r. Ends-give_up error (no_regions r)))
        ])
        (λ error e. Ends-give_up error (no_role e))
