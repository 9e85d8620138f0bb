-- ===== src/Rules/Compliance/Laws.antt =====
-- Which rows decide a control, and how.
use kumomiru.Prelude.{
  ℕ, ◌+◌, ◌<◌, String, ◌≡◌, refl, sym, ap, ◌∙◌, ◌↔◌, inl, inr, Bool, true, false, not, ◌&&◌, List,
  [], ◌∷◌, ◌++◌, map, foldl, flat_map, keep_if, any, if◌then◌else◌, length, ◌==◌, arith, Bool-cases,
  All₂, All₂-map,
}
use mathlib.Core.List.{append-nil, append_assoc}
use kumomiru.JsMap
use kumomiru.JsMap.Group
use kumomiru.Graph.Schema.{ControlRef, Framework, framework_eq}
use kumomiru.Db.Results.{RuleStatus, RuleResult}
use kumomiru.Rules.{Rule, base_of}
use kumomiru.Rules.Run.{feed_rule}
use kumomiru.Rules.Compliance.{
  Control, ControlStatus, ControlVerdict, Tally, tally_row, tally_status, no_rows, map_control,
  map_rule, rules_by_control, by_rule, by_feed, deciding_rules, tally, verdict, control_status,
  control_statuses, is_fsbp, is_empty,
}

abbrev pub rows_for : List RuleResult → String → List RuleResult
rows_for results id = keep_if (λ r. r.rule_id == id) results

abbrev pub is_control : Framework → String → ControlRef → Bool
is_control framework id c = framework_eq c.framework framework && c.id == id

-- The rules that map to a control, once for each mention.
abbrev pub mapped_rules : Framework → String → List Rule → List String
mapped_rules framework id = flat_map (λ rule.
    map (λ c. (base_of rule).id) (keep_if (is_control framework id) (base_of rule).controls))

abbrev pub reported : Framework → List RuleResult → String → Bool
reported framework results id = is_fsbp framework && any (λ r. r.rule_id == feed_rule id) results

-- The rows that decide: the feed's where it has any for a control of FSBP, else the mapped rules'.
abbrev pub deciders : Framework → List RuleResult → List Rule → String → List RuleResult
deciders framework results rules id =
    if reported framework results id
    then rows_for results (feed_rule id)
    else flat_map (rows_for results) (mapped_rules framework id rules)

abbrev pub has_status : RuleStatus → RuleResult → Bool
has_status RuleStatus.pass r = elim r.status [ RuleStatus.pass ↦ true | _ ↦ false ]
has_status RuleStatus.fail r = elim r.status [ RuleStatus.fail ↦ true | _ ↦ false ]
has_status RuleStatus.not_assessed r = elim r.status [ RuleStatus.not_assessed ↦ true | _ ↦ false ]
has_status RuleStatus.not_applicable r = elim r.status [
  | RuleStatus.not_applicable ↦ true
  | _ ↦ false
]

abbrev pub counted : RuleStatus → List RuleResult → ℕ
counted s rows = length (keep_if (has_status s) rows)

map-id : (rows : List RuleResult) → map (λ r. r) rows ≡ rows
map-id [] = refl
map-id (r ∷ rows) = ap (◌∷◌ r) (map-id rows)

group_at-by_rule :
    (id : String) (results : List RuleResult)
    → Group.group_at id (by_rule results) ≡ rows_for results id
unfolding by_rule
group_at-by_rule id results =
    Group.group_at-of (λ r. r.rule_id) (λ r. r) id results ∙ map-id (rows_for results id)

module _ (framework : Framework) (id : String) where
  group_at-map_controls :
      (rule : String) (cs : List ControlRef) (m : List (String × List String))
      → Group.group_at id (foldl (map_control framework rule) m cs)
        ≡ Group.group_at id m ++ map (λ c. rule) (keep_if (is_control framework id) cs)
  unfolding map_control keep_if
  group_at-map_controls rule [] m = sym (append-nil (Group.group_at id m))
  group_at-map_controls rule (c ∷ cs) m = elim (Bool-cases (framework_eq c.framework framework)) [
    | inr other ↦ group_at-map_controls rule cs (map_control framework rule m c) ∙ rw other refl
    | inl ours ↦ elim (Bool-cases (c.id == id)) [
      | inl same ↦
          group_at-map_controls rule cs (map_control framework rule m c)
          ∙ rw (ours, Group.group_at-push id c.id rule m, same)
              (append_assoc (Group.group_at id m) (rule ∷ [])
                (map (λ c. rule) (keep_if (is_control framework id) cs)))
      | inr else_ ↦
          group_at-map_controls rule cs (map_control framework rule m c)
          ∙ rw (ours, Group.group_at-push id c.id rule m, else_) refl
    ]
  ]

  group_at-map_rules :
      (rules : List Rule) (m : List (String × List String))
      → Group.group_at id (foldl (map_rule framework) m rules)
        ≡ Group.group_at id m ++ mapped_rules framework id rules
  unfolding map_rule flat_map
  group_at-map_rules [] m = sym (append-nil (Group.group_at id m))
  group_at-map_rules (r ∷ rs) m =
      group_at-map_rules rs (map_rule framework m r)
      ∙ rw (group_at-map_controls (base_of r).id (base_of r).controls m) (
          append_assoc (Group.group_at id m)
            (map (λ c. (base_of r).id) (keep_if (is_control framework id) (base_of r).controls))
            (mapped_rules framework id rs))

  group_at-rules_by_control :
      (rules : List Rule)
      → Group.group_at id (rules_by_control framework rules) ≡ mapped_rules framework id rules
  unfolding rules_by_control JsMap.get
  group_at-rules_by_control rules = group_at-map_rules rules []

is_empty-keep_if :
    (p : RuleResult → Bool) (rows : List RuleResult) → is_empty (keep_if p rows) ≡ not (any p rows)
unfolding keep_if any
is_empty-keep_if p [] = refl
is_empty-keep_if p (r ∷ rows) = ground (arith, is_empty-keep_if p rows)

by_feed-eq :
    (framework : Framework) (control : Control) (results : List RuleResult)
    → by_feed framework control (by_rule results) ≡ reported framework results control.id
by_feed-eq framework control results =
    rw
      (
        group_at-by_rule (feed_rule control.id) results,
        is_empty-keep_if (λ r. r.rule_id == feed_rule control.id) results,
      )
      ground arith

foldl-append :
    (xs ys : List RuleResult) (t : Tally)
    → foldl tally_row t (xs ++ ys) ≡ foldl tally_row (foldl tally_row t xs) ys
foldl-append [] ys t = refl
foldl-append (x ∷ xs) ys t = foldl-append xs ys (tally_row t x)

-- The loops over the rules and their rows are one loop over all the rows.
tally-foldl :
    (rows : List (String × List RuleResult)) (ids : List String) (t : Tally)
    → foldl (λ u i. foldl tally_row u (Group.group_at i rows)) t ids
      ≡ foldl tally_row t (flat_map (λ i. Group.group_at i rows) ids)
unfolding flat_map
tally-foldl rows [] t = refl
tally-foldl rows (i ∷ ids) t =
    tally-foldl rows ids (foldl tally_row t (Group.group_at i rows))
    ∙ sym (foldl-append (Group.group_at i rows) (flat_map (λ i. Group.group_at i rows) ids) t)

record Tallies (t u : Tally) (rows : List RuleResult) : Type 0 where
  pass : u.pass ≡ t.pass + counted RuleStatus.pass rows
  fail : u.fail ≡ t.fail + counted RuleStatus.fail rows
  not_assessed : u.not_assessed ≡ t.not_assessed + counted RuleStatus.not_assessed rows

Tallies-status :
    (t u : Tally) (s : RuleStatus) (r : RuleResult) (rows : List RuleResult)
    → r.status ≡ s
    → Tallies (tally_status s r.resource_id t) u rows
    → Tallies t u (r ∷ rows)
unfolding keep_if
Tallies-status t u RuleStatus.pass r rows e h = record {
  pass = rw e (omega (arith, h.pass));
  fail = rw e h.fail;
  not_assessed = rw e h.not_assessed;
}
Tallies-status t u RuleStatus.fail r rows e h = record {
  pass = rw e h.pass;
  fail = rw e (omega (arith, h.fail));
  not_assessed = rw e h.not_assessed;
}
Tallies-status t u RuleStatus.not_assessed r rows e h = record {
  pass = rw e h.pass;
  fail = rw e h.fail;
  not_assessed = rw e (omega (arith, h.not_assessed));
}
Tallies-status t u RuleStatus.not_applicable r rows e h = record {
  pass = rw e h.pass;
  fail = rw e h.fail;
  not_assessed = rw e h.not_assessed;
}

Tallies-foldl : (rows : List RuleResult) (t : Tally) → Tallies t (foldl tally_row t rows) rows
unfolding keep_if
Tallies-foldl [] t = record { pass = omega arith; fail = omega arith; not_assessed = omega arith }
Tallies-foldl (r ∷ rows) t =
    Tallies-status t (foldl tally_row (tally_row t r) rows) r.status r rows refl
      (Tallies-foldl rows (tally_row t r))

flat_map-by_rule :
    (results : List RuleResult) (ids : List String)
    → flat_map (λ i. Group.group_at i (by_rule results)) ids ≡ flat_map (rows_for results) ids
unfolding flat_map
flat_map-by_rule results [] = refl
flat_map-by_rule results (i ∷ ids) =
    rw (group_at-by_rule i results, flat_map-by_rule results ids) refl

tally-eq :
    (framework : Framework) (control : Control) (results : List RuleResult) (rules : List Rule)
    → tally
        (by_rule results)
        (deciding_rules framework (rules_by_control framework rules) (by_rule results) control)
      ≡ foldl tally_row no_rows (deciders framework results rules control.id)
unfolding tally deciding_rules flat_map
tally-eq framework control results rules =
    let rows = by_rule results in
    let ids = deciding_rules framework (rules_by_control framework rules) rows control in
    tally-foldl rows ids no_rows ∙ elim (Bool-cases (reported framework results control.id)) [
      | inl yes_ ↦
          rw
            (
              by_feed-eq framework control results,
              yes_,
              group_at-by_rule (feed_rule control.id) results,
              append-nil (rows_for results (feed_rule control.id)),
            )
            refl
      | inr no_ ↦
          rw
            (
              by_feed-eq framework control results,
              no_,
              group_at-rules_by_control framework control.id rules,
            )
            (ap (foldl tally_row no_rows)
              (flat_map-by_rule results (mapped_rules framework control.id rules)))
    ]

-- The counts are those of the rows. A control fails if some row does, and passes if none does and
-- some row passes.
pub record IsRollUp (s : ControlStatus) (rows : List RuleResult) : Type 0 where
  pub passes : s.pass ≡ counted RuleStatus.pass rows
  pub fails : s.fail ≡ counted RuleStatus.fail rows
  pub unassessed : s.not_assessed ≡ counted RuleStatus.not_assessed rows
  pub failed : (s.status ≡ ControlVerdict.fail) ↔ (0 < counted RuleStatus.fail rows)
  pub passed :
      (s.status ≡ ControlVerdict.pass)
      ↔ ((counted RuleStatus.fail rows ≡ 0) × (0 < counted RuleStatus.pass rows))

verdict-fail : (t : Tally) → (verdict t ≡ ControlVerdict.fail) ↔ (0 < t.fail)
verdict-fail t = (λ e. ground (arith, e), λ h. ground (arith, h))

verdict-pass : (t : Tally) → (verdict t ≡ ControlVerdict.pass) ↔ ((t.fail ≡ 0) × (0 < t.pass))
verdict-pass t = (λ e. (ground (arith, e), ground (arith, e)), λ h. ground (arith, h.0, h.1))

IsRollUp-control_status :
    (framework : Framework) (results : List RuleResult) (rules : List Rule) (control : Control)
    → IsRollUp
        (control_status framework (rules_by_control framework rules) (by_rule results) control)
        (deciders framework results rules control.id)
unfolding control_status
IsRollUp-control_status framework results rules control =
    let rows = deciders framework results rules control.id in
    let t =
      tally (by_rule results)
        (deciding_rules framework (rules_by_control framework rules) (by_rule results) control) in
    let same : t ≡ foldl tally_row no_rows rows = tally-eq framework control results rules in
    let n = Tallies-foldl rows no_rows in
    let p : t.pass ≡ counted RuleStatus.pass rows = omega (arith, ap (λ u. u.pass) same, n.pass) in
    let f : t.fail ≡ counted RuleStatus.fail rows = omega (arith, ap (λ u. u.fail) same, n.fail) in
    let u : t.not_assessed ≡ counted RuleStatus.not_assessed rows =
      omega (arith, ap (λ u. u.not_assessed) same, n.not_assessed) in
    record {
      passes = p;
      fails = f;
      unassessed = u;
      failed = (
        λ e. omega (arith, f, (verdict-fail t).0 e),
        λ h. (verdict-fail t).1 (omega (arith, f, h)),
      );
      passed = (
        λ e. let b = (verdict-pass t).0 e in (omega (arith, f, b.0), omega (arith, p, b.1)),
        λ h. (verdict-pass t).1 (omega (arith, f, h.0), omega (arith, p, h.1)),
      );
    }

-- Each control of the catalogue has one status, in order, which the rows that decide it give: those
-- of the feed where the framework is FSBP and the feed has rows for the control, else those of the
-- rules that map to the control.
pub control_statuses-IsRollUp :
    (framework : Framework) (controls : List Control) (results : List RuleResult)
    (rules : List Rule)
    → All₂
        (λ c s. (s.control_id ≡ c.id) × IsRollUp s (deciders framework results rules c.id))
        controls
        (control_statuses framework controls results rules)
unfolding control_statuses control_status
control_statuses-IsRollUp framework controls results rules =
    All₂-map (λ c s. (s.control_id ≡ c.id) × IsRollUp s (deciders framework results rules c.id))
      (control_status framework (rules_by_control framework rules) (by_rule results))
      (λ c. (refl, IsRollUp-control_status framework results rules c)) controls
