-- ===== src/Rules/Run/Laws.antt =====
-- What the loop over the rules adds, rule by rule and resource by resource.
use kumomiru.Prelude.{
  String, ◌≡◌, refl, sym, ap, ◌∙◌, inl, inr, Bool, List, [], ◌∷◌, ◌++◌, map, foldl, flat_map,
  if◌then◌else◌, Bool-cases,
}
use mathlib.Core.List.{append-nil, append_assoc}
use kumomiru.JsMap.Index
use kumomiru.Graph.Schema.{CloudNode, Finding, Graph}
use kumomiru.Db.Results.{RuleStatus, RuleResult}
use kumomiru.Rules.{Rule, CheckRule, RuleContext, RuleOutcome, checking, adopting}
use kumomiru.Rules.Ids.{finding_id}
use kumomiru.Rules.Run.{
  Evaluation, Failed, Lists, row, status_of, superseded, raised, check_node, judge, applicable,
  is_assessed, check_rule, check_any, context, feed_failures, covered_rows, adopters, enrich,
  evaluate,
}

abbrev raised_by : Bool → CheckRule → CloudNode → RuleOutcome → List Finding
raised_by hidden rule n (RuleOutcome.fail detail evidence severity) =
    if hidden then [] else raised rule n detail evidence severity ∷ []
raised_by hidden rule n RuleOutcome.pass = []
raised_by hidden rule n RuleOutcome.not_applicable = []

abbrev hidden_by : Bool → CheckRule → CloudNode → RuleOutcome → List String
hidden_by hidden rule n (RuleOutcome.fail detail evidence severity) =
    if hidden then finding_id rule.base.id n.id ∷ [] else []
hidden_by hidden rule n RuleOutcome.pass = []
hidden_by hidden rule n RuleOutcome.not_applicable = []

module _ (failed : Failed) (ctx : RuleContext) where
  -- One row for each applicable resource, whether the rule is assessed or not.
  abbrev pub rows_of : Rule → List RuleResult
  rows_of (adopting r) = []
  rows_of (checking r) =
      map
        (λ n.
          row r.base.id n
            (if is_assessed r ctx then status_of (r.check n ctx) else RuleStatus.not_assessed))
        (applicable r ctx.graph)

  -- One finding for each applicable resource that fails a rule that is assessed, but where the feed
  -- has the same control on the same resource.
  abbrev pub findings_of : Rule → List Finding
  findings_of (adopting r) = []
  findings_of (checking r) =
      if is_assessed r ctx
      then flat_map (λ n. raised_by (superseded failed r n) r n (r.check n ctx))
          (applicable r ctx.graph)
      else []

  abbrev pub unassessed_of : Rule → List String
  unassessed_of (adopting r) = []
  unassessed_of (checking r) = if is_assessed r ctx then [] else r.base.id ∷ []

  abbrev pub superseded_of : Rule → List String
  superseded_of (adopting r) = []
  superseded_of (checking r) =
      if is_assessed r ctx
      then flat_map (λ n. hidden_by (superseded failed r n) r n (r.check n ctx))
          (applicable r ctx.graph)
      else []

  abbrev extend : Lists → List RuleResult → List Finding → List String → List String → Lists
  extend ls rs fs us ss = record {
    results = ls.results ++ rs;
    rule_findings = ls.rule_findings ++ fs;
    not_assessed = ls.not_assessed ++ us;
    superseded_ids = ls.superseded_ids ++ ss;
  }

  extend-nil : (ls : Lists) → extend ls [] [] [] [] ≡ ls
  extend-nil ls =
      rw
        (
          append-nil ls.results,
          append-nil ls.rule_findings,
          append-nil ls.not_assessed,
          append-nil ls.superseded_ids,
        )
        refl

  extend-extend :
      (ls : Lists) (r r' : List RuleResult) (f f' : List Finding) (u u' s s' : List String)
      → extend (extend ls r f u s) r' f' u' s' ≡ extend ls (r ++ r') (f ++ f') (u ++ u') (s ++ s')
  extend-extend ls r r' f f' u u' s s' =
      rw
        (
          append_assoc ls.results r r',
          append_assoc ls.rule_findings f f',
          append_assoc ls.not_assessed u u',
          append_assoc ls.superseded_ids s s',
        )
        refl

  judge-eq :
      (rule : CheckRule) (n : CloudNode) (out : RuleOutcome) (ls : Lists)
      → judge failed rule n out ls
        ≡ extend ls []
            (raised_by (superseded failed rule n) rule n out)
            []
            (hidden_by (superseded failed rule n) rule n out)
  judge-eq rule n RuleOutcome.pass ls = sym (extend-nil ls)
  judge-eq rule n RuleOutcome.not_applicable ls = sym (extend-nil ls)
  judge-eq rule n (RuleOutcome.fail d e s) ls = elim (Bool-cases (superseded failed rule n)) [
    | inl hidden ↦
        rw (hidden, append-nil ls.results, append-nil ls.rule_findings, append-nil ls.not_assessed)
          refl
    | inr shown ↦
        rw (shown, append-nil ls.results, append-nil ls.not_assessed, append-nil ls.superseded_ids)
          refl
  ]

  check_node-eq :
      (rule : CheckRule) (ls : Lists) (n : CloudNode)
      → check_node failed ctx rule ls n
        ≡ extend ls
            (row rule.base.id n (status_of (rule.check n ctx)) ∷ [])
            (raised_by (superseded failed rule n) rule n (rule.check n ctx))
            []
            (hidden_by (superseded failed rule n) rule n (rule.check n ctx))
  unfolding check_node
  check_node-eq rule ls n =
      let r = row rule.base.id n (status_of (rule.check n ctx)) in
      judge-eq rule n (rule.check n ctx) (record ls { results = ls.results ++ r ∷ [] })
      ∙ rw (append-nil (ls.results ++ r ∷ [])) refl

  check_nodes-eq :
      (rule : CheckRule) (ns : List CloudNode) (ls : Lists)
      → foldl (check_node failed ctx rule) ls ns
        ≡ extend ls
            (map (λ n. row rule.base.id n (status_of (rule.check n ctx))) ns)
            (flat_map (λ n. raised_by (superseded failed rule n) rule n (rule.check n ctx)) ns)
            []
            (flat_map (λ n. hidden_by (superseded failed rule n) rule n (rule.check n ctx)) ns)
  unfolding flat_map
  check_nodes-eq rule [] ls = sym (extend-nil ls)
  check_nodes-eq rule (n ∷ ns) ls =
      let r = row rule.base.id n (status_of (rule.check n ctx)) ∷ [] in
      let f = raised_by (superseded failed rule n) rule n (rule.check n ctx) in
      let s = hidden_by (superseded failed rule n) rule n (rule.check n ctx) in
      ap (λ l. foldl (check_node failed ctx rule) l ns) (check_node-eq rule ls n)
      ∙ check_nodes-eq rule ns (extend ls r f [] s)
      ∙ extend-extend ls r (map (λ n. row rule.base.id n (status_of (rule.check n ctx))) ns) f
          (flat_map (λ n. raised_by (superseded failed rule n) rule n (rule.check n ctx)) ns) [] []
          s (flat_map (λ n. hidden_by (superseded failed rule n) rule n (rule.check n ctx)) ns)

  check_any-eq :
      (ls : Lists) (rule : Rule)
      → check_any failed ctx ls rule
        ≡ extend ls (rows_of rule) (findings_of rule) (unassessed_of rule) (superseded_of rule)
  unfolding check_any check_rule
  check_any-eq ls (adopting r) = sym (extend-nil ls)
  check_any-eq ls (checking r) = elim (Bool-cases (is_assessed r ctx)) [
    | inl assessed ↦ rw assessed (check_nodes-eq r (applicable r ctx.graph) ls)
    | inr missing ↦ rw (missing, append-nil ls.rule_findings, append-nil ls.superseded_ids) refl
  ]

  check_all-eq :
      (rules : List Rule) (ls : Lists)
      → foldl (check_any failed ctx) ls rules
        ≡ extend ls
            (flat_map rows_of rules)
            (flat_map findings_of rules)
            (flat_map unassessed_of rules)
            (flat_map superseded_of rules)
  unfolding flat_map
  check_all-eq [] ls = sym (extend-nil ls)
  check_all-eq (r ∷ rs) ls =
      ap (λ l. foldl (check_any failed ctx) l rs) (check_any-eq ls r)
      ∙ check_all-eq rs (extend ls (rows_of r) (findings_of r) (unassessed_of r) (superseded_of r))
      ∙ extend-extend ls (rows_of r) (flat_map rows_of rs) (findings_of r) (flat_map findings_of rs)
          (unassessed_of r) (flat_map unassessed_of rs) (superseded_of r)
          (flat_map superseded_of rs)

-- The evaluation, read off the rules: the adapters' findings, enriched, and one finding for each
-- applicable resource that fails an assessed rule and that the feed does not report; the rows of the
-- feed, and one row for each rule and applicable resource.
pub record IsEvaluation (g : Graph) (rules : List Rule) (capabilities : List String)
    (e : Evaluation) : Type 0 where
  pub findings :
      e.findings
      ≡ map (enrich (adopters rules) (Index.index (λ n. n.id) g.nodes)) g.findings
        ++ flat_map (findings_of (feed_failures g).0 (context g capabilities)) rules
  pub results :
      e.results
      ≡ ((feed_failures g).1 ++ covered_rows (feed_failures g).0 g)
        ++ flat_map (rows_of (feed_failures g).0 (context g capabilities)) rules
  pub not_assessed :
      e.not_assessed_rules
      ≡ flat_map (unassessed_of (feed_failures g).0 (context g capabilities)) rules
  pub superseded :
      e.superseded_findings
      ≡ flat_map (superseded_of (feed_failures g).0 (context g capabilities)) rules

-- For every graph, rules and capabilities, the evaluation has one finding for each resource that
-- fails an assessed rule and that the feed does not report, after the adapters' findings, and one row
-- for each rule and applicable resource, after the feed's rows.
pub evaluate-IsEvaluation :
    (g : Graph) (rules : List Rule) (capabilities : List String)
    → IsEvaluation g rules capabilities (evaluate g rules capabilities)
unfolding evaluate
evaluate-IsEvaluation g rules capabilities =
    let sh = feed_failures g in
    let ls : Lists = record {
      results = sh.1 ++ covered_rows sh.0 g;
      rule_findings = [];
      not_assessed = [];
      superseded_ids = [];
    } in
    let all = check_all-eq sh.0 (context g capabilities) rules ls in
    record {
      findings =
          ap
            (λ l.
              map (enrich (adopters rules) (Index.index (λ n. n.id) g.nodes)) g.findings
              ++ l.rule_findings)
            all;
      results = ap (λ l. l.results) all;
      not_assessed = ap (λ l. l.not_assessed) all;
      superseded = ap (λ l. l.superseded_ids) all;
    }
