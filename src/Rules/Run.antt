-- ===== src/Rules/Run.antt =====
-- packages/rules/src/run.ts: the rules evaluated on a snapshot. `evidence.resourceIds` is cast in the
-- source to a list of texts; another value there names no resource in the model.
pub mod Laws
use Prim.Native.String.{◌++◌ as text_append}
use kumomiru.Prelude.{
  String, Bool, true, false, not, ◌&&◌, ◌||◌, Option, none, some, List, [], ◌∷◌, ◌++◌, map, foldl,
  flat_map, or_else, keep_if, any, if◌then◌else◌, ◌==◌,
}
use kumomiru.JsSet
use kumomiru.JsMap
use kumomiru.JsMap.Index
use kumomiru.Graph.Schema.{
  Severity, Json, Items, Attributes, CloudNode, ControlRef, Framework, framework_eq, FindingSource,
  Finding, Graph, truthy,
}
use kumomiru.Db.Results.{RuleStatus, RuleResult}
use kumomiru.Rules.{
  Rule, RuleBase, CheckRule, AdoptRule, RuleContext, RuleOutcome, base_of, checking, adopting,
}
use kumomiru.Rules.Ids.{finding_id}

pub record Evaluation : Type 0 where
  pub findings : List Finding
  pub results : List RuleResult
  pub not_assessed_rules : List String
  pub superseded_findings : List String

abbrev pub coverage_type : String
coverage_type = "aws::securityhub::control"

abbrev pub row : String → CloudNode → RuleStatus → RuleResult
row rule_id n status = record {
  rule_id = rule_id;
  resource_id = n.id;
  resource_type = n.type;
  status = status;
}

-- `shFailed`: a control, and the resources that failed it.
abbrev pub Failed : Type 0
Failed = List (String × List String)

abbrev first_text : Option Json → Option String
first_text (some (Json.arr (Items.cons (Json.str s) _))) = some s
first_text _ = none

abbrev pub evidence_resource : Finding → Option String
evidence_resource f = elim f.evidence [
  | none ↦ none
  | some e ↦ first_text (JsMap.get "resourceIds" e)
]

-- `f.nodeId ?? evidence?.resourceIds?.[0] ?? "securityhub:…"`
unfoldable pub failed_resource : Finding → ControlRef → String
unfolding JsMap.get
failed_resource f c =
    or_else f.node_id (or_else (evidence_resource f) (text_append "securityhub:" c.id))

abbrev pub is_feed : Option FindingSource → Bool
is_feed (some FindingSource.securityhub) = true
is_feed _ = false

abbrev pub is_fsbp : ControlRef → Bool
is_fsbp c = framework_eq c.framework Framework.fsbp

abbrev pub feed_rule : String → String
feed_rule control = text_append "securityhub." control

unfoldable pub note_control :
    Finding → Failed × List RuleResult → ControlRef → Failed × List RuleResult
unfolding failed_resource JsMap.set JsMap.get JsSet.of_list
note_control f acc c =
    let resource = failed_resource f c in
    let known = or_else (JsMap.get c.id acc.0) [] in
    if is_fsbp c
    then (
      JsMap.set c.id (JsSet.of_list (known ++ resource ∷ [])) acc.0,
      acc.1
          ++ record {
            rule_id = feed_rule c.id;
            resource_id = resource;
            resource_type = or_else f.resource_type "unknown";
            status = RuleStatus.fail;
          }
            ∷ [],
    )
    else acc

unfoldable pub note_finding : Failed × List RuleResult → Finding → Failed × List RuleResult
unfolding note_control
note_finding acc f =
    if is_feed f.source then foldl (note_control f) acc (or_else f.controls []) else acc

unfoldable pub feed_failures : Graph → Failed × List RuleResult
unfolding note_finding
feed_failures g = foldl note_finding ([], []) g.findings

-- The loop over `securityHubControls`.
unfoldable pub covered_rows : Failed → Graph → List RuleResult
unfolding keep_if JsMap.has
covered_rows failed g =
    map
      (λ c. record {
        rule_id = feed_rule c;
        resource_id = text_append "securityhub:" c;
        resource_type = coverage_type;
        status = RuleStatus.pass;
      })
      (keep_if (λ c. not (JsMap.has c failed)) (or_else g.meta.security_hub_controls []))

-- `new Map(...)` of the adopting rules: the last of a kind stays.
unfoldable pub adopt : List (String × RuleBase) → Rule → List (String × RuleBase)
unfolding JsMap.set
adopt m (checking r) = m
adopt m (adopting r) = if r.adopts == "" then m else JsMap.set r.adopts r.base m

unfoldable pub adopters : List Rule → List (String × RuleBase)
unfolding adopt
adopters = foldl adopt []

abbrev node_at : List (String × CloudNode) → Option String → Option CloudNode
node_at by_id none = none
node_at by_id (some i) = if i == "" then none else JsMap.get i by_id

abbrev type_of : Option CloudNode → Option String → Option String
type_of none old = old
type_of (some n) old = some n.type

abbrev pub adopted : List (String × CloudNode) → Finding → RuleBase → Finding
adopted by_id f rule = record f {
  rule_id = some rule.id;
  source = some (or_else f.source FindingSource.native);
  controls = some rule.controls;
  remediation = some rule.remediation;
  resource_type = type_of (node_at by_id f.node_id) f.resource_type;
}

unfoldable pub enrich : List (String × RuleBase) → List (String × CloudNode) → Finding → Finding
unfolding JsMap.get
enrich ads by_id f = elim (JsMap.get f.kind ads) [
  | none ↦ f
  | some rule ↦ if truthy f.rule_id then f else adopted by_id f rule
]

-- The finding of a failed check.
unfoldable pub raised :
    CheckRule → CloudNode → String → Option Attributes → Option Severity → Finding
unfolding finding_id
raised rule n detail evidence severity = record {
  id = finding_id rule.base.id n.id;
  severity = or_else severity rule.base.severity;
  kind = rule.base.kind;
  node_id = some n.id;
  title = rule.base.title;
  detail = detail;
  rule_id = some rule.base.id;
  source = some FindingSource.native;
  controls = some rule.base.controls;
  remediation = some rule.base.remediation;
  resource_type = some n.type;
  evidence = evidence;
  external_id = none;
  observed_at = none;
}

-- The feed reported the same control on the same resource.
unfoldable pub superseded : Failed → CheckRule → CloudNode → Bool
unfolding any JsMap.get JsSet.has
superseded failed rule n =
    any (λ c. is_fsbp c && JsSet.has n.id (or_else (JsMap.get c.id failed) [])) rule.base.controls

-- The lists that the loop over the rules fills.
pub record Lists : Type 0 where
  pub results : List RuleResult
  pub rule_findings : List Finding
  pub not_assessed : List String
  pub superseded_ids : List String

abbrev pub status_of : RuleOutcome → RuleStatus
status_of RuleOutcome.pass = RuleStatus.pass
status_of RuleOutcome.not_applicable = RuleStatus.not_applicable
status_of (RuleOutcome.fail _ _ _) = RuleStatus.fail

abbrev pub judge : Failed → CheckRule → CloudNode → RuleOutcome → Lists → Lists
judge failed rule n RuleOutcome.pass ls = ls
judge failed rule n RuleOutcome.not_applicable ls = ls
judge failed rule n (RuleOutcome.fail detail evidence severity) ls =
    if superseded failed rule n
    then record ls { superseded_ids = ls.superseded_ids ++ finding_id rule.base.id n.id ∷ [] }
    else record ls {
      rule_findings = ls.rule_findings ++ raised rule n detail evidence severity ∷ [];
    }

unfoldable pub check_node : Failed → RuleContext → CheckRule → Lists → CloudNode → Lists
unfolding superseded raised finding_id
check_node failed ctx rule ls n =
    let out = rule.check n ctx in
    judge failed rule n out
      (record ls { results = ls.results ++ row rule.base.id n (status_of out) ∷ [] })

unfoldable pub applicable : CheckRule → Graph → List CloudNode
unfolding keep_if JsSet.has
applicable rule g = keep_if (λ n. JsSet.has n.type rule.resource_types) g.nodes

unfoldable pub is_assessed : CheckRule → RuleContext → Bool
unfolding any JsSet.has
is_assessed rule ctx = not (any (λ c. not (JsSet.has c ctx.capabilities)) rule.requires)

unfoldable pub check_rule : Failed → RuleContext → Lists → CheckRule → Lists
unfolding check_node applicable is_assessed
check_rule failed ctx ls rule =
    if is_assessed rule ctx
    then foldl (check_node failed ctx rule) ls (applicable rule ctx.graph)
    else record ls {
      not_assessed = ls.not_assessed ++ rule.base.id ∷ [];
      results =
          ls.results
          ++ map (λ n. row rule.base.id n RuleStatus.not_assessed) (applicable rule ctx.graph);
    }

unfoldable pub check_any : Failed → RuleContext → Lists → Rule → Lists
unfolding check_rule
check_any failed ctx ls (checking rule) = check_rule failed ctx ls rule
check_any failed ctx ls (adopting rule) = ls

abbrev pub context : Graph → List String → RuleContext
context g capabilities = record {
  graph = g;
  capabilities = JsSet.of_list capabilities;
  node = λ i. JsMap.get i (Index.index (λ n. n.id) g.nodes);
}

unfoldable pub evaluate : Graph → List Rule → List String → Evaluation
unfolding feed_failures covered_rows adopters enrich check_any Index.index JsSet.of_list JsMap.get
evaluate g rules capabilities =
    let sh = feed_failures g in
    let by_id = Index.index (λ n. n.id) g.nodes in
    let ls =
      foldl (check_any sh.0 (context g capabilities))
        (record {
          results = sh.1 ++ covered_rows sh.0 g;
          rule_findings = [];
          not_assessed = [];
          superseded_ids = [];
        })
        rules in
    record {
      findings = map (enrich (adopters rules) by_id) g.findings ++ ls.rule_findings;
      results = ls.results;
      not_assessed_rules = ls.not_assessed;
      superseded_findings = ls.superseded_ids;
    }
