-- ===== src/Rules/Compliance.antt =====
-- packages/rules/src/compliance.ts: the rows of the rules rolled up to the controls of a framework.
-- The catalogue of the framework is an argument.
pub mod Laws
use Prim.Native.String.{◌++◌ as text_append}
use kumomiru.Prelude.{
  ℕ, zero, suc, ◌+◌, String, Bool, true, false, not, ◌&&◌, Option, none, some, List, [], ◌∷◌, ◌++◌,
  map, foldl, flat_map, or_else, keep_if, any, if◌then◌else◌, ltb, nat_eq, ◌==◌,
}
use kumomiru.JsSet
use kumomiru.JsMap
use kumomiru.JsMap.Group
use kumomiru.Glob.{codes}
use kumomiru.Graph.Schema.{ControlRef, Framework, framework_eq}
use kumomiru.Db.Results.{RuleStatus, RuleResult}
use kumomiru.Rules.{Rule, base_of}
use kumomiru.Rules.Run.{feed_rule}

-- `{ id, title }` of a catalogue.
pub record Control : Type 0 where
  pub id : String
  pub title : String

pub data ControlVerdict : Type 0 where
  pass fail not_assessed : ControlVerdict

pub data StatusSource : Type 0 where
  native securityhub : StatusSource

pub record ControlStatus : Type 0 where
  pub framework : Framework
  pub control_id : String
  pub title : String
  pub status : ControlVerdict
  pub pass : ℕ
  pub fail : ℕ
  pub not_assessed : ℕ
  pub rule_ids : List String
  pub failing_resource_ids : List String
  pub source : StatusSource

-- The inner loop of the first map: the controls of one rule.
unfoldable pub map_control :
    Framework → String → List (String × List String) → ControlRef → List (String × List String)
unfolding Group.push
map_control framework rule m c =
    if framework_eq c.framework framework then Group.push c.id rule m else m

unfoldable pub map_rule :
    Framework → List (String × List String) → Rule → List (String × List String)
unfolding map_control
map_rule framework m rule =
    foldl (map_control framework (base_of rule).id) m (base_of rule).controls

unfoldable pub rules_by_control : Framework → List Rule → List (String × List String)
unfolding map_rule
rules_by_control framework = foldl (map_rule framework) []

unfoldable pub by_rule : List RuleResult → List (String × List RuleResult)
unfolding Group.push
by_rule = foldl (λ m r. Group.push r.rule_id r m) []

-- The counts, and the failing resources.
pub record Tally : Type 0 where
  pub pass : ℕ
  pub fail : ℕ
  pub not_assessed : ℕ
  pub failing : List String

abbrev pub tally_status : RuleStatus → String → Tally → Tally
tally_status RuleStatus.pass resource t = record t { pass = suc t.pass }
tally_status RuleStatus.fail resource t = record t {
  fail = suc t.fail;
  failing = t.failing ++ resource ∷ [];
}
tally_status RuleStatus.not_assessed resource t = record t { not_assessed = suc t.not_assessed }
tally_status RuleStatus.not_applicable resource t = t

abbrev pub tally_row : Tally → RuleResult → Tally
tally_row t r = tally_status r.status r.resource_id t

abbrev pub no_rows : Tally
no_rows = record { pass = 0; fail = 0; not_assessed = 0; failing = [] }

-- `xs.startsWith(prefix)`, on code units
starts_with : List ℕ → List ℕ → Bool
starts_with xs [] = true
starts_with [] (p ∷ ps) = false
starts_with (x ∷ xs) (p ∷ ps) = nat_eq x p && starts_with xs ps

abbrev pub is_fsbp : Framework → Bool
is_fsbp framework = framework_eq framework Framework.fsbp

abbrev pub is_empty {ℓ} : {A : Type ℓ} → List A → Bool
is_empty [] = true
is_empty (x ∷ xs) = false

-- A control is decided by the feed where the feed has rows for it.
abbrev pub by_feed : Framework → Control → List (String × List RuleResult) → Bool
by_feed framework control rows =
    is_fsbp framework && not (is_empty (Group.group_at (feed_rule control.id) rows))

unfoldable pub deciding_rules :
    Framework
    → List (String × List String)
    → List (String × List RuleResult)
    → Control
    → List String
unfolding JsMap.get
deciding_rules framework mapped rows control =
    if by_feed framework control rows
    then feed_rule control.id ∷ []
    else Group.group_at control.id mapped

-- The two loops over the rules and their rows.
unfoldable pub tally : List (String × List RuleResult) → List String → Tally
unfolding JsMap.get
tally rows rule_ids = foldl (λ t i. foldl tally_row t (Group.group_at i rows)) no_rows rule_ids

abbrev pub verdict : Tally → ControlVerdict
verdict t =
    if ltb 0 t.fail
    then ControlVerdict.fail
    else if ltb 0 t.pass
    then ControlVerdict.pass
    else ControlVerdict.not_assessed

unfoldable pub control_status :
    Framework
    → List (String × List String)
    → List (String × List RuleResult)
    → Control
    → ControlStatus
unfolding deciding_rules tally JsSet.of_list keep_if starts_with
control_status framework mapped rows control =
    let ids = deciding_rules framework mapped rows control in
    let t = tally rows ids in
    record {
      framework = framework;
      control_id = control.id;
      title = control.title;
      status = verdict t;
      pass = t.pass;
      fail = t.fail;
      not_assessed = t.not_assessed;
      rule_ids = ids;
      failing_resource_ids =
          keep_if (λ i. not (starts_with (codes i) (codes "securityhub:")))
            (JsSet.of_list t.failing);
      source =
          if by_feed framework control rows then StatusSource.securityhub else StatusSource.native;
    }

unfoldable pub control_statuses :
    Framework → List Control → List RuleResult → List Rule → List ControlStatus
unfolding rules_by_control by_rule control_status
control_statuses framework controls results rules =
    map (control_status framework (rules_by_control framework rules) (by_rule results)) controls
