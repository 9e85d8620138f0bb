-- ===== src/Tests/Analyses.antt =====
-- Small policies and rules, and the theorems on the analyses applied to them.
use kumomiru.Prelude.{
  ℕ, String, ◌≡◌, refl, ◌≢◌, ◌⊎◌, inl, inr, Bool, true, false, Option, none, some, List, [], ◌∷◌,
  map, All, All₂, Member,
}
use kumomiru.JsMap
use kumomiru.Graph.Schema.{Severity, Framework}
use kumomiru.Db.Results.{RuleStatus, RuleResult}
use kumomiru.Adapters.HashId.{hash_id}
use kumomiru.Adapters.Policy.{PolicyStatement, Effect, Decision, evaluate}
use kumomiru.Adapters.Policy.Laws.{verdict, evaluate-eq}
use kumomiru.Adapters.Iam.{
  AnalyzedPrincipal, AssumeTrustEntry, PrincipalKind, analyze_assume_role, analyze, assume_id,
}
use kumomiru.Adapters.Iam.Laws.{CanAssume, analyze_assume_role_sound}
use kumomiru.Adapters.Iam.Complete.{analyze_complete}
use kumomiru.Rules.{Rule, RuleBase, RuleOutcome, checking}
use kumomiru.Rules.Run
use kumomiru.Rules.Run.Laws.{IsEvaluation, evaluate-IsEvaluation}
use kumomiru.Rules.Compliance.{Control, control_statuses}
use kumomiru.Rules.Compliance.Laws.{IsRollUp, deciders, control_statuses-IsRollUp}
use kumomiru.Tests.Graphs.{sample}

hashes : (hash_id "" ≡ "45h") × (hash_id "a->b" ≡ "yix59x")
unfolding hash_id
hashes = (refl, refl)

abbrev permit_assume : PolicyStatement
permit_assume = record {
  effect = Effect.permit;
  principals = none;
  actions = some ("STS:Assume*" ∷ []);
  not_actions = none;
  resources = some ("*" ∷ []);
  not_resources = none;
  condition_keys = none;
}

abbrev refuse_assume : PolicyStatement
refuse_assume = record permit_assume { effect = Effect.refuse }

evaluate-eq_example :
    evaluate (permit_assume ∷ refuse_assume ∷ []) "sts:AssumeRole" "r"
    ≡ verdict "sts:AssumeRole" "r" (permit_assume ∷ refuse_assume ∷ [])
evaluate-eq_example = evaluate-eq "sts:AssumeRole" "r" (permit_assume ∷ refuse_assume ∷ [])

abbrev root_entry : AssumeTrustEntry
root_entry = record {
  principal_value = "arn:aws:iam::111111111111:root";
  type = "aws";
  effect = none;
  condition_keys = none;
}

abbrev public_entry : AssumeTrustEntry
public_entry = record root_entry { principal_value = "*" }

abbrev admin : AnalyzedPrincipal
admin = record {
  id = "arn:aws:iam::111111111111:role/admin";
  account = "111111111111";
  kind = PrincipalKind.role;
  identity = [];
  trust = some (root_entry ∷ public_entry ∷ []);
}

abbrev dev : AnalyzedPrincipal
dev = record {
  id = "arn:aws:iam::111111111111:user/dev";
  account = "111111111111";
  kind = PrincipalKind.user;
  identity = permit_assume ∷ [];
  trust = none;
}

abbrev both : List AnalyzedPrincipal
both = admin ∷ dev ∷ []

analyze_assume_role_sound_example :
    All
      (λ e. CanAssume both "111111111111" e.source e.target)
      (analyze_assume_role both "111111111111" "account").edges
analyze_assume_role_sound_example = analyze_assume_role_sound both "111111111111" "account"

sources :
    map (λ e. e.source) (analyze_assume_role both "111111111111" "account").edges
    ≡ "arn:aws:iam::111111111111:user/dev" ∷ "aws::iam::external-principal::*" ∷ []
unfolding analyze_assume_role kumomiru.Prelude.keep_if JsMap.set_new evaluate hash_id
sources = refl

root_is_inside :
    kumomiru.Adapters.Iam.is_external_principal root_entry.principal_value "111111111111" ≡ false
unfolding kumomiru.Adapters.Iam.is_external_principal
root_is_inside = refl

root_names_dev : kumomiru.Adapters.Iam.is_named admin root_entry dev ≡ true
unfolding kumomiru.Adapters.Iam.trust_names
root_names_dev = refl

dev_allowed : (evaluate dev.identity "sts:AssumeRole" admin.id).decision ≡ Decision.allow
unfolding evaluate
dev_allowed = refl

analyze_complete_example :
    JsMap.has (assume_id dev.id admin.id) (analyze both "111111111111" "account").edges ≡ true
analyze_complete_example =
    analyze_complete both "111111111111" "account" admin (root_entry ∷ public_entry ∷ []) root_entry
      dev (inl refl) refl (inl refl) refl root_is_inside (inr (inl refl)) root_names_dev dev_allowed

abbrev flow_logs : RuleBase
flow_logs = record {
  id = "ec2.flow-logs";
  version = 1;
  title = "Flow logs";
  severity = Severity.medium;
  kind = "no-flow-logs";
  controls = record { framework = Framework.fsbp; id = "EC2.6" } ∷ [];
  remediation = record { text = "Turn them on."; cli = none; terraform = none };
  replaces = none;
}

abbrev always_fails : Rule
always_fails = checking (record {
  base = flow_logs;
  resource_types = "aws::ec2::vpc" ∷ [];
  requires = [];
  check = λ n ctx. RuleOutcome.fail "No flow log." none none;
})

evaluate-IsEvaluation_example :
    IsEvaluation sample (always_fails ∷ []) [] (Run.evaluate sample (always_fails ∷ []) [])
evaluate-IsEvaluation_example = evaluate-IsEvaluation sample (always_fails ∷ []) []

abbrev controls : List Control
controls = record { id = "EC2.6"; title = "Flow logs" } ∷ []

abbrev rows : List RuleResult
rows =
    record {
      rule_id = "ec2.flow-logs";
      resource_id = "vpc";
      resource_type = "aws::ec2::vpc";
      status = RuleStatus.fail;
    }
    ∷ []

control_statuses-IsRollUp_example :
    All₂
      (λ c s.
        (s.control_id ≡ c.id) × IsRollUp s (deciders Framework.fsbp rows (always_fails ∷ []) c.id))
      controls
      (control_statuses Framework.fsbp controls rows (always_fails ∷ []))
control_statuses-IsRollUp_example =
    control_statuses-IsRollUp Framework.fsbp controls rows (always_fails ∷ [])
