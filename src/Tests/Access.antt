-- ===== src/Tests/Access.antt =====
-- A bucket with a gated and an open statement for everyone, and a security group, with the theorems on
-- resource policies and stored ingress rules applied to them.
use kumomiru.Prelude.{◌≡◌, refl, inl, inr, true, false, none, some, [], ◌∷◌, map}
use kumomiru.JsSet
use kumomiru.Graph.Schema.{Severity, CloudNode, Number, Json, Members}
use kumomiru.Adapters.PolicyDoc.{Builtins, project_policy_document}
use kumomiru.Adapters.Ingress.{SourceRule, ingress_attribute}
use kumomiru.Adapters.Ingress.RoundTrip.{as_collected, ingress_of-ingress_attribute}
use kumomiru.Rules.Checks.{attribute}
use kumomiru.Rules.Checks.Ingress.{ingress_of}
use kumomiru.Adapters.Policy.{
  evaluate, Decision, PolicyStatement, PolicyPrincipal, PrincipalType, Effect,
}
use kumomiru.Adapters.ResourceAccess.{
  AccessResource, audience, granted_action, public_id, analyze_resource_access,
}
use kumomiru.Adapters.ResourceAccess.Laws.{Grant}
use kumomiru.Adapters.ResourceAccess.Sound.{IsSound, analyze_resource_access-CanAccess}
use kumomiru.Adapters.ResourceAccess.Reports.{reported_id, analyze_resource_access_reports}

abbrev anyone : PolicyPrincipal
anyone = record { type = PrincipalType.anyone; value = "*"; negated = false }

abbrev open_statement : PolicyStatement
open_statement = record {
  effect = Effect.permit;
  principals = some (anyone ∷ []);
  actions = some ("s3:GetObject" ∷ []);
  not_actions = none;
  resources = none;
  not_resources = none;
  condition_keys = none;
}

abbrev gated_statement : PolicyStatement
gated_statement = record open_statement { condition_keys = some ("aws:SourceArn" ∷ []) }

abbrev bucket : AccessResource
bucket = record {
  id = "arn:aws:s3:::data";
  type = "aws::s3::bucket";
  account = "111111111111";
  statements = gated_statement ∷ open_statement ∷ [];
  actions = "s3:GetObject" ∷ [];
  resource_aliases = none;
}

analyze_resource_access-CanAccess_example :
    IsSound []
      (bucket ∷ [])
      "111111111111"
      (analyze_resource_access [] (bucket ∷ []) "111111111111" "account").edges
analyze_resource_access-CanAccess_example =
    analyze_resource_access-CanAccess [] (bucket ∷ []) "111111111111" "account"

action_granted : granted_action bucket open_statement ≡ some "s3:GetObject"
unfolding granted_action
action_granted = refl

open-Grant : Grant (bucket ∷ []) bucket open_statement anyone "s3:GetObject"
open-Grant = record {
  scanned = inl refl;
  listed = inr (inl refl);
  permitted = refl;
  named = inl refl;
  granted = action_granted;
  nonempty = refl;
}

for_everyone :
    reported_id bucket anyone (audience "111111111111" anyone) ≡ some (public_id bucket.id)
unfolding audience
for_everyone = refl

analyze_resource_access_reports_example :
    JsSet.has
      (public_id bucket.id)
      (map (λ f. f.id) (analyze_resource_access [] (bucket ∷ []) "111111111111" "account").findings)
    ≡ true
analyze_resource_access_reports_example =
    analyze_resource_access_reports [] (bucket ∷ []) "111111111111" "account" bucket open_statement
      anyone "s3:GetObject" (public_id bucket.id) open-Grant for_everyone

-- The open statement comes second, and the finding is that of the gated one.
first_finding_stays :
    map
      (λ f. f.severity)
      (analyze_resource_access [] (bucket ∷ []) "111111111111" "account").findings
    ≡ Severity.high ∷ []
unfolding analyze_resource_access
first_finding_stays = refl

abbrev no_builtins : Builtins
no_builtins = record { trim = λ s. s; json_parse = λ s. none; decode_uri_component = λ s. none }

-- A text that is not JSON has no statements, and an object without an effect grants.
unreadable : project_policy_document no_builtins (Json.str "{") ≡ []
unfolding project_policy_document
unreadable = refl

abbrev effectless : Json
effectless = Json.obj (
    Members.member "Statement"
      (Json.obj (
        Members.member "Action" (Json.str "*")
          (Members.member "Resource" (Json.str "*") Members.end)))
      Members.end)

effectless_allows :
    (evaluate
      (project_policy_document no_builtins effectless)
      "s3:GetObject"
      "arn:aws:s3:::data").decision
    ≡ Decision.allow
unfolding evaluate project_policy_document
effectless_allows = refl

abbrev collected : SourceRule
collected = record {
  from_port = some (Number.pos 22);
  to_port = some (Number.pos 22);
  ip_protocol = some "tcp";
  cidrs = "0.0.0.0/0" ∷ [];
  source_group_ids = none;
}

abbrev group : CloudNode
group = record {
  id = "sg";
  type = "aws::ec2::security-group";
  name = "sg";
  account = "111111111111";
  region = none;
  parent = none;
  tags = [];
  attributes = ("ingress", ingress_attribute (collected ∷ [])) ∷ [];
}

group_ingress : attribute group "ingress" ≡ ingress_attribute (collected ∷ [])
unfolding attribute
group_ingress = refl

ingress_of-ingress_attribute_example : ingress_of group ≡ as_collected collected ∷ []
ingress_of-ingress_attribute_example =
    ingress_of-ingress_attribute group (collected ∷ []) group_ingress
