-- ===== src/Tests/Checks.antt =====
-- A few resources, and the theorems on the checks of the built-in rules applied to them.
use kumomiru.Prelude.{
  ℕ, ◌≤◌, String, ◌≡◌, refl, ◌↔◌, ◌⊎◌, inl, inr, true, false, ◌||◌, Option, none, some, List, [],
  ◌∷◌, map, arith, All, ◌==◌, if◌then◌else◌,
}
use kumomiru.JsSet
use kumomiru.Graph.Schema.{Number, Json, Items, Members, CloudNode, Framework, Attributes}
use kumomiru.Rules.{Rule, RuleContext, RuleOutcome}
use kumomiru.Rules.Registry.{Registry, register_all, list}
use kumomiru.Rules.Registry.Complete.{rule_id, FirstRepeat, register_all-cases}
use kumomiru.Rules.Checks.{fails, has_attribute}
use kumomiru.Rules.Checks.Ingress.{IngressRule, covers_port_outside, has_port}
use kumomiru.Rules.Checks.Ingress.Ports.{covers_port_outside_iff}
use kumomiru.Rules.Checks.Ec2.{
  sg_unrestricted_ssh, sg_unrestricted_rdp, sg_unrestricted_high_risk_ports,
  sg_unrestricted_unauthorized_ports,
}
use kumomiru.Rules.Checks.Ec2.Exposure.{unauthorized_fails}
use kumomiru.Rules.Checks.Iam.{access_key_rotation}
use kumomiru.Rules.Checks.Iam.Age.{Old, access_key_rotation-Old_iff}
use kumomiru.Rules.Checks.TrancheB.Network.{NaclEntry, inbound, is_open, is_inbound, admits}
use kumomiru.Rules.Checks.TrancheB.FirstMatch.{Decides, is_open-inbound}
use kumomiru.Rules.Checks.Builtin.{builtin_rules}
use kumomiru.Rules.Checks.Builtin.Registered.{builtin_rules-ReplaceNothing}
use kumomiru.Rules.Frameworks.{Catalogue, catalogue}
use kumomiru.Rules.Frameworks.Reported.{IsReported, builtin_rules-IsReported}
use kumomiru.Tests.Scans.{graph}

abbrev number : ℕ → Json
number n = Json.num (Number.pos n)

-- tcp 20-25 from everywhere.
abbrev opening : Json
opening = Json.obj (
    Members.member "fromPort" (number 20) (
      Members.member "toPort" (number 25) (
        Members.member "protocol" (Json.str "tcp") (
          Members.member "cidrs" (Json.arr (Items.cons (Json.str "0.0.0.0/0") Items.nil))
            Members.end))))

abbrev resource : Attributes → CloudNode
resource attributes = record {
  id = "r";
  type = "aws::ec2::security-group";
  name = "r";
  account = "111111111111";
  region = none;
  parent = none;
  tags = [];
  attributes = attributes;
}

abbrev group : CloudNode
group = resource (("ingress", Json.arr (Items.cons opening Items.nil)) ∷ [])

abbrev context : RuleContext
context = record { graph = graph; capabilities = []; node = λ i. none }

ssh_fails :
    fails (sg_unrestricted_ssh.check group context)
      || fails (sg_unrestricted_rdp.check group context)
      || fails (sg_unrestricted_high_risk_ports.check group context)
    ≡ true
unfolding kumomiru.Rules.Checks.Ec2.sg_failure kumomiru.Rules.Checks.Ec2.public_rules_covering
ssh_fails = refl

unauthorized_fails_example : fails (sg_unrestricted_unauthorized_ports.check group context) ≡ true
unauthorized_fails_example = unauthorized_fails group context ssh_fails

abbrev web : IngressRule
web = record {
  from_port = some (Number.pos 80);
  to_port = some (Number.pos 81);
  protocol = some "tcp";
  cidrs = "0.0.0.0/0" ∷ [];
  source_group_ids = [];
}

covers_port_outside_iff_example :
    (covers_port_outside web (80 ∷ 443 ∷ []) ≡ true)
    ↔ ((q : ℕ) × (80 ≤ q) × (q ≤ 81) × (has_port (80 ∷ 443 ∷ []) (Number.pos q) ≡ false))
covers_port_outside_iff_example =
    covers_port_outside_iff web (80 ∷ 443 ∷ []) 80 81 refl refl refl refl (omega arith)

-- A date is the text of its day.
abbrev date_parse : String → Option ℕ
date_parse s =
    if s == "2023-10-01"
    then some 1696118400000
    else if s == "2024-01-02"
    then some 1704153600000
    else none

abbrev user : CloudNode
user = resource (
    ("accessKey1Active", Json.bool true)
    ∷ ("accessKey1LastRotated", Json.str "2023-10-01")
    ∷ ("accessKey2Active", Json.bool false)
    ∷ [])

user_reported : has_attribute user "accessKey1Active" ≡ true
unfolding has_attribute
user_reported = refl

access_key_rotation-Old_iff_example :
    (fails ((access_key_rotation date_parse).check user context) ≡ true)
    ↔ (Old date_parse user context "1" ⊎ Old date_parse user context "2")
access_key_rotation-Old_iff_example =
    access_key_rotation-Old_iff date_parse user context user_reported

key_is_old : fails ((access_key_rotation date_parse).check user context) ≡ true
unfolding has_attribute kumomiru.Rules.Checks.Iam.stale_key
key_is_old = refl

abbrev entry : ℕ → String → NaclEntry
entry n action = record {
  rule_number = Number.pos n;
  egress = false;
  protocol = "-1";
  from_port = none;
  to_port = none;
  cidr = some "0.0.0.0/0";
  action = action;
}

abbrev entries : List NaclEntry
entries = entry 200 "allow" ∷ entry 100 "deny" ∷ []

is_open-inbound_example :
    ((e : NaclEntry) × Decides entries 22 e
      × (is_open (inbound entries) 22 ≡ (e.action == "allow")))
    ⊎ (All (λ f. is_inbound f ≡ true → admits 22 f ≡ false) entries
        × (is_open (inbound entries) 22 ≡ false))
is_open-inbound_example = is_open-inbound entries 22

denied_first : is_open (inbound entries) 22 ≡ false
unfolding inbound is_open
denied_first = refl

register_all-cases_example :
    (JsSet.Distinct (map rule_id (builtin_rules date_parse))
      × (reg : Registry) × (register_all (builtin_rules date_parse) (inl []) ≡ inl reg)
      × (list reg ≡ builtin_rules date_parse))
    ⊎ (¬ JsSet.Distinct (map rule_id (builtin_rules date_parse))
        × (error : String) × (register_all (builtin_rules date_parse) (inl []) ≡ inr error)
        × FirstRepeat (builtin_rules date_parse) error)
register_all-cases_example =
    register_all-cases (builtin_rules date_parse) (builtin_rules-ReplaceNothing date_parse)

builtin_rules-IsReported_example :
    (cat : Catalogue) × (catalogue Framework.fsbp ≡ inl cat)
    × All (IsReported date_parse Framework.fsbp [] cat) (builtin_rules date_parse)
builtin_rules-IsReported_example = builtin_rules-IsReported date_parse Framework.fsbp []
