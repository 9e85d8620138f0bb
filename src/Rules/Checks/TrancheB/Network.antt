-- ===== src/Rules/Checks/TrancheB/Network.antt =====
-- packages/rules/src/checks/tranche-b.ts: the rules on networks and instances.
use kumomiru.Prelude.{
  ℕ, String, Bool, false, not, ◌&&◌, ◌||◌, Option, none, some, List, [], ◌∷◌, map, if◌then◌else◌,
  ◌==◌, join, ◌+ₛ◌, or_else, keep_if, find_first, length,
}
use kumomiru.Graph.Schema.{Severity, Number, Json, Items, CloudNode}
use kumomiru.Graph.Json.{show}
use kumomiru.Rules.{CheckRule, RuleOutcome}
use kumomiru.Graph.Values.{is_true, is_truthy, elements, list_of, field, number_of, text_of}
use kumomiru.Rules.Checks.{fsbp, csf, attribute, number_le, fail_with, pass_if, when_present}

pub record NaclEntry : Type 0 where
  pub rule_number : Number
  pub egress : Bool
  pub protocol : String
  pub from_port : Option Number
  pub to_port : Option Number
  pub cidr : Option String
  pub action : String

abbrev nacl_entry : Json → NaclEntry
nacl_entry v = record {
  rule_number = or_else (number_of (field "ruleNumber" v)) (Number.pos 0);
  egress = is_truthy (field "egress" v);
  protocol = or_else (text_of (field "protocol" v)) "";
  from_port = number_of (field "fromPort" v);
  to_port = number_of (field "toPort" v);
  cidr = text_of (field "cidr" v);
  action = or_else (text_of (field "action" v)) "";
}

abbrev admin_ports : List ℕ
admin_ports = 22 ∷ 3389 ∷ []

abbrev pub is_world : Option String → Bool
is_world none = false
is_world (some c) = c == "0.0.0.0/0" || c == "::/0"

-- `sort((a, b) => a.ruleNumber - b.ruleNumber)`, which is stable.
unfoldable pub insert_entry : NaclEntry → List NaclEntry → List NaclEntry
insert_entry e [] = e ∷ []
insert_entry e (f ∷ fs) =
    let rest = insert_entry e fs in
    if number_le e.rule_number f.rule_number then e ∷ f ∷ fs else f ∷ rest

unfoldable pub by_number : List NaclEntry → List NaclEntry
unfolding insert_entry
by_number [] = []
by_number (e ∷ es) = insert_entry e (by_number es)

abbrev pub is_inbound : NaclEntry → Bool
is_inbound e = not e.egress && is_world e.cidr

unfoldable pub inbound : List NaclEntry → List NaclEntry
unfolding by_number keep_if
inbound es = by_number (keep_if is_inbound es)

abbrev pub admits : ℕ → NaclEntry → Bool
admits port e =
    let every = e.protocol == "-1" in
    let tcp = e.protocol == "6" || e.protocol == "tcp" in
    if not every && not tcp
    then false
    else every
      || number_le (or_else e.from_port (Number.pos 0)) (Number.pos port)
        && number_le (Number.pos port) (or_else e.to_port (Number.pos 65535))

abbrev pub allows : Option NaclEntry → Bool
allows none = false
allows (some e) = e.action == "allow"

-- `hit && hit.action === "allow"`
unfoldable pub is_open : List NaclEntry → ℕ → Bool
unfolding find_first
is_open es port = allows (find_first (admits port) es)

abbrev open_outcome : List ℕ → RuleOutcome
open_outcome [] = RuleOutcome.pass
open_outcome (p ∷ ps) =
    fail_with ("inbound allow from 0.0.0.0/0 covers port(s) " +ₛ join ", " (map show (p ∷ ps)))

unfoldable pub nacl_check : CloudNode → RuleOutcome
unfolding inbound is_open keep_if attribute field show
nacl_check n = elim (elements (attribute n "entries")) [
  | none ↦ RuleOutcome.not_applicable
  | some vs ↦
      let sorted = inbound (map nacl_entry (list_of vs)) in
      open_outcome (keep_if (is_open sorted) admin_ports)
]

abbrev has_ingress : Option Items → RuleOutcome
has_ingress none = RuleOutcome.pass
has_ingress (some Items.nil) = RuleOutcome.pass
has_ingress (some (Items.cons v vs)) =
    fail_with ("default SG has " +ₛ show (length (list_of (Items.cons v vs))) +ₛ " ingress rule(s)")

abbrev pub nacl_unrestricted_admin_ports : CheckRule
nacl_unrestricted_admin_ports = record {
  base = record {
    id = "ec2.nacl-unrestricted-admin-ports";
    version = 1;
    title = "Network ACL allows unrestricted ingress to SSH or RDP";
    severity = Severity.medium;
    kind = "nacl-open-admin-ports";
    controls = fsbp "EC2.21" ∷ csf "PR.IR-01" ∷ [];
    remediation = record {
      text =
          "Replace the allow-all inbound NACL entry with entries scoped to the ports and CIDRs the subnet actually needs; keep SSH/RDP behind a bastion or SSM.";
      cli =
          some
            "aws ec2 replace-network-acl-entry --network-acl-id <acl> --ingress --rule-number 100 --protocol tcp --port-range From=443,To=443 --cidr-block 0.0.0.0/0 --rule-action allow";
      terraform = none;
    };
    replaces = none;
  };
  resource_types = "aws::ec2::network-acl" ∷ [];
  requires = "ec2:network-acl" ∷ [];
  check = λ n _. nacl_check n;
}

abbrev pub default_sg_open : CheckRule
default_sg_open = record {
  base = record {
    id = "ec2.default-sg-restricts-traffic";
    version = 1;
    title = "Default security group has ingress rules";
    severity = Severity.medium;
    kind = "default-sg-open";
    controls = fsbp "EC2.2" ∷ csf "PR.IR-01" ∷ [];
    remediation = record {
      text =
          "Remove every rule from the VPC default security group so an instance launched without an explicit group gets no access. (Egress is not collected yet; this checks ingress.)";
      cli =
          some
            "aws ec2 revoke-security-group-ingress --group-id <default-sg> --ip-permissions \"$(aws ec2 describe-security-groups --group-ids <default-sg> --query 'SecurityGroups[0].IpPermissions')\"";
      terraform = none;
    };
    replaces = none;
  };
  resource_types = "aws::ec2::security-group" ∷ [];
  requires = "ec2:security-group" ∷ [];
  check = λ n _.
      if not (n.name == "default")
      then RuleOutcome.not_applicable
      else has_ingress (elements (attribute n "ingress"));
}

abbrev pub instance_imdsv2 : CheckRule
instance_imdsv2 = record {
  base = record {
    id = "ec2.instance-imdsv2";
    version = 1;
    title = "EC2 instance does not require IMDSv2";
    severity = Severity.high;
    kind = "instance-imdsv1";
    controls = fsbp "EC2.8" ∷ csf "PR.AA-01" ∷ [];
    remediation = record {
      text =
          "Require IMDSv2 (HttpTokens=required). IMDSv1 lets an SSRF on the instance steal its role credentials.";
      cli =
          some
            "aws ec2 modify-instance-metadata-options --instance-id <id> --http-tokens required --http-endpoint enabled";
      terraform = some "metadata_options {\n  http_tokens = \"required\"\n}";
    };
    replaces = none;
  };
  resource_types = "aws::ec2::instance" ∷ [];
  requires = "ec2:instance" ∷ [];
  check = λ n _.
      when_present n "imdsv2Required" (
        pass_if (is_true (attribute n "imdsv2Required")) "HttpTokens is optional (IMDSv1 allowed)");
}

abbrev pub launch_template_imdsv2 : CheckRule
launch_template_imdsv2 = record {
  base = record {
    id = "ec2.launch-template-imdsv2";
    version = 1;
    title = "Launch template does not require IMDSv2";
    severity = Severity.medium;
    kind = "launch-template-imdsv1";
    controls = fsbp "AutoScaling.3" ∷ csf "PR.AA-01" ∷ [];
    remediation = record {
      text =
          "Set MetadataOptions.HttpTokens=required in the launch template's default version so every instance it launches enforces IMDSv2.";
      cli = none;
      terraform = some "metadata_options {\n  http_tokens = \"required\"\n}";
    };
    replaces = none;
  };
  resource_types = "aws::ec2::launch-template" ∷ [];
  requires = "ec2:launch-template" ∷ [];
  check = λ n _.
      when_present n "imdsv2Required"
        (pass_if (is_true (attribute n "imdsv2Required")) "default version allows IMDSv1");
}
