-- ===== src/Rules/Checks/Ec2.antt =====
-- packages/rules/src/checks/ec2.ts: the rules on security groups and subnets.
pub mod Exposure
use kumomiru.Prelude.{
  ℕ, zero, suc, ◌+◌, ◌-◌, ◌/◌, String, Bool, true, false, not, ◌&&◌, ◌||◌, Option, none, some, List,
  [], ◌∷◌, ◌++◌, map, if◌then◌else◌, ◌==◌, join, ◌+ₛ◌, or_else, ltb, leb, nat_eq, any, keep_if,
  find_first,
}
use kumomiru.JsMap
use kumomiru.Graph.Schema.{
  Severity, Number, pos, negsuc, Json, Items, Attributes, CloudNode, Graph, GraphMeta, Remediation,
}
use kumomiru.Graph.Json.{show}
use kumomiru.Rules.{CheckRule, AdoptRule, RuleBase, RuleContext, RuleOutcome}
use kumomiru.Graph.Values.{
  is_true, is_false, is_text, is_truthy, elements, list_of, field, number_of, text_of, texts_of,
  list_or_none, items,
}
use kumomiru.Rules.Checks.{
  fsbp, csf, attribute, has_attribute, number_le, number_lt, number_is, show_number, fail_with,
  fail_if, pass_if, fail_with_any, when_present,
}
use kumomiru.Rules.Checks.Ingress.{
  IngressRule, ingress_of, is_public_rule, covers_port, covers_port_outside, public_cidrs,
  port_label,
}

describe : IngressRule → String
unfolding port_label public_cidrs
describe r =
    or_else r.protocol "all" +ₛ " " +ₛ port_label r +ₛ " from " +ₛ join "," (public_cidrs r)

unfoldable pub sg_failure : List IngressRule → String → RuleOutcome
unfolding describe
sg_failure [] what = RuleOutcome.pass
sg_failure (m ∷ matches) what =
    let rules = map describe (m ∷ matches) in
    RuleOutcome.fail (what +ₛ ": " +ₛ join "; " rules)
      (some (("rules", Json.arr (items (map Json.str rules))) ∷ [])) none

unfoldable pub public_rules_covering : CloudNode → ℕ → List IngressRule
unfolding keep_if is_public_rule covers_port ingress_of
public_rules_covering n port = keep_if (λ r. is_public_rule r && covers_port r port) (ingress_of n)

abbrev pub high_risk_ports : List ℕ
high_risk_ports =
    20 ∷ 21 ∷ 22 ∷ 23 ∷ 25 ∷ 110 ∷ 135 ∷ 143 ∷ 445 ∷ 1433 ∷ 1434 ∷ 3000 ∷ 3306 ∷ 3389 ∷ 4333 ∷ 5000
    ∷ 5432 ∷ 5500 ∷ 5601 ∷ 8080 ∷ 8088 ∷ 8888 ∷ 9200 ∷ 9300 ∷ []

unfoldable pub high_risk_rules : CloudNode → List IngressRule
unfolding keep_if any is_public_rule covers_port ingress_of
high_risk_rules n =
    keep_if (λ r. is_public_rule r && any (λ p. covers_port r p) high_risk_ports) (ingress_of n)

-- What the check adds to the outcome of `sgFailure`.
abbrev pub with_ports : List ℕ → RuleOutcome → RuleOutcome
with_ports ports (RuleOutcome.fail detail evidence severity) =
    RuleOutcome.fail ("high-risk ports " +ₛ join ", " (map show ports) +ₛ " open to the internet")
      (some (
        JsMap.set "ports" (Json.arr (items (map (λ p. Json.num (Number.pos p)) ports)))
          (or_else evidence [])))
      severity
with_ports ports out = out

unfoldable pub high_risk_check : CloudNode → RuleOutcome
unfolding sg_failure high_risk_rules JsMap.set show
high_risk_check n =
    let rules = high_risk_rules n in
    with_ports (keep_if (λ p. any (λ r. covers_port r p) rules) high_risk_ports)
      (sg_failure rules "high-risk ports open to the internet")

abbrev pub authorized_public_ports : List ℕ
authorized_public_ports = 80 ∷ 443 ∷ []

abbrev pub sg_unrestricted_ssh : CheckRule
sg_unrestricted_ssh = record {
  base = record {
    id = "ec2.sg-unrestricted-ssh";
    version = 1;
    title = "Security group allows SSH (22) from the internet";
    severity = Severity.high;
    kind = "sg-open-ssh";
    controls = fsbp "EC2.13" ∷ csf "PR.IR-01" ∷ [];
    remediation = record {
      text =
          "Remove the 0.0.0.0/0 or ::/0 ingress rule for port 22. Reach instances through SSM Session Manager or a bastion restricted to known CIDRs.";
      cli =
          some
            "aws ec2 revoke-security-group-ingress --group-id <sg-id> --protocol tcp --port 22 --cidr 0.0.0.0/0";
      terraform =
          some
            "ingress {\n  from_port   = 22\n  to_port     = 22\n  protocol    = \"tcp\"\n  cidr_blocks = [\"<your-cidr>/32\"]  # not 0.0.0.0/0\n}";
    };
    replaces = none;
  };
  resource_types = "aws::ec2::security-group" ∷ [];
  requires = "ec2:security-group" ∷ [];
  check = λ n _. sg_failure (public_rules_covering n 22) "port 22 open to the internet";
}

abbrev pub sg_unrestricted_rdp : CheckRule
sg_unrestricted_rdp = record {
  base = record {
    id = "ec2.sg-unrestricted-rdp";
    version = 1;
    title = "Security group allows RDP (3389) from the internet";
    severity = Severity.high;
    kind = "sg-open-rdp";
    controls = fsbp "EC2.14" ∷ csf "PR.IR-01" ∷ [];
    remediation = record {
      text =
          "Remove the 0.0.0.0/0 or ::/0 ingress rule for port 3389. Use SSM Session Manager or a bastion restricted to known CIDRs.";
      cli =
          some
            "aws ec2 revoke-security-group-ingress --group-id <sg-id> --protocol tcp --port 3389 --cidr 0.0.0.0/0";
      terraform = none;
    };
    replaces = none;
  };
  resource_types = "aws::ec2::security-group" ∷ [];
  requires = "ec2:security-group" ∷ [];
  check = λ n _. sg_failure (public_rules_covering n 3389) "port 3389 open to the internet";
}

abbrev pub sg_unrestricted_high_risk_ports : CheckRule
sg_unrestricted_high_risk_ports = record {
  base = record {
    id = "ec2.sg-unrestricted-high-risk-ports";
    version = 1;
    title = "Security group allows unrestricted access to high-risk ports";
    severity = Severity.critical;
    kind = "sg-open-high-risk-port";
    controls = fsbp "EC2.19" ∷ csf "PR.IR-01" ∷ [];
    remediation = record {
      text =
          "Restrict the rule to known source CIDRs or a source security group. Database, admin, and management ports must never be open to 0.0.0.0/0.";
      cli =
          some
            "aws ec2 revoke-security-group-ingress --group-id <sg-id> --ip-permissions '<the offending permission>'";
      terraform = none;
    };
    replaces = none;
  };
  resource_types = "aws::ec2::security-group" ∷ [];
  requires = "ec2:security-group" ∷ [];
  check = λ n _. high_risk_check n;
}

abbrev pub sg_unrestricted_unauthorized_ports : CheckRule
sg_unrestricted_unauthorized_ports = record {
  base = record {
    id = "ec2.sg-unrestricted-unauthorized-ports";
    version = 1;
    title = "Security group allows unrestricted ingress on ports other than 80/443";
    severity = Severity.high;
    kind = "sg-open-unauthorized-port";
    controls = fsbp "EC2.18" ∷ csf "PR.IR-01" ∷ [];
    remediation = record {
      text =
          "Only 80 and 443 should accept traffic from 0.0.0.0/0. Narrow other rules to known CIDRs or a source security group, or put the service behind a load balancer.";
      cli = none;
      terraform = none;
    };
    replaces = none;
  };
  resource_types = "aws::ec2::security-group" ∷ [];
  requires = "ec2:security-group" ∷ [];
  check = λ n _.
      sg_failure
        (keep_if (λ r. is_public_rule r && covers_port_outside r authorized_public_ports)
          (ingress_of n))
        "unrestricted ingress beyond 80/443";
}

abbrev pub subnet_auto_public_ip : CheckRule
subnet_auto_public_ip = record {
  base = record {
    id = "ec2.subnet-auto-assign-public-ip";
    version = 1;
    title = "Subnet auto-assigns public IP addresses";
    severity = Severity.medium;
    kind = "subnet-auto-public-ip";
    controls = fsbp "EC2.15" ∷ csf "PR.IR-01" ∷ [];
    remediation = record {
      text =
          "Disable MapPublicIpOnLaunch on the subnet and give instances that need to be reachable an explicit Elastic IP or a load balancer.";
      cli =
          some
            "aws ec2 modify-subnet-attribute --subnet-id <subnet-id> --no-map-public-ip-on-launch";
      terraform = some "map_public_ip_on_launch = false";
    };
    replaces = none;
  };
  resource_types = "aws::ec2::subnet" ∷ [];
  requires = "ec2:subnet" ∷ [];
  check =
      λ n _. fail_if (is_true (attribute n "mapPublicIpOnLaunch")) "MapPublicIpOnLaunch is enabled";
}

abbrev pub ec2_rules : List CheckRule
ec2_rules =
    sg_unrestricted_ssh ∷ sg_unrestricted_rdp ∷ sg_unrestricted_high_risk_ports
    ∷ sg_unrestricted_unauthorized_ports ∷ subnet_auto_public_ip ∷ []
