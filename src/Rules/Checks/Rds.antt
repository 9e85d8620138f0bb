-- ===== src/Rules/Checks/Rds.antt =====
-- packages/rules/src/checks/rds.ts: the rule on public instances.
use kumomiru.Prelude.{none, some, List, [], ◌∷◌}
use kumomiru.Graph.Schema.{Severity}
use kumomiru.Rules.{CheckRule}
use kumomiru.Graph.Values.{is_true}
use kumomiru.Rules.Checks.{fsbp, csf, attribute, fail_if}

abbrev pub rds_publicly_accessible : CheckRule
rds_publicly_accessible = record {
  base = record {
    id = "rds.instance-publicly-accessible";
    version = 1;
    title = "RDS instance is publicly accessible";
    severity = Severity.critical;
    kind = "rds-public";
    controls = fsbp "RDS.2" ∷ csf "PR.IR-01" ∷ csf "PR.DS-01" ∷ [];
    remediation = record {
      text =
          "Set PubliclyAccessible to false and place the instance in private subnets; reach it through the VPC (or a bastion / SSM port forward).";
      cli =
          some
            "aws rds modify-db-instance --db-instance-identifier <id> --no-publicly-accessible --apply-immediately";
      terraform = some "publicly_accessible = false";
    };
    replaces = none;
  };
  resource_types = "aws::rds::db-instance" ∷ [];
  requires = "rds:db-instance" ∷ [];
  check = λ n _. fail_if (is_true (attribute n "publiclyAccessible")) "PubliclyAccessible is true";
}

abbrev pub rds_rules : List CheckRule
rds_rules = rds_publicly_accessible ∷ []
