-- ===== src/Rules/Checks/TrancheB/Edge.antt =====
-- packages/rules/src/checks/tranche-b.ts: the rules on distributions, stages, and the snapshots and clusters of RDS.
use kumomiru.Prelude.{
  String, not, none, some, List, [], ◌∷◌, map, if◌then◌else◌, join, ◌+ₛ◌, or_else, keep_if,
}
use kumomiru.Graph.Schema.{Severity, Json}
use kumomiru.Rules.{CheckRule, RuleOutcome}
use kumomiru.Graph.Values.{is_true, is_text, is_truthy, field, text_of, list_or_none}
use kumomiru.Rules.Checks.{fsbp, csf, attribute, fail_with, fail_if, pass_if, when_present}

abbrev stage_name : Json → String
stage_name s = or_else (text_of (field "name" s)) ""

abbrev without_logs : List String → RuleOutcome
without_logs [] = RuleOutcome.pass
without_logs (s ∷ off) = fail_with ("stage(s) without logging: " +ₛ join ", " (s ∷ off))

unfoldable pub stage_check : List Json → RuleOutcome
unfolding keep_if field
stage_check [] = RuleOutcome.not_applicable
stage_check (s ∷ stages) =
    without_logs
      (map stage_name (keep_if (λ v. not (is_truthy (field "loggingEnabled" v))) (s ∷ stages)))

abbrev pub cloud_front_viewer_https : CheckRule
cloud_front_viewer_https = record {
  base = record {
    id = "cloudfront.viewer-protocol-https";
    version = 1;
    title = "CloudFront distribution serves plain HTTP to viewers";
    severity = Severity.medium;
    kind = "cloudfront-allow-http";
    controls = fsbp "CloudFront.3" ∷ csf "PR.DS-02" ∷ [];
    remediation = record {
      text =
          "Set the default cache behavior's viewer protocol policy to redirect-to-https or https-only.";
      cli = none;
      terraform = none;
    };
    replaces = none;
  };
  resource_types = "aws::cloudfront::distribution" ∷ [];
  requires = "cloudfront:distribution" ∷ [];
  check = λ n _.
      if not (is_true (attribute n "enabled"))
      then RuleOutcome.not_applicable
      else fail_if (is_text "allow-all" (attribute n "viewerProtocolPolicy"))
          "viewer protocol policy is allow-all";
}

abbrev pub cloud_front_logging : CheckRule
cloud_front_logging = record {
  base = record {
    id = "cloudfront.access-logging";
    version = 1;
    title = "CloudFront distribution has no access logging";
    severity = Severity.low;
    kind = "cloudfront-no-logging";
    controls = fsbp "CloudFront.5" ∷ csf "DE.CM-01" ∷ [];
    remediation = record {
      text =
          "Enable standard logging to an S3 bucket (or CloudWatch Logs with standard logging v2).";
      cli = none;
      terraform = none;
    };
    replaces = none;
  };
  resource_types = "aws::cloudfront::distribution" ∷ [];
  requires = "cloudfront:distribution" ∷ [];
  check = λ n _. pass_if (is_true (attribute n "loggingEnabled")) "logging disabled";
}

abbrev pub api_gateway_logging : CheckRule
api_gateway_logging = record {
  base = record {
    id = "apigateway.stage-logging";
    version = 1;
    title = "API Gateway stage has execution logging off";
    severity = Severity.low;
    kind = "apigw-no-logging";
    controls = fsbp "APIGateway.1" ∷ csf "DE.CM-01" ∷ [];
    remediation = record {
      text = "Turn on execution logging (INFO or ERROR) for every stage.";
      cli =
          some
            "aws apigateway update-stage --rest-api-id <id> --stage-name <stage> --patch-operations op=replace,path=/*/*/logging/loglevel,value=INFO";
      terraform = none;
    };
    replaces = none;
  };
  resource_types = "aws::apigateway::rest-api" ∷ [];
  requires = "apigateway:rest-api" ∷ [];
  check = λ n _. stage_check (list_or_none (attribute n "stages"));
}

abbrev pub rds_snapshot_public : CheckRule
rds_snapshot_public = record {
  base = record {
    id = "rds.snapshot-public";
    version = 1;
    title = "RDS snapshot is publicly restorable";
    severity = Severity.critical;
    kind = "rds-snapshot-public";
    controls = fsbp "RDS.1" ∷ csf "PR.DS-01" ∷ [];
    remediation = record {
      text =
          "Remove 'all' from the snapshot's restore attribute. A public snapshot hands the whole database to anyone with an AWS account.";
      cli =
          some
            "aws rds modify-db-snapshot-attribute --db-snapshot-identifier <id> --attribute-name restore --values-to-remove all";
      terraform = none;
    };
    replaces = none;
  };
  resource_types = "aws::rds::db-snapshot" ∷ [];
  requires = "rds:db-snapshot" ∷ [];
  check = λ n _. fail_if (is_true (attribute n "public")) "restore attribute includes 'all'";
}

abbrev pub rds_cluster_encrypted : CheckRule
rds_cluster_encrypted = record {
  base = record {
    id = "rds.cluster-storage-encrypted";
    version = 1;
    title = "RDS cluster storage is not encrypted";
    severity = Severity.medium;
    kind = "rds-cluster-unencrypted";
    controls = fsbp "RDS.27" ∷ csf "PR.DS-01" ∷ [];
    remediation = record {
      text = "Cluster encryption is set at creation: snapshot, copy encrypted, restore, cut over.";
      cli = none;
      terraform = none;
    };
    replaces = none;
  };
  resource_types = "aws::rds::db-cluster" ∷ [];
  requires = "rds:db-cluster" ∷ [];
  check = λ n _.
      when_present n "storageEncrypted"
        (pass_if (is_true (attribute n "storageEncrypted")) "StorageEncrypted is false");
}
