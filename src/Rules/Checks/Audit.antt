-- ===== src/Rules/Checks/Audit.antt =====
-- packages/rules/src/checks/audit.ts: the rules on trails and detectors.
use kumomiru.Prelude.{none, some, List, [], ◌∷◌, any}
use kumomiru.Graph.Schema.{Severity}
use kumomiru.Rules.{CheckRule, RuleOutcome}
use kumomiru.Graph.Values.{is_true, is_text, elements, list_of}
use kumomiru.Rules.Checks.{fsbp, csf, attribute, fail_if, pass_if, when_present}

abbrev pub cloud_trail_multi_region : CheckRule
cloud_trail_multi_region = record {
  base = record {
    id = "cloudtrail.multi-region-trail";
    version = 1;
    title = "No logging multi-region CloudTrail trail with management events";
    severity = Severity.high;
    kind = "cloudtrail-missing";
    controls = fsbp "CloudTrail.1" ∷ csf "DE.CM-09" ∷ [];
    remediation = record {
      text =
          "Create one multi-region trail (or an organization trail) that records read and write management events, and keep it logging.";
      cli =
          some
            "aws cloudtrail create-trail --name org-trail --s3-bucket-name <bucket> --is-multi-region-trail --enable-log-file-validation && aws cloudtrail start-logging --name org-trail";
      terraform = none;
    };
    replaces = none;
  };
  resource_types = "aws::account" ∷ [];
  requires = "cloudtrail:trail" ∷ [];
  check = λ n _. when_present n "cloudTrailMultiRegionLogging" (
      pass_if (is_true (attribute n "cloudTrailMultiRegionLogging"))
        "no trail is multi-region, logging, and recording management events");
}

abbrev pub cloud_trail_encrypted : CheckRule
cloud_trail_encrypted = record {
  base = record {
    id = "cloudtrail.trail-kms-encrypted";
    version = 1;
    title = "CloudTrail trail is not encrypted with a KMS key";
    severity = Severity.medium;
    kind = "cloudtrail-no-kms";
    controls = fsbp "CloudTrail.2" ∷ csf "PR.DS-01" ∷ [];
    remediation = record {
      text =
          "Configure the trail with a customer-managed KMS key whose policy allows CloudTrail to encrypt and your auditors to decrypt.";
      cli = some "aws cloudtrail update-trail --name <trail> --kms-key-id <key-arn>";
      terraform = none;
    };
    replaces = none;
  };
  resource_types = "aws::cloudtrail::trail" ∷ [];
  requires = "cloudtrail:trail" ∷ [];
  check = λ n _. pass_if (is_true (attribute n "kmsEncrypted")) "trail logs are not KMS-encrypted";
}

abbrev pub cloud_trail_validation : CheckRule
cloud_trail_validation = record {
  base = record {
    id = "cloudtrail.log-file-validation";
    version = 1;
    title = "CloudTrail log file validation is disabled";
    severity = Severity.low;
    kind = "cloudtrail-no-validation";
    controls = fsbp "CloudTrail.4" ∷ csf "PR.DS-01" ∷ [];
    remediation = record {
      text = "Enable log file validation so tampering with delivered logs is detectable.";
      cli = some "aws cloudtrail update-trail --name <trail> --enable-log-file-validation";
      terraform = none;
    };
    replaces = none;
  };
  resource_types = "aws::cloudtrail::trail" ∷ [];
  requires = "cloudtrail:trail" ∷ [];
  check =
      λ n _. pass_if (is_true (attribute n "logFileValidationEnabled")) "log file validation off";
}

abbrev pub config_recorder : CheckRule
config_recorder = record {
  base = record {
    id = "config.recorder-enabled";
    version = 1;
    title = "AWS Config is not recording in this region";
    severity = Severity.medium;
    kind = "config-off";
    controls = fsbp "Config.1" ∷ csf "DE.CM-09" ∷ [];
    remediation = record {
      text =
          "Enable the AWS Config recorder for all supported resource types (including global resources in one region) with a delivery channel.";
      cli =
          some
            "aws configservice put-configuration-recorder --configuration-recorder name=default,roleARN=<role> --recording-group allSupported=true,includeGlobalResourceTypes=true && aws configservice start-configuration-recorder --configuration-recorder-name default";
      terraform = none;
    };
    replaces = none;
  };
  resource_types = "aws::region" ∷ [];
  requires = "account:region-settings" ∷ [];
  check = λ n _.
      when_present n "configRecorderEnabled"
        (pass_if (is_true (attribute n "configRecorderEnabled")) "no active Config recorder");
}

abbrev pub guard_duty : CheckRule
guard_duty = record {
  base = record {
    id = "guardduty.enabled";
    version = 1;
    title = "GuardDuty is not enabled in this region";
    severity = Severity.medium;
    kind = "guardduty-off";
    controls = fsbp "GuardDuty.1" ∷ csf "DE.CM-01" ∷ [];
    remediation = record {
      text =
          "Enable GuardDuty in every region (or delegate it to a security account via Organizations).";
      cli = some "aws guardduty create-detector --enable --region <region>";
      terraform = none;
    };
    replaces = none;
  };
  resource_types = "aws::region" ∷ [];
  requires = "account:region-settings" ∷ [];
  check = λ n _.
      when_present n "guardDutyEnabled"
        (pass_if (is_true (attribute n "guardDutyEnabled")) "no enabled GuardDuty detector");
}

abbrev pub lambda_public_url : CheckRule
lambda_public_url = record {
  base = record {
    id = "lambda.function-url-no-auth";
    version = 1;
    title = "Lambda function URL has no authentication";
    severity = Severity.high;
    kind = "lambda-url-no-auth";
    controls = fsbp "Lambda.1" ∷ csf "PR.IR-01" ∷ [];
    remediation = record {
      text =
          "Set the function URL auth type to AWS_IAM, or put the function behind API Gateway with an authorizer. AuthType NONE exposes the function to the internet.";
      cli = some "aws lambda update-function-url-config --function-name <fn> --auth-type AWS_IAM";
      terraform = none;
    };
    replaces = none;
  };
  resource_types = "aws::lambda::function" ∷ [];
  requires = "lambda:policy" ∷ [];
  check = λ n _. elim (elements (attribute n "urlAuthTypes")) [
    | none ↦ RuleOutcome.not_applicable
    | some vs ↦ fail_if (any (is_text "NONE") (list_of vs)) "function URL AuthType is NONE"
  ];
}

abbrev pub secret_rotation : CheckRule
secret_rotation = record {
  base = record {
    id = "secretsmanager.rotation-enabled";
    version = 1;
    title = "Secrets Manager secret has rotation disabled";
    severity = Severity.low;
    kind = "secret-no-rotation";
    controls = fsbp "SecretsManager.1" ∷ csf "PR.AA-01" ∷ [];
    remediation = record {
      text =
          "Configure automatic rotation with a rotation Lambda (managed rotation exists for RDS, Redshift, and DocumentDB credentials).";
      cli =
          some
            "aws secretsmanager rotate-secret --secret-id <arn> --rotation-lambda-arn <fn> --rotation-rules AutomaticallyAfterDays=30";
      terraform = none;
    };
    replaces = none;
  };
  resource_types = "aws::secretsmanager::secret" ∷ [];
  requires = "secretsmanager:policy" ∷ [];
  check = λ n _.
      when_present n "rotationEnabled"
        (pass_if (is_true (attribute n "rotationEnabled")) "automatic rotation is not configured");
}

abbrev pub audit_rules : List CheckRule
audit_rules =
    cloud_trail_multi_region ∷ cloud_trail_encrypted ∷ cloud_trail_validation ∷ config_recorder
    ∷ guard_duty ∷ lambda_public_url ∷ secret_rotation ∷ []
