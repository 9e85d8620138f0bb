-- ===== src/Rules/Checks/S3.antt =====
-- packages/rules/src/checks/s3.ts: the rules on buckets.
use kumomiru.Prelude.{
  String, Bool, not, ◌&&◌, ◌||◌, none, some, List, [], ◌∷◌, ◌++◌, if◌then◌else◌, any,
}
use kumomiru.Graph.Schema.{Severity, Json}
use kumomiru.Rules.{CheckRule, RuleOutcome}
use kumomiru.Graph.Values.{is_true, is_text, is_truthy, elements, list_of, field, list_or_none}
use kumomiru.Rules.Checks.{fsbp, csf, attribute, fail_if, pass_if, fail_with_any, when_present}

abbrev gap : String → String → Json → List String
gap key message pab = if is_truthy (field key pab) then [] else message ∷ []

unfoldable pub pab_gaps : Json → List String
unfolding field
pab_gaps pab =
    if not (is_truthy pab)
    then "no public access block configuration" ∷ []
    else gap "blockPublicAcls" "BlockPublicAcls off" pab
      ++ gap "ignorePublicAcls" "IgnorePublicAcls off" pab
      ++ gap "blockPublicPolicy" "BlockPublicPolicy off" pab
      ++ gap "restrictPublicBuckets" "RestrictPublicBuckets off" pab

unfoldable pub denies_plain_http : Json → Bool
unfolding field any
denies_plain_http s =
    is_text "Deny" (field "effect" s)
    && any (is_text "aws:SecureTransport") (list_or_none (field "conditionKeys" s))
    && any (λ a. is_text "s3:*" a || is_text "*" a) (list_or_none (field "actions" s))

abbrev pub account_public_access_block : CheckRule
account_public_access_block = record {
  base = record {
    id = "s3.account-public-access-block";
    version = 1;
    title = "Account-level S3 Block Public Access is not fully enabled";
    severity = Severity.high;
    kind = "s3-account-pab";
    controls = fsbp "S3.1" ∷ csf "PR.IR-01" ∷ [];
    remediation = record {
      text =
          "Turn on all four Block Public Access settings at the account level. Any bucket that genuinely must be public should be the documented exception, served through CloudFront.";
      cli =
          some
            "aws s3control put-public-access-block --account-id <acct> --public-access-block-configuration BlockPublicAcls=true,IgnorePublicAcls=true,BlockPublicPolicy=true,RestrictPublicBuckets=true";
      terraform = none;
    };
    replaces = none;
  };
  resource_types = "aws::account" ∷ [];
  requires = "iam:account-summary" ∷ [];
  check = λ n _.
      when_present n "s3PublicAccessBlock"
        (fail_with_any "; " (pab_gaps (attribute n "s3PublicAccessBlock")));
}

abbrev pub bucket_public_access_block : CheckRule
bucket_public_access_block = record {
  base = record {
    id = "s3.bucket-public-access-block";
    version = 1;
    title = "Bucket Block Public Access is not fully enabled";
    severity = Severity.high;
    kind = "s3-bucket-pab";
    controls = fsbp "S3.8" ∷ csf "PR.IR-01" ∷ [];
    remediation = record {
      text = "Enable all four Block Public Access settings on the bucket.";
      cli =
          some
            "aws s3api put-public-access-block --bucket <name> --public-access-block-configuration BlockPublicAcls=true,IgnorePublicAcls=true,BlockPublicPolicy=true,RestrictPublicBuckets=true";
      terraform =
          some
            "resource \"aws_s3_bucket_public_access_block\" \"this\" {\n  bucket                  = aws_s3_bucket.this.id\n  block_public_acls       = true\n  block_public_policy     = true\n  ignore_public_acls      = true\n  restrict_public_buckets = true\n}";
    };
    replaces = none;
  };
  resource_types = "aws::s3::bucket" ∷ [];
  requires = "s3:bucket" ∷ [];
  check = λ n _. fail_with_any "; " (pab_gaps (attribute n "publicAccessBlock"));
}

abbrev pub bucket_public_policy : CheckRule
bucket_public_policy = record {
  base = record {
    id = "s3.bucket-public-policy";
    version = 1;
    title = "Bucket policy grants public access";
    severity = Severity.critical;
    kind = "s3-public-policy";
    controls = fsbp "S3.2" ∷ csf "PR.IR-01" ∷ csf "PR.DS-01" ∷ [];
    remediation = record {
      text =
          "Remove the public statement from the bucket policy (or the whole policy) and enable Block Public Access. If the content must be public, serve it through CloudFront with an origin access control.";
      cli = some "aws s3api delete-bucket-policy --bucket <name>";
      terraform = none;
    };
    replaces = none;
  };
  resource_types = "aws::s3::bucket" ∷ [];
  requires = "s3:bucket" ∷ [];
  check = λ n _. when_present n "policyIsPublic" (
      fail_if (is_true (attribute n "policyIsPublic"))
        "AWS reports the bucket policy as public (GetBucketPolicyStatus)");
}

abbrev pub bucket_require_tls : CheckRule
bucket_require_tls = record {
  base = record {
    id = "s3.bucket-require-tls";
    version = 1;
    title = "Bucket does not require TLS (aws:SecureTransport)";
    severity = Severity.medium;
    kind = "s3-no-tls-policy";
    controls = fsbp "S3.5" ∷ csf "PR.DS-02" ∷ [];
    remediation = record {
      text =
          "Add a bucket policy statement that denies s3:* to all principals when aws:SecureTransport is false.";
      cli = none;
      terraform =
          some
            "statement {\n  effect    = \"Deny\"\n  actions   = [\"s3:*\"]\n  resources = [aws_s3_bucket.this.arn, \"${aws_s3_bucket.this.arn}/*\"]\n  principals { type = \"*\"  identifiers = [\"*\"] }\n  condition { test = \"Bool\"  variable = \"aws:SecureTransport\"  values = [\"false\"] }\n}";
    };
    replaces = none;
  };
  resource_types = "aws::s3::bucket" ∷ [];
  requires = "s3:bucket" ∷ [];
  check = λ n _. elim (elements (attribute n "policyStatements")) [
    | none ↦ RuleOutcome.not_applicable
    | some vs ↦
        pass_if (any denies_plain_http (list_of vs))
          "no Deny statement conditioned on aws:SecureTransport=false"
  ];
}

abbrev pub bucket_logging : CheckRule
bucket_logging = record {
  base = record {
    id = "s3.bucket-server-access-logging";
    version = 1;
    title = "Bucket has no server access logging";
    severity = Severity.low;
    kind = "s3-no-logging";
    controls = fsbp "S3.9" ∷ csf "DE.CM-09" ∷ [];
    remediation = record {
      text =
          "Enable server access logging to a dedicated log bucket, or rely on CloudTrail data events for the bucket if you already pay for them.";
      cli =
          some
            "aws s3api put-bucket-logging --bucket <name> --bucket-logging-status '{\"LoggingEnabled\":{\"TargetBucket\":\"<log-bucket>\",\"TargetPrefix\":\"<name>/\"}}'";
      terraform = none;
    };
    replaces = none;
  };
  resource_types = "aws::s3::bucket" ∷ [];
  requires = "s3:bucket" ∷ [];
  check = λ n _.
      when_present n "loggingEnabled"
        (pass_if (is_true (attribute n "loggingEnabled")) "server access logging disabled");
}

abbrev pub s3_rules : List CheckRule
s3_rules =
    account_public_access_block ∷ bucket_public_access_block ∷ bucket_public_policy
    ∷ bucket_require_tls ∷ bucket_logging ∷ []
