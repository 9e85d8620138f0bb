-- ===== src/Rules/Checks/TrancheB/Storage.antt =====
-- packages/rules/src/checks/tranche-b.ts: the rules on queues, topics, tables, images and file systems.
use kumomiru.Prelude.{none, some, [], ◌∷◌}
use kumomiru.Graph.Schema.{Severity}
use kumomiru.Rules.{CheckRule}
use kumomiru.Graph.Values.{is_true}
use kumomiru.Rules.Checks.{fsbp, csf, attribute, pass_if, when_present}

abbrev pub sqs_encrypted : CheckRule
sqs_encrypted = record {
  base = record {
    id = "sqs.queue-encrypted";
    version = 1;
    title = "SQS queue is not encrypted at rest";
    severity = Severity.medium;
    kind = "sqs-unencrypted";
    controls = fsbp "SQS.1" ∷ csf "PR.DS-01" ∷ [];
    remediation = record {
      text = "Enable SQS-managed SSE or a KMS key on the queue.";
      cli =
          some
            "aws sqs set-queue-attributes --queue-url <url> --attributes SqsManagedSseEnabled=true";
      terraform = none;
    };
    replaces = none;
  };
  resource_types = "aws::sqs::queue" ∷ [];
  requires = "sqs:queue" ∷ [];
  check = λ n _. pass_if (is_true (attribute n "kmsEncrypted")) "no server-side encryption";
}

abbrev pub sns_encrypted : CheckRule
sns_encrypted = record {
  base = record {
    id = "sns.topic-encrypted";
    version = 1;
    title = "SNS topic is not encrypted at rest";
    severity = Severity.medium;
    kind = "sns-unencrypted";
    controls = fsbp "SNS.1" ∷ csf "PR.DS-01" ∷ [];
    remediation = record {
      text = "Set a KMS key on the topic (KmsMasterKeyId).";
      cli =
          some
            "aws sns set-topic-attributes --topic-arn <arn> --attribute-name KmsMasterKeyId --attribute-value alias/aws/sns";
      terraform = none;
    };
    replaces = none;
  };
  resource_types = "aws::sns::topic" ∷ [];
  requires = "sns:topic" ∷ [];
  check = λ n _. pass_if (is_true (attribute n "kmsEncrypted")) "no KmsMasterKeyId";
}

abbrev pub dynamo_pitr : CheckRule
dynamo_pitr = record {
  base = record {
    id = "dynamodb.pitr-enabled";
    version = 1;
    title = "DynamoDB table has point-in-time recovery disabled";
    severity = Severity.low;
    kind = "dynamodb-no-pitr";
    controls = fsbp "DynamoDB.2" ∷ csf "PR.DS-01" ∷ [];
    remediation = record {
      text =
          "Enable point-in-time recovery so the table can be restored to any second in the last 35 days.";
      cli =
          some
            "aws dynamodb update-continuous-backups --table-name <t> --point-in-time-recovery-specification PointInTimeRecoveryEnabled=true";
      terraform = none;
    };
    replaces = none;
  };
  resource_types = "aws::dynamodb::table" ∷ [];
  requires = "dynamodb:table" ∷ [];
  check = λ n _.
      when_present n "pitrEnabled" (pass_if (is_true (attribute n "pitrEnabled")) "PITR disabled");
}

abbrev pub ecr_scan_on_push : CheckRule
ecr_scan_on_push = record {
  base = record {
    id = "ecr.scan-on-push";
    version = 1;
    title = "ECR repository does not scan images on push";
    severity = Severity.medium;
    kind = "ecr-no-scan";
    controls = fsbp "ECR.1" ∷ csf "DE.CM-09" ∷ [];
    remediation = record {
      text = "Enable scan-on-push (or enhanced scanning at the registry level).";
      cli =
          some
            "aws ecr put-image-scanning-configuration --repository-name <repo> --image-scanning-configuration scanOnPush=true";
      terraform = none;
    };
    replaces = none;
  };
  resource_types = "aws::ecr::repository" ∷ [];
  requires = "ecr:repository" ∷ [];
  check = λ n _. pass_if (is_true (attribute n "scanOnPush")) "scanOnPush is false";
}

abbrev pub ecr_tag_immutability : CheckRule
ecr_tag_immutability = record {
  base = record {
    id = "ecr.tag-immutability";
    version = 1;
    title = "ECR repository allows mutable image tags";
    severity = Severity.low;
    kind = "ecr-mutable-tags";
    controls = fsbp "ECR.2" ∷ csf "PR.PS-01" ∷ [];
    remediation = record {
      text =
          "Set image tag mutability to IMMUTABLE so a deployed tag cannot be silently repointed.";
      cli =
          some
            "aws ecr put-image-tag-mutability --repository-name <repo> --image-tag-mutability IMMUTABLE";
      terraform = none;
    };
    replaces = none;
  };
  resource_types = "aws::ecr::repository" ∷ [];
  requires = "ecr:repository" ∷ [];
  check = λ n _. pass_if (is_true (attribute n "tagImmutability")) "tags are MUTABLE";
}

abbrev pub ecr_lifecycle : CheckRule
ecr_lifecycle = record {
  base = record {
    id = "ecr.lifecycle-policy";
    version = 1;
    title = "ECR repository has no lifecycle policy";
    severity = Severity.info;
    kind = "ecr-no-lifecycle";
    controls = fsbp "ECR.3" ∷ csf "PR.PS-01" ∷ [];
    remediation = record {
      text = "Add a lifecycle policy that expires untagged and old images.";
      cli =
          some
            "aws ecr put-lifecycle-policy --repository-name <repo> --lifecycle-policy-text file://lifecycle.json";
      terraform = none;
    };
    replaces = none;
  };
  resource_types = "aws::ecr::repository" ∷ [];
  requires = "ecr:repository" ∷ [];
  check = λ n _. pass_if (is_true (attribute n "lifecyclePolicy")) "no lifecycle policy";
}

abbrev pub efs_encrypted : CheckRule
efs_encrypted = record {
  base = record {
    id = "efs.file-system-encrypted";
    version = 1;
    title = "EFS file system is not encrypted at rest";
    severity = Severity.medium;
    kind = "efs-unencrypted";
    controls = fsbp "EFS.1" ∷ csf "PR.DS-01" ∷ [];
    remediation = record {
      text =
          "EFS encryption is set at creation: create an encrypted file system and migrate the data with DataSync.";
      cli = none;
      terraform = none;
    };
    replaces = none;
  };
  resource_types = "aws::efs::file-system" ∷ [];
  requires = "efs:file-system" ∷ [];
  check = λ n _. pass_if (is_true (attribute n "encrypted")) "Encrypted is false";
}
