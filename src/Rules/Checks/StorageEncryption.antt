-- ===== src/Rules/Checks/StorageEncryption.antt =====
-- packages/rules/src/checks/storage-encryption.ts: the rules on stored data and keys.
use kumomiru.Prelude.{not, ◌||◌, none, some, List, [], ◌∷◌, if◌then◌else◌}
use kumomiru.Graph.Schema.{Severity}
use kumomiru.Rules.{CheckRule, RuleOutcome}
use kumomiru.Graph.Values.{is_true, is_text}
use kumomiru.Rules.Checks.{fsbp, csf, attribute, fail_if, pass_if, when_present}

abbrev pub ebs_volume_encrypted : CheckRule
ebs_volume_encrypted = record {
  base = record {
    id = "ec2.ebs-volume-encrypted";
    version = 1;
    title = "Attached EBS volume is not encrypted";
    severity = Severity.medium;
    kind = "ebs-unencrypted";
    controls = fsbp "EC2.3" ∷ csf "PR.DS-01" ∷ [];
    remediation = record {
      text =
          "Volumes cannot be encrypted in place: snapshot it, copy the snapshot with encryption, create a new volume from the copy, and swap it in. Enable EBS default encryption so new volumes never start unencrypted.";
      cli =
          some
            "aws ec2 copy-snapshot --source-snapshot-id <snap> --source-region <region> --encrypted";
      terraform = none;
    };
    replaces = none;
  };
  resource_types = "aws::ec2::volume" ∷ [];
  requires = "ec2:volume" ∷ [];
  check = λ n _.
      if not (is_true (attribute n "attached"))
      then RuleOutcome.not_applicable
      else pass_if (is_true (attribute n "encrypted")) "attached volume is unencrypted";
}

abbrev pub ebs_snapshot_not_public : CheckRule
ebs_snapshot_not_public = record {
  base = record {
    id = "ec2.ebs-snapshot-public";
    version = 1;
    title = "EBS snapshot is publicly restorable";
    severity = Severity.critical;
    kind = "ebs-snapshot-public";
    controls = fsbp "EC2.1" ∷ csf "PR.DS-01" ∷ [];
    remediation = record {
      text =
          "Remove the 'all' group from the snapshot's createVolumePermission. Anyone with an AWS account can otherwise copy the disk.";
      cli =
          some
            "aws ec2 modify-snapshot-attribute --snapshot-id <snap> --attribute createVolumePermission --operation-type remove --group-names all";
      terraform = none;
    };
    replaces = none;
  };
  resource_types = "aws::ec2::snapshot" ∷ [];
  requires = "ec2:snapshot" ∷ [];
  check =
      λ n _. fail_if (is_true (attribute n "public")) "createVolumePermission includes group 'all'";
}

abbrev pub ebs_default_encryption : CheckRule
ebs_default_encryption = record {
  base = record {
    id = "ec2.ebs-default-encryption";
    version = 1;
    title = "EBS default encryption is off in this region";
    severity = Severity.medium;
    kind = "ebs-default-encryption-off";
    controls = fsbp "EC2.7" ∷ csf "PR.DS-01" ∷ [];
    remediation = record {
      text =
          "Enable EBS encryption by default for the region so every new volume and snapshot copy is encrypted.";
      cli = some "aws ec2 enable-ebs-encryption-by-default --region <region>";
      terraform = none;
    };
    replaces = none;
  };
  resource_types = "aws::region" ∷ [];
  requires = "account:region-settings" ∷ [];
  check = λ n _. when_present n "ebsEncryptionByDefault" (
      pass_if (is_true (attribute n "ebsEncryptionByDefault"))
        "EBS encryption by default is disabled");
}

abbrev pub vpc_flow_logs : CheckRule
vpc_flow_logs = record {
  base = record {
    id = "ec2.vpc-flow-logs";
    version = 1;
    title = "VPC has no flow logs";
    severity = Severity.medium;
    kind = "vpc-no-flow-logs";
    controls = fsbp "EC2.6" ∷ csf "DE.CM-01" ∷ [];
    remediation = record {
      text = "Create a VPC flow log (REJECT traffic at minimum) to CloudWatch Logs or S3.";
      cli =
          some
            "aws ec2 create-flow-logs --resource-type VPC --resource-ids <vpc-id> --traffic-type REJECT --log-destination-type s3 --log-destination arn:aws:s3:::<log-bucket>";
      terraform = none;
    };
    replaces = none;
  };
  resource_types = "aws::ec2::vpc" ∷ [];
  requires = "ec2:flow-log" ∷ [];
  check = λ n _.
      when_present n "flowLogsEnabled"
        (pass_if (is_true (attribute n "flowLogsEnabled")) "no flow log configured");
}

abbrev pub rds_storage_encrypted : CheckRule
rds_storage_encrypted = record {
  base = record {
    id = "rds.instance-storage-encrypted";
    version = 1;
    title = "RDS instance storage is not encrypted";
    severity = Severity.medium;
    kind = "rds-unencrypted";
    controls = fsbp "RDS.3" ∷ csf "PR.DS-01" ∷ [];
    remediation = record {
      text =
          "RDS storage encryption cannot be enabled in place: snapshot, copy the snapshot with a KMS key, restore, then cut over.";
      cli =
          some
            "aws rds copy-db-snapshot --source-db-snapshot-identifier <snap> --target-db-snapshot-identifier <snap>-enc --kms-key-id <key>";
      terraform = none;
    };
    replaces = none;
  };
  resource_types = "aws::rds::db-instance" ∷ [];
  requires = "rds:encryption" ∷ [];
  check = λ n _.
      when_present n "storageEncrypted"
        (pass_if (is_true (attribute n "storageEncrypted")) "StorageEncrypted is false");
}

abbrev pub kms_key_rotation : CheckRule
kms_key_rotation = record {
  base = record {
    id = "kms.key-rotation";
    version = 1;
    title = "Customer-managed KMS key has rotation disabled";
    severity = Severity.medium;
    kind = "kms-no-rotation";
    controls = fsbp "KMS.4" ∷ csf "PR.DS-01" ∷ [];
    remediation = record {
      text = "Enable automatic annual rotation on the key.";
      cli = some "aws kms enable-key-rotation --key-id <key-id>";
      terraform = some "enable_key_rotation = true";
    };
    replaces = none;
  };
  resource_types = "aws::kms::key" ∷ [];
  requires = "kms:key" ∷ [];
  check = λ n _.
      if not (is_text "CUSTOMER" (attribute n "manager")) || not (is_true (attribute n "enabled"))
      then RuleOutcome.not_applicable
      else when_present n "rotationEnabled"
          (pass_if (is_true (attribute n "rotationEnabled")) "automatic key rotation is disabled");
}

abbrev pub storage_encryption_rules : List CheckRule
storage_encryption_rules =
    ebs_volume_encrypted ∷ ebs_snapshot_not_public ∷ ebs_default_encryption ∷ vpc_flow_logs
    ∷ rds_storage_encrypted ∷ kms_key_rotation ∷ []
