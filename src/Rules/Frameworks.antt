-- ===== src/Rules/Frameworks.antt =====
-- packages/rules/src/frameworks: the catalogues of the controls, in the order of the source.
pub mod Reported
use kumomiru.Prelude.{String, ◌+ₛ◌, ◌⊎◌, inl, inr, Option, none, some, List, [], ◌∷◌, find_first}
use kumomiru.Graph.Schema.{Framework, framework_eq}
use kumomiru.Rules.Compliance.{Control}

pub record Catalogue : Type 0 where
  pub framework : Framework
  pub name : String
  -- The revision of the catalogue.
  pub version : String
  pub controls : List Control

abbrev control : String → String → Control
control id title = record { id = id; title = title }

abbrev pub fsbp_catalogue : Catalogue
fsbp_catalogue = record {
  framework = Framework.fsbp;
  name = "AWS Foundational Security Best Practices v1.0.0";
  version = "2026-09";
  controls =
      control "EC2.13" "Security groups should not allow ingress from 0.0.0.0/0 or ::/0 to port 22"
      ∷ control "EC2.14"
          "Security groups should not allow ingress from 0.0.0.0/0 or ::/0 to port 3389"
      ∷ control "EC2.15" "EC2 subnets should not automatically assign public IP addresses"
      ∷ control "EC2.18"
          "Security groups should only allow unrestricted incoming traffic for authorized ports"
      ∷ control "EC2.19"
          "Security groups should not allow unrestricted access to ports with high risk"
      ∷ control "RDS.2"
          "RDS DB Instances should prohibit public access, as determined by the PubliclyAccessible configuration"
      ∷ control "EC2.1" "EBS snapshots should not be publicly restorable"
      ∷ control "EC2.3" "Attached EBS volumes should be encrypted at rest"
      ∷ control "EC2.6" "VPC flow logging should be enabled in all VPCs"
      ∷ control "EC2.7" "EBS default encryption should be enabled"
      ∷ control "RDS.3" "RDS DB instances should have encryption at-rest enabled"
      ∷ control "IAM.3" "IAM users' access keys should be rotated every 90 days or less"
      ∷ control "IAM.4" "IAM root user access key should not exist"
      ∷ control "IAM.5" "MFA should be enabled for all IAM users that have a console password"
      ∷ control "IAM.7" "Password policies for IAM users should have strong configurations"
      ∷ control "IAM.8" "Unused IAM user credentials should be removed"
      ∷ control "IAM.9" "MFA should be enabled for the root user"
      ∷ control "S3.1" "S3 general purpose buckets should have block public access settings enabled"
      ∷ control "S3.2" "S3 general purpose buckets should block public read access"
      ∷ control "S3.5" "S3 general purpose buckets should require requests to use SSL"
      ∷ control "S3.8" "S3 general purpose buckets should block public access"
      ∷ control "S3.9" "S3 general purpose buckets should have server access logging enabled"
      ∷ control "KMS.4" "AWS KMS key rotation should be enabled"
      ∷ control "CloudTrail.1"
          "CloudTrail should be enabled and configured with at least one multi-Region trail that includes read and write management events"
      ∷ control "CloudTrail.2" "CloudTrail should have encryption at-rest enabled"
      ∷ control "CloudTrail.4" "CloudTrail log file validation should be enabled"
      ∷ control "Config.1"
          "AWS Config should be enabled and use the service-linked role for resource recording"
      ∷ control "GuardDuty.1" "GuardDuty should be enabled"
      ∷ control "Lambda.1" "Lambda function policies should prohibit public access"
      ∷ control "SecretsManager.1" "Secrets Manager secrets should have automatic rotation enabled"
      ∷ control "EC2.2" "VPC default security groups should not allow inbound or outbound traffic"
      ∷ control "EC2.8" "EC2 instances should use Instance Metadata Service Version 2 (IMDSv2)"
      ∷ control "EC2.21"
          "Network ACLs should not allow ingress from 0.0.0.0/0 to port 22 or port 3389"
      ∷ control "AutoScaling.3"
          "Auto Scaling group launch configurations should configure EC2 instances to require Instance Metadata Service Version 2 (IMDSv2)"
      ∷ control "ELB.1"
          "Application Load Balancer should be configured to redirect all HTTP requests to HTTPS"
      ∷ control "ELB.5" "Application and Classic Load Balancers logging should be enabled"
      ∷ control "ECS.2"
          "ECS services should not have public IP addresses assigned to them automatically"
      ∷ control "EKS.1" "EKS cluster endpoints should not be publicly accessible"
      ∷ control "EKS.8" "EKS clusters should have audit logging enabled"
      ∷ control "SQS.1" "Amazon SQS queues should be encrypted at rest"
      ∷ control "SNS.1" "SNS topics should be encrypted at-rest using AWS KMS"
      ∷ control "DynamoDB.2" "DynamoDB tables should have point-in-time recovery enabled"
      ∷ control "ECR.1" "ECR private repositories should have image scanning configured"
      ∷ control "ECR.2" "ECR private repositories should have tag immutability configured"
      ∷ control "ECR.3" "ECR repositories should have at least one lifecycle policy configured"
      ∷ control "EFS.1"
          "Elastic File System should be configured to encrypt file data at-rest using AWS KMS"
      ∷ control "CloudFront.3" "CloudFront distributions should require encryption in transit"
      ∷ control "CloudFront.5" "CloudFront distributions should have logging enabled"
      ∷ control "APIGateway.1"
          "API Gateway REST and WebSocket API execution logging should be enabled"
      ∷ control "RDS.1" "RDS snapshot should be private"
      ∷ control "RDS.27" "RDS DB clusters should be encrypted at rest"
      ∷ control "IAM.6" "Hardware MFA should be enabled for the root user"
      ∷ control "ECS.8" "Secrets should not be passed as container environment variables"
      ∷ [];
}

abbrev pub nist_csf_2_catalogue : Catalogue
nist_csf_2_catalogue = record {
  framework = Framework.nist_csf_2;
  name = "NIST Cybersecurity Framework 2.0";
  version = "2026-09";
  controls =
      control "ID.AM-01" "Inventories of hardware managed by the organization are maintained"
      ∷ control "ID.AM-02"
          "Inventories of software, services, and systems managed by the organization are maintained"
      ∷ control "PR.AA-01"
          "Identities and credentials for authorized users, services, and hardware are managed by the organization"
      ∷ control "PR.AA-05"
          "Access permissions, entitlements, and authorizations are defined in a policy, managed, enforced, and reviewed, and incorporate the principles of least privilege and separation of duties"
      ∷ control "PR.DS-01"
          "The confidentiality, integrity, and availability of data-at-rest are protected"
      ∷ control "PR.DS-02"
          "The confidentiality, integrity, and availability of data-in-transit are protected"
      ∷ control "PR.IR-01"
          "Networks and environments are protected from unauthorized logical access and usage"
      ∷ control "DE.CM-01"
          "Networks and network services are monitored to find potentially adverse events"
      ∷ control "DE.CM-09"
          "Computing hardware and software, runtime environments, and their data are monitored to find potentially adverse events"
      ∷ control "PR.PS-01" "Configuration management practices are established and applied"
      ∷ [];
}

abbrev pub catalogues : List Catalogue
catalogues = fsbp_catalogue ∷ nist_csf_2_catalogue ∷ []

abbrev framework_text : Framework → String
framework_text Framework.fsbp = "fsbp"
framework_text Framework.nist_csf_2 = "nist-csf-2"

-- An `Error` is `inr`.
unfoldable pub catalogue : Framework → Catalogue ⊎ String
unfolding find_first
catalogue f = elim (find_first (λ c. framework_eq c.framework f) catalogues) [
  | some c ↦ inl c
  | none ↦ inr ("unknown framework: " +ₛ framework_text f)
]
