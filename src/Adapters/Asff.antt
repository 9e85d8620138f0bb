-- ===== src/Adapters/Asff.antt =====
-- packages/adapters/src/feeds/asff.ts: the findings of Security Hub. The argument `lower` stands for
-- `toLowerCase`. A label and a type of AWS is none of the names that every object inherits.
pub mod Mapped
use kumomiru.Prelude.{
  String, Bool, true, false, not, ◌&&◌, ◌||◌, Option, none, some, List, [], ◌∷◌, ◌++◌, foldl,
  find_first, if◌then◌else◌, or_else, is_some, join, ◌+ₛ◌, ◌==◌,
}
use kumomiru.JsSet
use kumomiru.JsMap
use kumomiru.Graph.Schema.{
  Severity, Framework, Json, Items, Attributes, Finding, FindingSource, ControlRef, Remediation,
}
use kumomiru.Adapters.Merge.{sort}
use kumomiru.Adapters.Slug.{is_lower_or_digit, is_alphanumeric, dashes, last}

pub record AsffFinding : Type 0 where
  pub id : String
  pub product_name : Option String
  pub generator_id : Option String
  pub title : String
  pub description : Option String
  pub severity_label : Option String
  pub compliance_status : Option String
  pub security_control_id : Option String
  pub resource_ids : List String
  pub resource_types : List String
  pub workflow_status : Option String
  pub updated_at : Option String
  pub remediation_text : Option String
  pub remediation_url : Option String

pub record AsffMapping : Type 0 where
  pub findings : List Finding
  pub covered_controls : List String

-- A text that is there and not empty.
abbrev pub filled : Option String → Option String
filled none = none
filled (some s) = if s == "" then none else some s

-- `.filter(Boolean)` of one text.
abbrev pub present : Option String → List String
present o = elim (filled o) [ none ↦ [] | some s ↦ s ∷ [] ]

-- `...(v ? { key: v } : {})`
abbrev pub text_entry : String → Option String → Attributes
text_entry key o = elim (filled o) [ none ↦ [] | some s ↦ (key, Json.str s) ∷ [] ]

abbrev pub texts : List String → Items
texts [] = Items.nil
texts (s ∷ ss) = Items.cons (Json.str s) (texts ss)

abbrev pub first_type : List String → Option String
first_type [] = none
first_type (t ∷ ts) = filled (some t)

abbrev severities : List (String × Severity)
severities =
    ("INFORMATIONAL", Severity.info)
    ∷ ("LOW", Severity.low)
    ∷ ("MEDIUM", Severity.medium)
    ∷ ("HIGH", Severity.high)
    ∷ ("CRITICAL", Severity.critical)
    ∷ []

abbrev asff_types : List (String × String)
asff_types =
    ("AwsS3Bucket", "aws::s3::bucket")
    ∷ ("AwsEc2Instance", "aws::ec2::instance")
    ∷ ("AwsEc2SecurityGroup", "aws::ec2::security-group")
    ∷ ("AwsEc2Vpc", "aws::ec2::vpc")
    ∷ ("AwsEc2Subnet", "aws::ec2::subnet")
    ∷ ("AwsEc2Volume", "aws::ec2::volume")
    ∷ ("AwsRdsDbInstance", "aws::rds::db-instance")
    ∷ ("AwsRdsDbCluster", "aws::rds::db-cluster")
    ∷ ("AwsRdsDbSnapshot", "aws::rds::db-snapshot")
    ∷ ("AwsLambdaFunction", "aws::lambda::function")
    ∷ ("AwsIamRole", "aws::iam::role")
    ∷ ("AwsIamUser", "aws::iam::user")
    ∷ ("AwsKmsKey", "aws::kms::key")
    ∷ ("AwsCloudTrailTrail", "aws::cloudtrail::trail")
    ∷ ("AwsSecretsManagerSecret", "aws::secretsmanager::secret")
    ∷ ("AwsSqsQueue", "aws::sqs::queue")
    ∷ ("AwsSnsTopic", "aws::sns::topic")
    ∷ ("AwsDynamoDbTable", "aws::dynamodb::table")
    ∷ ("AwsEcrRepository", "aws::ecr::repository")
    ∷ ("AwsEcsCluster", "aws::ecs::cluster")
    ∷ ("AwsEcsService", "aws::ecs::service")
    ∷ ("AwsEcsTaskDefinition", "aws::ecs::task-definition")
    ∷ ("AwsEksCluster", "aws::eks::cluster")
    ∷ ("AwsElbv2LoadBalancer", "aws::elbv2::load-balancer")
    ∷ ("AwsEfsFileSystem", "aws::efs::file-system")
    ∷ ("AwsCloudFrontDistribution", "aws::cloudfront::distribution")
    ∷ ("AwsApiGatewayRestApi", "aws::apigateway::rest-api")
    ∷ ("AwsAutoScalingAutoScalingGroup", "aws::autoscaling::group")
    ∷ ("AwsEc2LaunchTemplate", "aws::ec2::launch-template")
    ∷ ("AwsEc2NetworkAcl", "aws::ec2::network-acl")
    ∷ ("AwsAccount", "aws::account")
    ∷ []

unfoldable pub asff_type_to_kumomiru : String → String
unfolding JsMap.get
asff_type_to_kumomiru t = or_else (JsMap.get t asff_types) ("asff::" +ₛ t)

abbrev is_one_of : String → String → Option String → Bool
is_one_of a b none = false
is_one_of a b (some s) = s == a || s == b

-- Neither `continue` is reached.
unfoldable pub is_mapped : AsffFinding → Bool
is_mapped f =
    if is_some (filled f.security_control_id)
    then is_one_of "FAILED" "WARNING" f.compliance_status
    else not (is_some (filled f.workflow_status)) || is_one_of "NEW" "NOTIFIED" f.workflow_status

abbrev worded : List String → String → String
worded [] title = title
worded (t ∷ ts) title = join " " (t ∷ ts)

abbrev remediation_of : List String → Option Remediation
remediation_of [] = none
remediation_of (t ∷ ts) = some (record { text = join " " (t ∷ ts); cli = none; terraform = none })

-- The control, or the product, of a finding: its kind, its rule and its controls.
abbrev kind_of : (String → String) → Option String → String → String
kind_of lower none product = "securityhub-" +ₛ product
kind_of lower (some control) product = "securityhub-" +ₛ lower control

abbrev rule_of : Option String → String → String
rule_of none product = "securityhub." +ₛ product
rule_of (some control) product = "securityhub." +ₛ control

abbrev pub controls_of : Option String → List ControlRef
controls_of none = []
controls_of (some control) = record { framework = Framework.fsbp; id = control } ∷ []

module _ (lower : String → String) (known_node_ids : List String) where
  unfoldable pub product_of : AsffFinding → String
  unfolding dashes
  product_of f = dashes is_lower_or_digit false (lower (or_else f.product_name "securityhub"))

  unfoldable pub mapped_finding : AsffFinding → Finding
  unfolding product_of dashes last JsMap.get JsSet.has find_first asff_type_to_kumomiru
  mapped_finding f =
      let control = filled f.security_control_id in
      record {
        id = "f-sh-" +ₛ last 64 (dashes is_alphanumeric false f.id);
        severity = or_else (JsMap.get (or_else f.severity_label "") severities) Severity.medium;
        kind = kind_of lower control (product_of f);
        node_id = filled (find_first (λ r. JsSet.has r known_node_ids) f.resource_ids);
        title = f.title;
        detail = worded (present f.description ++ present f.remediation_text) f.title;
        rule_id = some (rule_of control (product_of f));
        source = some FindingSource.securityhub;
        controls = some (controls_of control);
        remediation = remediation_of (present f.remediation_text ++ present f.remediation_url);
        resource_type = elim (first_type f.resource_types) [
          | none ↦ none
          | some t ↦ some (asff_type_to_kumomiru t)
        ];
        evidence = some (
            ("resourceIds", Json.arr (texts f.resource_ids))
              ∷ text_entry "complianceStatus" f.compliance_status
            ++ text_entry "workflowStatus" f.workflow_status
            ++ text_entry "generatorId" f.generator_id);
        external_id = some f.id;
        observed_at = filled f.updated_at;
      }

  -- The body of the loop, on the findings and the set of the covered controls.
  unfoldable pub map_one : List Finding × List String → AsffFinding → List Finding × List String
  unfolding mapped_finding is_mapped JsSet.add
  map_one acc f = (
    if is_mapped f then acc.0 ++ mapped_finding f ∷ [] else acc.0,
    elim (filled f.security_control_id) [ none ↦ acc.1 | some c ↦ JsSet.add c acc.1 ],
  )

  unfoldable pub map_asff_findings : List AsffFinding → AsffMapping
  unfolding map_one sort
  map_asff_findings raw =
      let (findings, covered) = foldl map_one ([], []) raw in
      record { findings = findings; covered_controls = sort covered }
