-- ===== src/Adapters/AccessAnalyzer.antt =====
-- packages/adapters/src/feeds/accessanalyzer.ts: the findings of IAM Access Analyzer.
pub mod Known
use kumomiru.Prelude.{
  String, Bool, true, false, not, ◌&&◌, Option, none, some, List, [], ◌∷◌, ◌++◌, foldl,
  if◌then◌else◌, or_else, is_some, join, ◌+ₛ◌, ◌==◌,
}
use kumomiru.JsSet
use kumomiru.JsMap
use kumomiru.Graph.Schema.{
  Lens, Severity, Json, Attributes, CloudNode, CloudEdge, Finding, FindingSource,
}
use kumomiru.Adapters.Arn.{is_account_id, iam_account}
use kumomiru.Adapters.HashId.{hash_id}
use kumomiru.Adapters.Iam.{external_id, first_of}
use kumomiru.Adapters.Merge.{sort}
use kumomiru.Adapters.Slug.{is_alphanumeric, dashes, last}
use kumomiru.Adapters.Asff.{filled, text_entry, texts}

pub record AccessAnalyzerFinding : Type 0 where
  pub id : String
  pub resource_arn : String
  pub resource_type : String
  pub principal : Option String
  pub is_public : Bool
  pub actions : List String
  pub condition_keys : List String
  pub status : String
  pub updated_at : Option String

pub record AnalyzerMapping : Type 0 where
  pub nodes : List CloudNode
  pub edges : List CloudEdge
  pub findings : List Finding
  pub covered_resources : List String

abbrev analyzer_types : List (String × String)
analyzer_types =
    ("AWS::S3::Bucket", "aws::s3::bucket")
    ∷ ("AWS::IAM::Role", "aws::iam::role")
    ∷ ("AWS::KMS::Key", "aws::kms::key")
    ∷ ("AWS::Lambda::Function", "aws::lambda::function")
    ∷ ("AWS::SQS::Queue", "aws::sqs::queue")
    ∷ ("AWS::SNS::Topic", "aws::sns::topic")
    ∷ ("AWS::SecretsManager::Secret", "aws::secretsmanager::secret")
    ∷ ("AWS::EFS::FileSystem", "aws::efs::file-system")
    ∷ ("AWS::ECR::Repository", "aws::ecr::repository")
    ∷ ("AWS::RDS::DBSnapshot", "aws::rds::db-snapshot")
    ∷ ("AWS::RDS::DBClusterSnapshot", "aws::rds::db-snapshot")
    ∷ ("AWS::EC2::Snapshot", "aws::ec2::snapshot")
    ∷ ("AWS::DynamoDB::Table", "aws::dynamodb::table")
    ∷ []

unfoldable pub analyzer_type_to_kumomiru : String → String
unfolding JsMap.get
analyzer_type_to_kumomiru t = or_else (JsMap.get t analyzer_types) t

abbrev pub principal_of : AccessAnalyzerFinding → String
principal_of f = if f.is_public then "*" else or_else f.principal "unknown"

abbrev account_of : String → Option String
account_of principal =
    first_of (iam_account principal) (if is_account_id principal then some principal else none)

abbrev name_of : String → Option String → String
name_of principal account =
    if principal == "*"
    then "any principal (*)"
    else elim account [ some a ↦ "external-account-" +ₛ a | none ↦ principal ]

unfoldable pub principal_node : String → String → CloudNode
unfolding iam_account is_account_id
principal_node parent principal = record {
  id = external_id principal;
  type = "aws::iam::external-principal";
  name = name_of principal (account_of principal);
  account = or_else (account_of principal) "external";
  region = none;
  parent = some parent;
  tags = [];
  attributes = ("external", Json.bool true) ∷ ("principal", Json.str principal) ∷ [];
}

abbrev first_action : List String → String
first_action [] = "*"
first_action (a ∷ actions) = a

abbrev public_entry : Bool → Attributes
public_entry true = ("public", Json.bool true) ∷ []
public_entry false = []

abbrev condition_entries : List String → Attributes
condition_entries [] = []
condition_entries (c ∷ cs) =
    ("conditional", Json.bool true) ∷ ("conditions", Json.arr (texts (c ∷ cs))) ∷ []

unfoldable pub access_edge : AccessAnalyzerFinding → CloudEdge
unfolding hash_id
access_edge f =
    let source = external_id (principal_of f) in
    record {
      id = "e-access-aa-" +ₛ hash_id (source +ₛ "->" +ₛ f.resource_arn);
      source = source;
      target = f.resource_arn;
      relationship = "can-access";
      lens = Lens.iam;
      attributes =
          ("action", Json.str (first_action f.actions))
            ∷ ("actions", Json.arr (texts f.actions))
            ∷ ("external", Json.bool true)
            ∷ public_entry f.is_public
          ++ condition_entries f.condition_keys
          ++ ("source", Json.str "accessanalyzer") ∷ [];
    }

abbrev severity_of : Bool → List String → Severity
severity_of true [] = Severity.critical
severity_of true (c ∷ cs) = Severity.high
severity_of false [] = Severity.high
severity_of false (c ∷ cs) = Severity.medium

abbrev gate : List String → String
gate [] = ""
gate (c ∷ cs) = " Gated by condition(s) " +ₛ join ", " (c ∷ cs) +ₛ "."

abbrev or_access : String → String
or_access s = if s == "" then "access" else s

abbrev audience_text : AccessAnalyzerFinding → String
audience_text f = if f.is_public then "principal \"*\"" else "external principal " +ₛ principal_of f

module _ (known_node_ids : List String) where
  unfoldable pub analyzer_finding : AccessAnalyzerFinding → Finding
  unfolding dashes last JsSet.has analyzer_type_to_kumomiru
  analyzer_finding f = record {
    id = "f-aa-" +ₛ last 64 (dashes is_alphanumeric false f.id);
    severity = severity_of f.is_public f.condition_keys;
    kind = if f.is_public then "public-resource" else "external-can-access";
    node_id = if JsSet.has f.resource_arn known_node_ids then some f.resource_arn else none;
    title =
        if f.is_public
        then "Resource is publicly accessible (Access Analyzer)"
        else "External principal can access a resource (Access Analyzer)";
    detail =
        f.resource_arn
        +ₛ " allows "
        +ₛ or_access (join ", " f.actions)
        +ₛ " to "
        +ₛ audience_text f
        +ₛ "."
        +ₛ gate f.condition_keys;
    rule_id = none;
    source = some FindingSource.accessanalyzer;
    controls = none;
    remediation = none;
    resource_type = some (analyzer_type_to_kumomiru f.resource_type);
    evidence = some (("actions", Json.arr (texts f.actions)) ∷ text_entry "principal" f.principal);
    external_id = some f.id;
    observed_at = filled f.updated_at;
  }

  -- What the loop fills.
  pub record Analyzed : Type 0 where
    pub nodes : List (String × CloudNode)
    pub edges : List CloudEdge
    pub findings : List Finding
    pub covered : List String

  -- `if (f.status && f.status !== "ACTIVE") continue;`
  abbrev pub is_passed : AccessAnalyzerFinding → Bool
  is_passed f = not (f.status == "") && not (f.status == "ACTIVE")

  unfoldable pub analyze_one : String → Analyzed → AccessAnalyzerFinding → Analyzed
  unfolding principal_node access_edge analyzer_finding JsMap.set_new JsSet.add JsSet.has
  analyze_one parent acc f = if is_passed f then acc else record {
    nodes =
        JsMap.set_new (external_id (principal_of f)) (principal_node parent (principal_of f))
          acc.nodes;
    edges =
        if JsSet.has f.resource_arn known_node_ids
        then acc.edges ++ access_edge f ∷ []
        else acc.edges;
    findings = acc.findings ++ analyzer_finding f ∷ [];
    covered = JsSet.add f.resource_arn acc.covered;
  }

  unfoldable pub map_access_analyzer_findings :
      List AccessAnalyzerFinding → String → AnalyzerMapping
  unfolding analyze_one sort
  map_access_analyzer_findings raw external_parent =
      let acc =
        foldl (analyze_one external_parent)
          (record { nodes = []; edges = []; findings = []; covered = [] }) raw in
      record {
        nodes = JsMap.values acc.nodes;
        edges = acc.edges;
        findings = acc.findings;
        covered_resources = sort acc.covered;
      }
