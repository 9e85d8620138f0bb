-- ===== src/Graph/Schema.antt =====
-- packages/graph/src/schema.ts: the graph that every adapter emits. An optional field is an
-- `Option`, a `Record<string, T>` is the list of its entries. `provider` is the literal "aws" and
-- has no field. A number of `unknown` JSON is an integer.
use kumomiru.Prelude.{ℕ, String, Bool, false, true, Option, none, some, List, [], ◌∷◌, ◌==◌, not}

pub data Lens : Type 0 where
  network iam dataflow : Lens

abbrev pub lenses : List Lens
lenses = Lens.network ∷ Lens.iam ∷ Lens.dataflow ∷ []

pub data Severity : Type 0 where
  info low medium high critical : Severity

abbrev pub severities : List Severity
severities = Severity.info ∷ Severity.low ∷ Severity.medium ∷ Severity.high ∷ Severity.critical ∷ []

pub data Number : Type 0 where
  pos : ℕ → Number
  negsuc : ℕ → Number

-- A value of type `unknown`.
mutual
  pub data Json : Type 0 where
    undefined null : Json
    bool : Bool → Json
    num : Number → Json
    str : String → Json
    arr : Items → Json
    obj : Members → Json

  pub data Items : Type 0 where
    nil : Items
    cons : Json → Items → Items

  pub data Members : Type 0 where
    end : Members
    member : String → Json → Members → Members

abbrev pub Attributes : Type 0
Attributes = List (String × Json)

pub record CloudNode : Type 0 where
  pub id : String
  pub type : String
  pub name : String
  pub account : String
  pub region : Option String
  pub parent : Option String
  pub tags : List (String × String)
  pub attributes : Attributes

pub record CloudEdge : Type 0 where
  pub id : String
  pub source : String
  pub target : String
  pub relationship : String
  pub lens : Lens
  pub attributes : Attributes

pub data Framework : Type 0 where
  fsbp nist_csf_2 : Framework

pub record ControlRef : Type 0 where
  pub framework : Framework
  pub id : String

pub record Remediation : Type 0 where
  pub text : String
  pub cli : Option String
  pub terraform : Option String

pub data FindingSource : Type 0 where
  native securityhub accessanalyzer drift : FindingSource

pub record Finding : Type 0 where
  pub id : String
  pub severity : Severity
  pub kind : String
  pub node_id : Option String
  pub title : String
  pub detail : String
  pub rule_id : Option String
  pub source : Option FindingSource
  pub controls : Option (List ControlRef)
  pub remediation : Option Remediation
  pub resource_type : Option String
  pub evidence : Option Attributes
  pub external_id : Option String
  pub observed_at : Option String

pub record GraphMeta : Type 0 where
  pub generated_at : String
  pub source : String
  pub account_id : Option String
  pub regions : Option (List String)
  pub snapshot_id : Option String
  pub scan_id : Option String
  pub capabilities : Option (List String)
  pub feeds : Option (List String)
  pub security_hub_controls : Option (List String)

pub record Graph : Type 0 where
  pub nodes : List CloudNode
  pub edges : List CloudEdge
  pub findings : List Finding
  pub meta : GraphMeta

-- Equality of enum values, `===`.
abbrev pub lens_eq : Lens → Lens → Bool
lens_eq Lens.network Lens.network = true
lens_eq Lens.iam Lens.iam = true
lens_eq Lens.dataflow Lens.dataflow = true
lens_eq _ _ = false

abbrev pub framework_eq : Framework → Framework → Bool
framework_eq Framework.fsbp Framework.fsbp = true
framework_eq Framework.nist_csf_2 Framework.nist_csf_2 = true
framework_eq _ _ = false

-- An optional string is truthy if it is there and not empty.
abbrev pub truthy : Option String → Bool
truthy none = false
truthy (some s) = not (s == "")

-- A finding with the fields that every producer gives, and nothing else.
abbrev pub plain_finding : String → Severity → String → Option String → String → String → Finding
plain_finding id severity kind node_id title detail = record {
  id = id;
  severity = severity;
  kind = kind;
  node_id = node_id;
  title = title;
  detail = detail;
  rule_id = none;
  source = none;
  controls = none;
  remediation = none;
  resource_type = none;
  evidence = none;
  external_id = none;
  observed_at = none;
}
