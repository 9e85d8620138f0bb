-- ===== src/Rules.antt =====
-- packages/rules/src/types.ts: a rule. `isCheckRule` tells the two kinds apart. The capabilities of a
-- context are a set, and its `node` is the look-up by id.
pub mod Ids
pub mod Registry
pub mod Run
pub mod Compliance
pub mod Checks
pub mod Frameworks
use kumomiru.Prelude.{ℕ, String, Bool, true, false, Option, none, some, List}
use kumomiru.Graph.Schema.{Severity, Attributes, CloudNode, ControlRef, Remediation, Graph}

pub record RuleContext : Type 0 where
  pub graph : Graph
  pub capabilities : List String
  pub node : String → Option CloudNode

pub data RuleOutcome : Type 0 where
  pass not_applicable : RuleOutcome
  fail : (detail : String) (evidence : Option Attributes) (severity : Option Severity) → RuleOutcome

pub record RuleBase : Type 0 where
  pub id : String
  pub version : ℕ
  pub title : String
  pub severity : Severity
  pub kind : String
  pub controls : List ControlRef
  pub remediation : Remediation
  pub replaces : Option (List String)

pub record CheckRule : Type 0 where
  pub base : RuleBase
  pub resource_types : List String
  pub requires : List String
  pub check : CloudNode → RuleContext → RuleOutcome

pub record AdoptRule : Type 0 where
  pub base : RuleBase
  pub adopts : String

pub data Rule : Type 0 where
  checking : CheckRule → Rule
  adopting : AdoptRule → Rule

abbrev pub base_of : Rule → RuleBase
base_of (checking r) = r.base
base_of (adopting r) = r.base
