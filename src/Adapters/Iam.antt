-- ===== src/Adapters/Iam.antt =====
-- packages/adapters/src/analysis/iam.ts: who can assume which role.
pub mod Laws
pub mod Complete
use Prim.Native.Char.{code, Char}
use kumomiru.Prelude.{
  ◌+ₛ◌, ℕ, String, Bool, true, false, not, ◌&&◌, ◌||◌, Option, none, some, List, [], ◌∷◌, ◌++◌, map,
  foldl, keep_if, any, if◌then◌else◌, or_else, is_some, nat_eq, leb, length, join, ◌==◌,
}
use kumomiru.JsSet
use kumomiru.JsMap
use kumomiru.Graph.Schema.{
  Lens, Severity, Json, Items, Attributes, CloudNode, CloudEdge, Finding, plain_finding,
}
use kumomiru.Glob.{codes}
use kumomiru.Adapters.Arn.{is_account_id, account_root, extract_account}
use kumomiru.Adapters.HashId.{hash_id}
use kumomiru.Adapters.Policy
use kumomiru.Adapters.Policy.{PolicyStatement, Effect, Decision, EvalResult}

abbrev pub assume_action : String
assume_action = "sts:AssumeRole"

pub record AssumeTrustEntry : Type 0 where
  pub principal_value : String
  pub type : String
  pub effect : Option Effect
  pub condition_keys : Option (List String)

pub data PrincipalKind : Type 0 where
  role user : PrincipalKind

pub record AnalyzedPrincipal : Type 0 where
  pub id : String
  pub account : String
  pub kind : PrincipalKind
  pub identity : List PolicyStatement
  pub trust : Option (List AssumeTrustEntry)

-- `a ?? b`
abbrev pub first_of {ℓ} : {A : Type ℓ} → Option A → Option A → Option A
first_of none b = b
first_of (some a) b = some a

abbrev pub named_account : String → Option String
named_account value = first_of (account_root value) (extract_account value)

unfoldable pub is_external_principal : String → String → Bool
unfolding account_root extract_account is_account_id
is_external_principal value self_account = value == "*" || elim (named_account value) [
  | some account ↦ not (account == self_account)
  | none ↦ if is_account_id value then not (value == self_account) else true
]

unfoldable pub trust_names : String → AnalyzedPrincipal → Bool
unfolding account_root is_account_id Policy.glob_test
trust_names value principal = elim (account_root value) [
  | some account ↦ account == principal.account
  | none ↦
      if is_account_id value
      then value == principal.account
      else Policy.glob_test value principal.id
]

abbrev texts : List String → Items
texts [] = Items.nil
texts (x ∷ xs) = Items.cons (Json.str x) (texts xs)

-- `conditionAttrs`, spread at the end of the attributes.
unfoldable pub condition_attrs : List String → Attributes
condition_attrs [] = []
condition_attrs (c ∷ cs) =
    ("conditional", Json.bool true) ∷ ("conditions", Json.arr (texts (c ∷ cs))) ∷ []

pub record Found : Type 0 where
  pub nodes : List (String × CloudNode)
  pub edges : List (String × CloudEdge)
  pub findings : List (String × Finding)

abbrev pub external_id : String → String
external_id value = "aws::iam::external-principal::" +ₛ value

abbrev external_name : String → Option String → String
external_name value account =
    if value == "*"
    then "any principal (*)"
    else elim account [ some a ↦ "external-account-" +ₛ a | none ↦ value ]

unfoldable pub external_node : String → String → CloudNode
unfolding account_root extract_account
external_node value parent = record {
  id = external_id value;
  type = "aws::iam::external-principal";
  name = external_name value (named_account value);
  account = or_else (named_account value) "external";
  region = none;
  parent = some parent;
  tags = [];
  attributes = ("external", Json.bool true) ∷ ("principal", Json.str value) ∷ [];
}

abbrev pub assume_id : String → String → String
assume_id source target = "e-assume-" +ₛ hash_id (source +ₛ "->" +ₛ target)

abbrev pub assume_edge : String → String → Attributes → CloudEdge
assume_edge source target attributes = record {
  id = assume_id source target;
  source = source;
  target = target;
  relationship = "can-assume";
  lens = Lens.iam;
  attributes = attributes;
}

unfoldable pub add_edge :
    String → String → Attributes → List (String × CloudEdge) → List (String × CloudEdge)
add_edge source target attributes edges =
    JsMap.set_new (assume_id source target) (assume_edge source target attributes) edges

abbrev gate : List String → String
gate [] =
    "There is no condition (e.g. sts:ExternalId or MFA), so any principal in that party can assume it."
gate (c ∷ cs) =
    "It is gated by condition(s): " +ₛ join ", " (c ∷ cs) +ₛ " — verify they are sufficient."

abbrev severity_of : List String → Severity
severity_of [] = Severity.critical
severity_of (c ∷ cs) = Severity.high

unfoldable pub external_finding : String → String → List String → Finding
external_finding role_id principal conds =
    plain_finding ("f-extassume-" +ₛ hash_id (principal +ₛ "->" +ₛ role_id)) (severity_of conds)
      "external-can-assume" (some role_id) "External principal can assume a role"
      ("Role " +ₛ role_id +ₛ " trusts external principal " +ₛ principal +ₛ ". " +ₛ gate conds)

-- A later finding of the same id takes the place of the earlier.
unfoldable pub add_finding : Finding → List (String × Finding) → List (String × Finding)
add_finding f findings = JsMap.set f.id f findings

abbrev external_attrs : List String → Attributes
external_attrs conds =
    ("external", Json.bool true)
    ∷ ("trustConfirmed", Json.bool true)
    ∷ ("identityUnverified", Json.bool true)
    ∷ condition_attrs conds

abbrev internal_attrs : List String → Attributes
internal_attrs conds =
    ("external", Json.bool false)
    ∷ ("trustConfirmed", Json.bool true)
    ∷ ("identityConfirmed", Json.bool true)
    ∷ condition_attrs conds

abbrev pub is_allow : Decision → Bool
is_allow Decision.allow = true
is_allow _ = false

abbrev pub trust_conditions : AssumeTrustEntry → List String
trust_conditions entry = or_else entry.condition_keys []

-- The two tests of the innermost loop that come before the evaluator.
abbrev pub is_named : AnalyzedPrincipal → AssumeTrustEntry → AnalyzedPrincipal → Bool
is_named r entry src = not (src.id == r.id) && trust_names entry.principal_value src

-- The innermost loop, over the principals.
unfoldable pub visit_source :
    AnalyzedPrincipal → AssumeTrustEntry → Found → AnalyzedPrincipal → Found
unfolding trust_names add_edge condition_attrs JsSet.of_list
visit_source r entry found src =
    let ev = Policy.evaluate src.identity assume_action r.id in
    if is_named r entry src && is_allow ev.decision
    then record found {
      edges =
          add_edge src.id r.id
            (internal_attrs (JsSet.of_list (trust_conditions entry ++ ev.condition_keys)))
            found.edges;
    }
    else found

abbrev pub grants_nothing : AssumeTrustEntry → Bool
grants_nothing entry =
    entry.type == "service" || elim entry.effect [ some Effect.refuse ↦ true | _ ↦ false ]

abbrev visit_external : String → AnalyzedPrincipal → AssumeTrustEntry → Found → Found
visit_external parent r entry found = record {
  nodes =
      JsMap.set_new (external_id entry.principal_value) (external_node entry.principal_value parent)
        found.nodes;
  edges =
      add_edge (external_id entry.principal_value) r.id (external_attrs (trust_conditions entry))
        found.edges;
  findings =
      add_finding (external_finding r.id entry.principal_value (trust_conditions entry))
        found.findings;
}

module _ (principals : List AnalyzedPrincipal) (self_account parent : String) where
  -- The loop over the trust entries of a role.
  unfoldable pub visit_entry : AnalyzedPrincipal → Found → AssumeTrustEntry → Found
  unfolding is_external_principal visit_source external_node add_edge add_finding external_finding
  visit_entry r found entry =
      if grants_nothing entry
      then found
      else if is_external_principal entry.principal_value self_account
      then visit_external parent r entry found
      else foldl (visit_source r entry) found principals

  -- The outer loop, over the principals that have a trust policy.
  unfoldable pub visit_role : Found → AnalyzedPrincipal → Found
  unfolding visit_entry
  visit_role found r = foldl (visit_entry r) found (or_else r.trust [])

  unfoldable pub analyze : Found
  unfolding visit_role
  analyze =
      foldl visit_role (record { nodes = []; edges = []; findings = [] })
        (keep_if (λ p. is_some p.trust) principals)

pub record IamAnalysisResult : Type 0 where
  pub nodes : List CloudNode
  pub edges : List CloudEdge
  pub findings : List Finding

unfoldable pub analyze_assume_role : List AnalyzedPrincipal → String → String → IamAnalysisResult
unfolding analyze
analyze_assume_role principals self_account external_parent =
    let found = analyze principals self_account external_parent in
    record {
      nodes = JsMap.values found.nodes;
      edges = JsMap.values found.edges;
      findings = JsMap.values found.findings;
    }
