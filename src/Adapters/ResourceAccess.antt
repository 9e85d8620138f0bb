-- ===== src/Adapters/ResourceAccess.antt =====
-- packages/adapters/src/analysis/resourceAccess.ts: who can reach a resource by its own policy.
pub mod Laws
pub mod Sound
pub mod Reports
use kumomiru.Prelude.{
  String, Bool, true, false, not, ◌&&◌, ◌||◌, Option, none, some, List, [], ◌∷◌, ◌++◌, map, foldl,
  any, find_first, if◌then◌else◌, or_else, is_some, join, ◌+ₛ◌, ◌==◌,
}
use kumomiru.JsSet
use kumomiru.JsMap
use kumomiru.JsMap.Index
use kumomiru.Graph.Schema.{
  Lens, Severity, Json, Attributes, CloudNode, CloudEdge, Finding, plain_finding,
}
use kumomiru.Adapters.Arn.{is_account_id, account_root, extract_account}
use kumomiru.Adapters.HashId.{hash_id}
use kumomiru.Adapters.Policy
use kumomiru.Adapters.Policy.{
  PolicyStatement, PolicyPrincipal, PrincipalType, Effect, EvalResult, glob_test, action_matches,
  statement_covers_resource,
}
use kumomiru.Adapters.Iam.{
  AnalyzedPrincipal, Found, first_of, external_id, condition_attrs, is_allow,
}

pub record AccessResource : Type 0 where
  pub id : String
  pub type : String
  pub account : String
  pub statements : List PolicyStatement
  pub actions : List String
  pub resource_aliases : Option (List String)

-- The ids that a policy may name the resource by.
abbrev pub targets : AccessResource → List String
targets res = res.id ∷ or_else res.resource_aliases []

abbrev pub permits : PolicyStatement → Bool
permits stmt = elim stmt.effect [ Effect.permit ↦ true | Effect.refuse ↦ false ]

unfoldable pub granted_action : AccessResource → PolicyStatement → Option String
unfolding find_first any action_matches statement_covers_resource
granted_action res stmt =
    find_first
      (λ a. action_matches stmt a && any (λ t. statement_covers_resource stmt t) (targets res))
      res.actions

-- What the tests of the innermost loop make of a principal.
pub data Audience : Type 0 where
  skipped everyone outside delegated direct : Audience

abbrev is_service : PrincipalType → Bool
is_service t = elim t [ PrincipalType.service ↦ true | _ ↦ false ]

abbrev is_anyone : PrincipalType → Bool
is_anyone t = elim t [ PrincipalType.anyone ↦ true | _ ↦ false ]

abbrev is_foreign_type : PrincipalType → Bool
is_foreign_type t = elim t [
  | PrincipalType.federated ↦ true
  | PrincipalType.canonical_user ↦ true
  | _ ↦ false
]

-- `(acct && acct !== selfAccount) || (!acct && !/^\d{12}$/.test(p.value))`
unfoldable pub is_foreign : String → String → Bool
unfolding extract_account is_account_id
is_foreign self_account value = elim (extract_account value) [
  | some account ↦ not (account == self_account)
  | none ↦ not (is_account_id value)
]

unfoldable pub audience : String → PolicyPrincipal → Audience
unfolding is_foreign is_account_id account_root
audience self_account p =
    if is_service p.type
    then skipped
    else if is_anyone p.type || p.value == "*" || p.negated
    then everyone
    else if is_foreign_type p.type || is_foreign self_account p.value
    then outside
    else if is_account_id p.value && not (p.value == self_account)
    then outside
    else if is_some (account_root p.value) || is_account_id p.value
    then delegated
    else direct

abbrev account_name : String → Option String
account_name value =
    first_of (account_root value)
      (first_of (extract_account value) (if is_account_id value then some value else none))

abbrev principal_name : String → Option String → String
principal_name value account =
    if value == "*"
    then "any principal (*)"
    else elim account [ some a ↦ "external-account-" +ₛ a | none ↦ value ]

unfoldable pub external_principal : String → String → CloudNode
unfolding account_root extract_account is_account_id
external_principal value parent = record {
  id = external_id value;
  type = "aws::iam::external-principal";
  name = principal_name value (account_name value);
  account = or_else (account_name value) "external";
  region = none;
  parent = some parent;
  tags = [];
  attributes = ("external", Json.bool true) ∷ ("principal", Json.str value) ∷ [];
}

abbrev pub access_id : String → String → String
access_id source target = "e-access-" +ₛ hash_id (source +ₛ "->" +ₛ target)

unfoldable pub access_edge : String → String → String → Attributes → CloudEdge
unfolding hash_id
access_edge source target action attributes = record {
  id = access_id source target;
  source = source;
  target = target;
  relationship = "can-access";
  lens = Lens.iam;
  attributes = ("action", Json.str action) ∷ attributes;
}

unfoldable pub add_access :
    String → String → String → Attributes → List (String × CloudEdge) → List (String × CloudEdge)
unfolding JsMap.set_new access_edge hash_id
add_access source target action attributes =
    JsMap.set_new (access_id source target) (access_edge source target action attributes)

abbrev pub public_id : String → String
public_id resource = "f-pubres-" +ₛ hash_id resource

abbrev public_gate : List String → String
public_gate [] = " There is no condition, so anyone on the internet can perform it."
public_gate (c ∷ cs) =
    " The grant is gated by condition(s) "
    +ₛ join ", " (c ∷ cs)
    +ₛ "; verify they actually restrict the audience."

abbrev severity_of : Severity → Severity → List String → Severity
severity_of worst gated [] = worst
severity_of worst gated (c ∷ cs) = gated

unfoldable pub public_finding : String → String → List String → Finding
unfolding hash_id
public_finding resource action conds =
    plain_finding (public_id resource) (severity_of Severity.critical Severity.high conds)
      "public-resource" (some resource) "Resource policy grants access to everyone"
      (resource +ₛ " allows " +ₛ action +ₛ " to principal \"*\"." +ₛ public_gate conds)

abbrev pub outside_id : String → String → String
outside_id principal resource = "f-extaccess-" +ₛ hash_id (principal +ₛ "->" +ₛ resource)

abbrev outside_gate : List String → String
outside_gate [] = " There is no condition."
outside_gate (c ∷ cs) = " Gated by condition(s) " +ₛ join ", " (c ∷ cs) +ₛ "."

unfoldable pub outside_finding : String → String → String → List String → Finding
unfolding hash_id
outside_finding resource principal action conds =
    plain_finding (outside_id principal resource) (severity_of Severity.high Severity.medium conds)
      "external-can-access" (some resource) "External principal can access a resource"
      (resource
        +ₛ " allows "
        +ₛ action
        +ₛ " to external principal "
        +ₛ principal
        +ₛ "."
        +ₛ outside_gate conds)

-- The first allowing evaluation, on the resource itself and then on its aliases.
unfoldable pub allowing : AnalyzedPrincipal → String → AccessResource → Option EvalResult
unfolding find_first Policy.evaluate
allowing pr action res =
    find_first (λ e. is_allow e.decision)
      (map (λ t. Policy.evaluate pr.identity action t) (targets res))

-- `byId.get(p.value) ?? [...byId.values()].find((pr) => globEquals(p.value, pr.id))`
unfoldable pub named_principal : String → List AnalyzedPrincipal → Option AnalyzedPrincipal
unfolding JsMap.get Index.index find_first glob_test
named_principal value principals =
    let by_id = Index.index (λ p. p.id) principals in
    first_of (JsMap.get value by_id) (find_first (λ pr. glob_test value pr.id) (JsMap.values by_id))

-- A grant: the resource, the action and the condition keys of the statement.
module _ (res : AccessResource) (action : String) (conds : List String) where
  unfoldable pub visit_everyone : String → Found → Found
  unfolding add_access external_principal condition_attrs public_finding JsMap.set_new hash_id
  visit_everyone parent found = record {
    nodes = JsMap.set_new (external_id "*") (external_principal "*" parent) found.nodes;
    edges =
        add_access (external_id "*") res.id action
          (("public", Json.bool true) ∷ ("external", Json.bool true) ∷ condition_attrs conds)
          found.edges;
    findings = JsMap.set_new (public_id res.id) (public_finding res.id action conds) found.findings;
  }

  unfoldable pub visit_outside : String → String → Found → Found
  unfolding add_access external_principal condition_attrs outside_finding JsMap.set_new hash_id
  visit_outside parent value found = record {
    nodes = JsMap.set_new (external_id value) (external_principal value parent) found.nodes;
    edges =
        add_access (external_id value) res.id action
          (("external", Json.bool true) ∷ condition_attrs conds) found.edges;
    findings =
        JsMap.set_new (outside_id value res.id) (outside_finding res.id value action conds)
          found.findings;
  }

  unfoldable pub visit_delegate : Found → AnalyzedPrincipal → Found
  unfolding allowing add_access condition_attrs JsSet.of_list
  visit_delegate found pr = elim (allowing pr action res) [
    | none ↦ found
    | some hit ↦ record found {
      edges =
          add_access pr.id res.id action
            (("external", Json.bool false)
              ∷ ("via", Json.str "identity+resource")
              ∷ condition_attrs (JsSet.of_list (conds ++ hit.condition_keys)))
            found.edges;
    }
  ]

  unfoldable pub visit_direct : List AnalyzedPrincipal → String → Found → Found
  unfolding named_principal add_access condition_attrs
  visit_direct principals value found = elim (named_principal value principals) [
    | none ↦ found
    | some pr ↦ record found {
      edges =
          add_access pr.id res.id action
            (("external", Json.bool false) ∷ ("via", Json.str "resource") ∷ condition_attrs conds)
            found.edges;
    }
  ]

module _ (principals : List AnalyzedPrincipal) (self_account parent : String) where
  unfoldable pub visit_audience :
      AccessResource → String → List String → Audience → String → Found → Found
  unfolding visit_everyone visit_outside visit_delegate visit_direct
  visit_audience res action conds skipped value found = found
  visit_audience res action conds everyone value found =
      visit_everyone res action conds parent found
  visit_audience res action conds outside value found =
      visit_outside res action conds parent value found
  visit_audience res action conds delegated value found =
      foldl (visit_delegate res action conds) found principals
  visit_audience res action conds direct value found =
      visit_direct res action conds principals value found

  -- The loop over the principals of a statement.
  unfoldable pub visit_granted : AccessResource → PolicyStatement → Option String → Found → Found
  unfolding visit_audience audience
  visit_granted res stmt none found = found
  visit_granted res stmt (some action) found =
      if action == ""
      then found
      else foldl
          (λ f p.
            visit_audience res action (or_else stmt.condition_keys []) (audience self_account p)
              p.value f)
          found (or_else stmt.principals [])

  unfoldable pub visit_statement : AccessResource → Found → PolicyStatement → Found
  unfolding visit_granted granted_action
  visit_statement res found stmt =
      if not (permits stmt) || not (is_some stmt.principals)
      then found
      else visit_granted res stmt (granted_action res stmt) found

  unfoldable pub visit_resource : Found → AccessResource → Found
  unfolding visit_statement
  visit_resource found res = foldl (visit_statement res) found res.statements

pub record ResourceAccessResult : Type 0 where
  pub nodes : List CloudNode
  pub edges : List CloudEdge
  pub findings : List Finding

unfoldable pub analyze_access :
    List AnalyzedPrincipal → List AccessResource → String → String → Found
unfolding visit_resource
analyze_access principals resources self_account parent =
    foldl (visit_resource principals self_account parent)
      (record { nodes = []; edges = []; findings = [] }) resources

unfoldable pub analyze_resource_access :
    List AnalyzedPrincipal → List AccessResource → String → String → ResourceAccessResult
unfolding analyze_access
analyze_resource_access principals resources self_account external_parent =
    let found = analyze_access principals resources self_account external_parent in
    record {
      nodes = JsMap.values found.nodes;
      edges = JsMap.values found.edges;
      findings = JsMap.values found.findings;
    }
