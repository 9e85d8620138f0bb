-- ===== src/Graph/Redact.antt =====
-- packages/graph/src/redact.ts: an export that keeps the topology and drops the values.
pub mod Laws
use kumomiru.Prelude.{
  String, Bool, true, false, ◌&&◌, ◌||◌, Option, none, some, List, [], ◌∷◌, map, if◌then◌else◌,
  ◌==◌,
}
use kumomiru.JsSet
use kumomiru.Graph.Schema.{
  Json, Items, Members, Attributes, CloudNode, Finding, Graph, undefined, null, bool, num, str, arr,
  obj, nil, cons, end, member,
}
use kumomiru.Graph.Json.{member_of, set_member, spread}

abbrev pub safe_string_attr_keys : List String
safe_string_attr_keys =
    "engine" ∷ "runtime" ∷ "instanceType" ∷ "status" ∷ "protocol" ∷ "trustedService" ∷ "principal"
    ∷ []

abbrev pub safe_array_attr_keys : List String
safe_array_attr_keys = "managedPolicies" ∷ "actions" ∷ "conditions" ∷ []

abbrev pub public_cidrs : List String
public_cidrs = "0.0.0.0/0" ∷ "::/0" ∷ []

abbrev is_true : Json → Bool
is_true (bool b) = b
is_true _ = false

unfoldable pub is_secret_marker : Json → Bool
is_secret_marker (obj ms) = is_true (member_of "secretPresent" ms)
is_secret_marker _ = false

abbrev is_public_cidr : Json → Bool
is_public_cidr (str c) = JsSet.has c public_cidrs
is_public_cidr _ = false

unfoldable pub keep_public : Items → Items
keep_public nil = nil
keep_public (cons c cs) =
    let rest = keep_public cs in if is_public_cidr c then cons c rest else rest

abbrev pub public_of : Json → Items
public_of (arr cs) = keep_public cs
public_of _ = nil

-- One rule: `{ ...rule, cidrs: … }`.
unfoldable pub redact_rule : Json → Json
redact_rule r =
    let rule = spread r in obj (set_member "cidrs" (arr (public_of (member_of "cidrs" rule))) rule)

unfoldable pub redact_rules : Items → Items
redact_rules nil = nil
redact_rules (cons r rs) = cons (redact_rule r) (redact_rules rs)

unfoldable pub redact_ingress : Json → Json
redact_ingress (arr rs) = arr (redact_rules rs)
redact_ingress _ = undefined

-- The value under which an attribute is kept, if it is.
abbrev keep_value : String → Json → Option Json
keep_value key (num n) = some (num n)
keep_value key (bool b) = some (bool b)
keep_value key (str s) = if JsSet.has key safe_string_attr_keys then some (str s) else none
keep_value key (arr vs) = if JsSet.has key safe_array_attr_keys then some (arr vs) else none
keep_value key _ = none

unfoldable pub redact_attribute : String → Json → Option Json
redact_attribute key value =
    if key == "ingress"
    then some (redact_ingress value)
    else if is_secret_marker value
    then some value
    else keep_value key value

abbrev pub put : String → Option Json → Attributes → Attributes
put key none rest = rest
put key (some v) rest = (key, v) ∷ rest

unfoldable pub redact_attributes : Attributes → Attributes
redact_attributes [] = []
redact_attributes ((key, value) ∷ more) =
    put key (redact_attribute key value) (redact_attributes more)

unfoldable pub redact_node : CloudNode → CloudNode
redact_node n = record n {
  tags = map (λ t. (t.0, "[redacted]")) n.tags;
  attributes = redact_attributes n.attributes;
}

unfoldable pub redact_finding : Finding → Finding
redact_finding f = record f { evidence = none }

unfoldable pub redact_graph : Graph → Graph
redact_graph g = record g {
  nodes = map redact_node g.nodes;
  edges = map (λ e. e) g.edges;
  findings = map redact_finding g.findings;
}
