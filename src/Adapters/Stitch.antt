-- ===== src/Adapters/Stitch.antt =====
-- packages/adapters/src/analysis/stitch.ts: principals of other registered accounts are marked.
pub mod Laws
use kumomiru.Prelude.{
  ◌+ₛ◌, String, Bool, true, false, not, ◌&&◌, ◌||◌, Option, none, some, List, [], ◌∷◌, map, foldl,
  if◌then◌else◌, or_else, ◌==◌, find_first, keep_if, includes,
}
use kumomiru.JsSet
use kumomiru.JsMap
use kumomiru.Graph.Schema.{Severity, Json, Attributes, CloudNode, CloudEdge, Finding, Graph, truthy}
use kumomiru.Graph.Integrity.{option_is}

abbrev external_principal_type : String
external_principal_type = "aws::iam::external-principal"

-- The test of the loop over the nodes, both early returns included.
unfoldable pub is_sibling : Graph → List String → CloudNode → Bool
is_sibling g known_account_ids n =
    n.type == external_principal_type
    && not (option_is g.meta.account_id n.account || not (JsSet.has n.account known_account_ids))

abbrev mark : Attributes → Attributes
mark = JsMap.set "knownAccount" (Json.bool true)

unfoldable pub mark_node : Graph → List String → CloudNode → CloudNode
mark_node g known_account_ids n =
    if is_sibling g known_account_ids n
    then record n { name = n.name +ₛ " (registered account)"; attributes = mark n.attributes }
    else n

-- The set `known` after the loop over the nodes.
unfoldable pub known_nodes : Graph → List String → List String
known_nodes g known_account_ids =
    JsSet.of_list (map (λ n. n.id) (keep_if (is_sibling g known_account_ids) g.nodes))

unfoldable pub mark_edge : List String → CloudEdge → CloudEdge
mark_edge known e =
    if JsSet.has e.source known then record e { attributes = mark e.attributes } else e

abbrev pub account_of_node : Graph → String → String
account_of_node g id = elim (find_first (λ n. n.id == id) g.nodes) [
  | none ↦ ""
  | some n ↦ n.account
]

-- One round of the loop that fills `knownAccountsOnEdgeTarget`.
unfoldable pub note_target :
    Graph → List String → List (String × List String) → CloudEdge → List (String × List String)
note_target g known m e =
    if JsSet.has e.source known
    then JsMap.set e.target
        (JsSet.add (account_of_node g e.source) (or_else (JsMap.get e.target m) [])) m
    else m

abbrev pub step : Severity → Severity
step Severity.critical = Severity.high
step Severity.high = Severity.medium
step Severity.medium = Severity.low
step Severity.low = Severity.info
step Severity.info = Severity.info

-- `[...accts].find((a) => f.detail.includes(a))`, where the empty text counts as not found.
unfoldable pub mentioned : Option (List String) → String → Option String
mentioned none detail = none
mentioned (some accts) detail = elim (find_first (λ a. includes detail a) accts) [
  | none ↦ none
  | some a ↦ if a == "" then none else some a
]

abbrev pub is_external_kind : String → Bool
is_external_kind kind = kind == "external-can-assume" || kind == "external-can-access"

abbrev pub lookup_target : Option String → List (String × List String) → Option (List String)
lookup_target none targets = none
lookup_target (some id) targets = JsMap.get id targets

abbrev pub step_finding : Finding → Option String → Finding
step_finding f none = f
step_finding f (some account) = record f {
  severity = step f.severity;
  detail =
      f.detail +ₛ " Account " +ₛ account
      +ₛ " is registered in kumomiru (in-estate), so this is cross-account trust inside your own accounts rather than a third party.";
  evidence = some (JsMap.set "knownAccount" (Json.str account) (or_else f.evidence []));
}

unfoldable pub stitch_finding : List (String × List String) → Finding → Finding
stitch_finding targets f =
    if not (truthy f.node_id) || not (is_external_kind f.kind)
    then f
    else step_finding f (mentioned (lookup_target f.node_id targets) f.detail)

abbrev pub stitched : Graph → List String → List String → Graph
stitched g known_account_ids known =
    let targets = foldl (note_target g known) [] (map (mark_edge known) g.edges) in
    record g {
      nodes = map (mark_node g known_account_ids) g.nodes;
      edges = map (mark_edge known) g.edges;
      findings = map (stitch_finding targets) g.findings;
    }

abbrev pub is_empty : List String → Bool
is_empty [] = true
is_empty (x ∷ xs) = false

unfoldable pub stitch_known_accounts : Graph → List String → Graph
stitch_known_accounts g known_account_ids =
    let known = known_nodes g known_account_ids in
    if is_empty known then g else stitched g known_account_ids known
