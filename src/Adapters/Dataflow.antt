-- ===== src/Adapters/Dataflow.antt =====
-- packages/adapters/src/analysis/dataflow.ts: what talks to what.
pub mod Laws
use Prim.Native.String.{◌++◌ as text_append}
use kumomiru.Prelude.{
  String, Bool, true, false, not, Option, none, some, List, [], ◌∷◌, ◌++◌, map, foldl,
  if◌then◌else◌, or_else, ◌==◌,
}
use kumomiru.JsMap
use kumomiru.JsMap.Group
use kumomiru.Graph.Schema.{Lens, Json, Attributes, CloudEdge}
use kumomiru.Adapters.HashId.{hash_id}

pub record DataflowMember : Type 0 where
  pub id : String
  pub group_ids : List String

pub record DataflowIngress : Type 0 where
  pub group_id : String
  pub source_group_ids : List String
  pub ports : String

pub record DataflowReference : Type 0 where
  pub from : String
  pub to : String
  pub relationship : String
  pub via : String

pub record DataflowInput : Type 0 where
  pub members : List DataflowMember
  pub ingress : List DataflowIngress
  pub references : List DataflowReference

abbrev pub Edges : Type 0
Edges = List (String × CloudEdge)

-- `attributes["ports"] ?? relationship`; the ports that the pass writes are a text.
abbrev discriminator : Option Json → String → String
discriminator (some (Json.str ports)) relationship = ports
discriminator _ relationship = relationship

abbrev pub flow_id : String → String → String → Attributes → String
flow_id source target relationship attributes =
    let d = discriminator (JsMap.get "ports" attributes) relationship in
    text_append "e-flow-"
      (hash_id (text_append source (text_append "->" (text_append target (text_append ":" d)))))

abbrev pub flow_edge : String → String → String → Attributes → CloudEdge
flow_edge source target relationship attributes = record {
  id = flow_id source target relationship attributes;
  source = source;
  target = target;
  relationship = relationship;
  lens = Lens.dataflow;
  attributes = attributes;
}

unfoldable pub add_edge : String → String → String → Attributes → Edges → Edges
unfolding JsMap.get
add_edge source target relationship attributes edges =
    JsMap.set_new (flow_id source target relationship attributes)
      (flow_edge source target relationship attributes) edges

-- The two loops that fill the map of the groups.
unfoldable pub note_member :
    List (String × List String) → DataflowMember → List (String × List String)
unfolding Group.push
note_member m x = foldl (λ n g. Group.push g x.id n) m x.group_ids

unfoldable pub members_by_group : List DataflowMember → List (String × List String)
unfolding note_member
members_by_group = foldl note_member []

abbrev pub group_attrs : DataflowIngress → Attributes
group_attrs rule = ("ports", Json.str rule.ports) ∷ ("via", Json.str "security-group") ∷ []

-- The loop over the targets.
unfoldable pub visit_target : DataflowIngress → String → Edges → String → Edges
unfolding add_edge
visit_target rule src edges dst =
    if src == dst then edges else add_edge src dst "talks-to" (group_attrs rule) edges

-- The loop over the members of a source group.
unfoldable pub visit_source : DataflowIngress → List String → Edges → String → Edges
unfolding visit_target
visit_source rule targets edges src = foldl (visit_target rule src) edges targets

unfoldable pub visit_group :
    List (String × List String) → DataflowIngress → List String → Edges → String → Edges
unfolding visit_source JsMap.get
visit_group groups rule targets edges source_group =
    foldl (visit_source rule targets) edges (Group.group_at source_group groups)

abbrev is_empty : List String → Bool
is_empty [] = true
is_empty (x ∷ xs) = false

unfoldable pub visit_rule : List (String × List String) → Edges → DataflowIngress → Edges
unfolding visit_group JsMap.get
visit_rule groups edges rule =
    let targets = Group.group_at rule.group_id groups in
    if is_empty targets
    then edges
    else foldl (visit_group groups rule targets) edges rule.source_group_ids

unfoldable pub visit_reference : Edges → DataflowReference → Edges
unfolding add_edge
visit_reference edges ref =
    if ref.from == ref.to
    then edges
    else add_edge ref.from ref.to ref.relationship (("via", Json.str ref.via) ∷ []) edges

unfoldable pub analyze_dataflow : DataflowInput → List CloudEdge
unfolding members_by_group visit_rule visit_reference
analyze_dataflow input =
    let groups = members_by_group input.members in
    let flows = foldl (visit_rule groups) [] input.ingress in
    JsMap.values (foldl visit_reference flows input.references)
