-- ===== src/Graph/Diff.antt =====
-- packages/graph/src/diff.ts: what changed between two snapshots of an account. A report lists
-- `{ id, type }` and `{ id, severity, kind }` as records.
pub mod Laws
use kumomiru.Prelude.{
  ◌+ₛ◌, String, Bool, true, false, not, ◌||◌, Option, none, some, List, [], ◌∷◌, ◌++◌, map,
  if◌then◌else◌, or_else, ◌==◌, keep_if,
}
use kumomiru.JsSet
use kumomiru.JsMap
use kumomiru.JsMap.Index
use kumomiru.Graph.Schema.{
  Severity, Json, Members, Attributes, CloudNode, CloudEdge, Finding, Graph, undefined, str, obj,
  end, member,
}
use kumomiru.Graph.Json.{stable}

pub record NodeBrief : Type 0 where
  pub id : String
  pub type : String

pub record ChangedNode : Type 0 where
  pub id : String
  pub type : String
  pub changed_keys : List String

pub record FindingBrief : Type 0 where
  pub id : String
  pub severity : Severity
  pub kind : String

pub record SnapshotDiff : Type 0 where
  pub prev_snapshot_id : Option String
  pub next_snapshot_id : Option String
  pub nodes_added : List NodeBrief
  pub nodes_removed : List NodeBrief
  pub nodes_changed : List ChangedNode
  pub edges_added : List String
  pub edges_removed : List String
  pub findings_new : List FindingBrief
  pub findings_resolved : List FindingBrief

-- `===` on `string | undefined`.
abbrev pub same_text : Option String → Option String → Bool
same_text none none = true
same_text (some a) (some b) = a == b
same_text _ _ = false

abbrev pub tag_members : List (String × String) → Members
tag_members [] = end
tag_members ((k, v) ∷ ts) = member k (str v) (tag_members ts)

abbrev pub attribute : String → Attributes → Json
attribute k attrs = or_else (JsMap.get k attrs) undefined

-- `if (test) keys.push(key)`
abbrev push_if : Bool → String → List String
push_if test key = if test then key ∷ [] else []

pub changed_attribute_keys : CloudNode → CloudNode → List String → List String
changed_attribute_keys a b [] = []
changed_attribute_keys a b (k ∷ ks) =
    push_if
      (not (same_text (stable (attribute k a.attributes)) (stable (attribute k b.attributes))))
      ("attributes." +ₛ k)
    ++ changed_attribute_keys a b ks

unfoldable pub changed_node_keys : CloudNode → CloudNode → List String
unfolding changed_attribute_keys
changed_node_keys a b =
    push_if (not (a.type == b.type)) "type"
    ++ (push_if (not (a.name == b.name)) "name"
        ++ (push_if (not (same_text a.parent b.parent)) "parent"
            ++ (push_if
                  (not (
                    same_text (stable (obj (tag_members a.tags)))
                      (stable (obj (tag_members b.tags)))))
                  "tags"
                ++ changed_attribute_keys a b
                    (JsSet.of_list (JsMap.keys a.attributes ++ JsMap.keys b.attributes)))))

-- The loop that fills `nodesChanged`.
abbrev push_changed : CloudNode → List String → List ChangedNode → List ChangedNode
push_changed n [] rest = rest
push_changed n (k ∷ ks) rest = record { id = n.id; type = n.type; changed_keys = k ∷ ks } ∷ rest

abbrev pub compare_node : CloudNode → Option CloudNode → List ChangedNode → List ChangedNode
compare_node n none rest = rest
compare_node n (some p) rest = push_changed n (changed_node_keys p n) rest

pub changed_nodes : List (String × CloudNode) → List CloudNode → List ChangedNode
changed_nodes prev [] = []
changed_nodes prev (n ∷ ns) = compare_node n (JsMap.get n.id prev) (changed_nodes prev ns)

abbrev pub node_brief : CloudNode → NodeBrief
node_brief n = record { id = n.id; type = n.type }

abbrev pub brief : Finding → FindingBrief
brief f = record { id = f.id; severity = f.severity; kind = f.kind }

abbrev pub nodes_of : Option Graph → List CloudNode
nodes_of none = []
nodes_of (some g) = g.nodes

abbrev pub edge_ids_of : Option Graph → List String
edge_ids_of none = []
edge_ids_of (some g) = map (λ e. e.id) g.edges

abbrev pub findings_of : Option Graph → List Finding
findings_of none = []
findings_of (some g) = g.findings

abbrev snapshot_of : Option Graph → Option String
snapshot_of none = none
snapshot_of (some g) = g.meta.snapshot_id

unfoldable pub diff_snapshots : Option Graph → Graph → SnapshotDiff
unfolding changed_nodes
diff_snapshots prev next =
    let prev_nodes = Index.index (λ n. n.id) (nodes_of prev) in
    let next_nodes = Index.index (λ n. n.id) next.nodes in
    let prev_edges = JsSet.of_list (edge_ids_of prev) in
    let next_edges = JsSet.of_list (map (λ e. e.id) next.edges) in
    let prev_findings = Index.index (λ f. f.id) (findings_of prev) in
    let next_findings = Index.index (λ f. f.id) next.findings in
    record {
      prev_snapshot_id = snapshot_of prev;
      next_snapshot_id = next.meta.snapshot_id;
      nodes_added =
          map node_brief (keep_if (λ n. not (JsMap.has n.id prev_nodes)) (JsMap.values next_nodes));
      nodes_removed =
          map node_brief (keep_if (λ n. not (JsMap.has n.id next_nodes)) (JsMap.values prev_nodes));
      nodes_changed = changed_nodes prev_nodes (JsMap.values next_nodes);
      edges_added = keep_if (λ id. not (JsSet.has id prev_edges)) next_edges;
      edges_removed = keep_if (λ id. not (JsSet.has id next_edges)) prev_edges;
      findings_new =
          map brief
            (keep_if (λ f. not (JsMap.has f.id prev_findings)) (JsMap.values next_findings));
      findings_resolved =
          map brief
            (keep_if (λ f. not (JsMap.has f.id next_findings)) (JsMap.values prev_findings));
    }
