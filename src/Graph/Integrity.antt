-- ===== src/Graph/Integrity.antt =====
-- packages/graph/src/validate.ts: the structural checks beyond the schema. `check_referential_integrity`
-- returns the problems as texts, in the order in which the source pushes them.
pub mod Laws
pub mod Shape
use kumomiru.Prelude.{
  ◌+ₛ◌, String, ◌≡◌, Bool, true, false, not, ◌&&◌, Option, none, some, List, [], ◌∷◌, ◌++◌, ◌==◌,
  if◌then◌else◌, map, All,
}
use kumomiru.JsSet
use kumomiru.Graph.Schema.{CloudNode, CloudEdge, Finding, Graph}

-- `if (test) problems.push(problem)`
abbrev report : Bool → String → List String
report test problem = if test then problem ∷ [] else []

abbrev pub option_is : Option String → String → Bool
option_is none s = false
option_is (some r) s = r == s

-- An optional reference is dangling if it is there and names no known id.
abbrev pub dangling : Option String → List String → Bool
dangling none ids = false
dangling (some r) ids = not (JsSet.has r ids)

abbrev shown : Option String → String
shown none = "undefined"
shown (some r) = r

-- The loop over the nodes, with the ids seen before.
pub node_id_problems : List String → List CloudNode → List String
node_id_problems seen [] = []
node_id_problems seen (n ∷ ns) =
    report (JsSet.has n.id seen) ("duplicate node id: " +ₛ n.id)
    ++ node_id_problems (JsSet.add n.id seen) ns

edge_problem : List String → List String → CloudEdge → List String
edge_problem ids seen e =
    report (JsSet.has e.id seen) ("duplicate edge id: " +ₛ e.id)
    ++ (report (not (JsSet.has e.source ids))
          ("edge " +ₛ e.id +ₛ " has unknown source: " +ₛ e.source)
        ++ (report (not (JsSet.has e.target ids))
              ("edge " +ₛ e.id +ₛ " has unknown target: " +ₛ e.target)
            ++ report (e.source == e.target)
                ("edge " +ₛ e.id +ₛ " is a self-loop on: " +ₛ e.source)))

pub edge_problems : List String → List String → List CloudEdge → List String
unfolding edge_problem
edge_problems ids seen [] = []
edge_problems ids seen (e ∷ es) =
    edge_problem ids seen e ++ edge_problems ids (JsSet.add e.id seen) es

pub parent_problems : List String → List CloudNode → List String
parent_problems ids [] = []
parent_problems ids (n ∷ ns) =
    report (dangling n.parent ids) ("node " +ₛ n.id +ₛ " has unknown parent: " +ₛ shown n.parent)
    ++ (report (option_is n.parent n.id) ("node " +ₛ n.id +ₛ " is its own parent")
        ++ parent_problems ids ns)

pub finding_problems : List String → List String → List Finding → List String
finding_problems ids seen [] = []
finding_problems ids seen (f ∷ fs) =
    report (JsSet.has f.id seen) ("duplicate finding id: " +ₛ f.id)
    ++ (report (dangling f.node_id ids)
          ("finding " +ₛ f.id +ₛ " references unknown node: " +ₛ shown f.node_id)
        ++ finding_problems ids (JsSet.add f.id seen) fs)

abbrev pub node_ids : Graph → List String
node_ids g = JsSet.of_list (map (λ n. n.id) g.nodes)

unfoldable pub check_referential_integrity : Graph → List String
unfolding node_id_problems edge_problems parent_problems finding_problems
check_referential_integrity g =
    let ids = node_ids g in
    node_id_problems [] g.nodes
    ++ (edge_problems ids [] g.edges
        ++ (parent_problems ids g.nodes ++ finding_problems ids [] g.findings))
