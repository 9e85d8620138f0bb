-- ===== src/Graph/Integrity/Laws.antt =====
-- What an empty list of problems means.
use kumomiru.Prelude.{
  String, ◌≡◌, refl, sym, ◌∙◌, ◌≢◌, ◌↔◌, true, false, Option, none, some, List, [], ◌∷◌, ◌++◌, map,
  All, arith, eq_iff, append-eq-nil_iff, All-mono,
}
use kumomiru.JsSet
use kumomiru.Graph.Schema.{CloudNode, CloudEdge, Finding, Graph}
use kumomiru.Graph.Integrity.{
  dangling, option_is, node_ids, node_id_problems, edge_problems, parent_problems, finding_problems,
  check_referential_integrity,
}

-- A reference is absent or names a known id.
abbrev pub Resolves : List String → Option String → Type 0
Resolves ids none = Unit
Resolves ids (some r) = JsSet.has r ids ≡ true

abbrev pub IsGoodEdge : List String → CloudEdge → Type 0
IsGoodEdge ids e =
    (JsSet.has e.source ids ≡ true) × (JsSet.has e.target ids ≡ true) × (e.source ≢ e.target)

abbrev pub HasGoodParent : List String → CloudNode → Type 0
HasGoodParent ids n = Resolves ids n.parent × (n.parent ≢ some n.id)

abbrev pub ids_of_nodes : Graph → List String
ids_of_nodes g = map (λ n. n.id) g.nodes

-- Every id is unique, every reference resolves, no edge is a loop and no node its own parent.
pub record IsIntegral (g : Graph) : Type 0 where
  pub nodes_distinct : JsSet.Distinct (ids_of_nodes g)
  pub edges_distinct : JsSet.Distinct (map (λ e. e.id) g.edges)
  pub good_edges : All (IsGoodEdge (ids_of_nodes g)) g.edges
  pub good_parents : All (HasGoodParent (ids_of_nodes g)) g.nodes
  pub findings_distinct : JsSet.Distinct (map (λ f. f.id) g.findings)
  pub good_findings : All (λ f. Resolves (ids_of_nodes g) f.node_id) g.findings

node_id_problems-nil :
    (seen : List String) (ns : List CloudNode)
    → (node_id_problems seen ns ≡ []) ↔ JsSet.Unseen seen (map (λ n. n.id) ns)
unfolding node_id_problems
node_id_problems-nil seen [] = (λ e. tt, λ u. refl)
node_id_problems-nil seen (n ∷ ns) = ground (arith, node_id_problems-nil (JsSet.add n.id seen) ns)

edge_problems-nil :
    (ids seen : List String) (es : List CloudEdge)
    → (edge_problems ids seen es ≡ [])
      ↔ (JsSet.Unseen seen (map (λ e. e.id) es) × All (IsGoodEdge ids) es)
unfolding edge_problems
edge_problems-nil ids seen [] = (λ e. (tt, tt), λ u. refl)
edge_problems-nil ids seen (e ∷ es) =
    ground (arith, edge_problems-nil ids (JsSet.add e.id seen) es, eq_iff e.source e.target)

dangling-false : (r : Option String) (ids : List String) → (dangling r ids ≡ false) ↔ Resolves ids r
dangling-false none ids = (λ e. tt, λ u. refl)
dangling-false (some r) ids = ground arith

option_is-false : (r : Option String) (s : String) → (option_is r s ≡ false) ↔ (r ≢ some s)
option_is-false none s = (λ e. cc, λ u. refl)
option_is-false (some r) s = ground (arith, eq_iff r s)

parent_problems-nil :
    (ids : List String) (ns : List CloudNode)
    → (parent_problems ids ns ≡ []) ↔ All (HasGoodParent ids) ns
unfolding parent_problems
parent_problems-nil ids [] = (λ e. tt, λ u. refl)
parent_problems-nil ids (n ∷ ns) =
    ground (
      arith,
      parent_problems-nil ids ns,
      dangling-false n.parent ids,
      option_is-false n.parent n.id,
    )

finding_problems-nil :
    (ids seen : List String) (fs : List Finding)
    → (finding_problems ids seen fs ≡ [])
      ↔ (JsSet.Unseen seen (map (λ f. f.id) fs) × All (λ f. Resolves ids f.node_id) fs)
unfolding finding_problems
finding_problems-nil ids seen [] = (λ e. (tt, tt), λ u. refl)
finding_problems-nil ids seen (f ∷ fs) =
    ground (arith, finding_problems-nil ids (JsSet.add f.id seen) fs, dangling-false f.node_id ids)

-- The references resolve in one set of ids if they do in another with the same elements.
abbrev pub Within : List String → List String → Type 0
Within ids ids' = (r : String) → JsSet.has r ids ≡ true → JsSet.has r ids' ≡ true

pub Resolves-mono :
    (ids ids' : List String)
    → Within ids ids'
    → (r : Option String) → Resolves ids r
    → Resolves ids' r
Resolves-mono ids ids' w none h = tt
Resolves-mono ids ids' w (some r) h = w r h

module _ (ids ids' : List String) (w : Within ids ids') where
  pub good_edges_mono : (es : List CloudEdge) → All (IsGoodEdge ids) es → All (IsGoodEdge ids') es
  good_edges_mono = All-mono _ _ (λ e h. (w e.source h.0, w e.target h.1, h.2))

  pub good_parents_mono :
      (ns : List CloudNode) → All (HasGoodParent ids) ns → All (HasGoodParent ids') ns
  good_parents_mono = All-mono _ _ (λ n h. (Resolves-mono ids ids' w n.parent h.0, h.1))

  pub good_findings_mono :
      (fs : List Finding)
      → All (λ f. Resolves ids f.node_id) fs
      → All (λ f. Resolves ids' f.node_id) fs
  good_findings_mono = All-mono _ _ (λ f. Resolves-mono ids ids' w f.node_id)

module _ (g : Graph) where
  to_set : Within (ids_of_nodes g) (node_ids g)
  to_set r h = JsSet.has-of_list r (ids_of_nodes g) ∙ h

  from_set : Within (node_ids g) (ids_of_nodes g)
  from_set r h = sym (JsSet.has-of_list r (ids_of_nodes g)) ∙ h

  all_nil : (check_referential_integrity g ≡ []) ↔ (
      (node_id_problems [] g.nodes ≡ [])
      × (edge_problems (node_ids g) [] g.edges ≡ [])
      × (parent_problems (node_ids g) g.nodes ≡ [])
      × (finding_problems (node_ids g) [] g.findings ≡ []))
  unfolding check_referential_integrity
  all_nil =
      let b = parent_problems (node_ids g) g.nodes in
      let c = finding_problems (node_ids g) [] g.findings in
      let a = edge_problems (node_ids g) [] g.edges in
      ground (
        arith,
        append-eq-nil_iff (node_id_problems [] g.nodes) (a ++ (b ++ c)),
        append-eq-nil_iff a (b ++ c),
        append-eq-nil_iff b c,
      )

  check-IsIntegral : check_referential_integrity g ≡ [] → IsIntegral g
  check-IsIntegral e =
      let (n, es, p, f) = all_nil.0 e in
      let edges = (edge_problems-nil (node_ids g) [] g.edges).0 es in
      let found = (finding_problems-nil (node_ids g) [] g.findings).0 f in
      record {
        nodes_distinct = (JsSet.Unseen-nil_iff _).0 ((node_id_problems-nil [] g.nodes).0 n);
        edges_distinct = (JsSet.Unseen-nil_iff _).0 edges.0;
        good_edges = good_edges_mono _ _ from_set g.edges edges.1;
        good_parents = good_parents_mono _ _ from_set g.nodes ((parent_problems-nil _ g.nodes).0 p);
        findings_distinct = (JsSet.Unseen-nil_iff _).0 found.0;
        good_findings = good_findings_mono _ _ from_set g.findings found.1;
      }

  IsIntegral-check : IsIntegral g → check_referential_integrity g ≡ []
  IsIntegral-check h = all_nil.1 (
    (node_id_problems-nil [] g.nodes).1 ((JsSet.Unseen-nil_iff _).1 h.nodes_distinct),
    (edge_problems-nil (node_ids g) [] g.edges).1 (
      (JsSet.Unseen-nil_iff _).1 h.edges_distinct,
      good_edges_mono _ _ to_set g.edges h.good_edges,
    ),
    (parent_problems-nil _ g.nodes).1 (good_parents_mono _ _ to_set g.nodes h.good_parents),
    (finding_problems-nil (node_ids g) [] g.findings).1 (
      (JsSet.Unseen-nil_iff _).1 h.findings_distinct,
      good_findings_mono _ _ to_set g.findings h.good_findings,
    ),
  )

-- The check reports no problem exactly for a graph in which node, edge and finding ids are unique,
-- every edge joins two different known nodes, every parent is a known node other than the node
-- itself, and every finding that names a node names a known one.
pub check_referential_integrity-eq-nil_iff :
    (g : Graph) → (check_referential_integrity g ≡ []) ↔ IsIntegral g
check_referential_integrity-eq-nil_iff g = (check-IsIntegral g, IsIntegral-check g)
