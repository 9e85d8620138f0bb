-- ===== src/Graph/Integrity/Shape.antt =====
-- The checks read only the ids and the references, so a pass that keeps these keeps the problems.
use kumomiru.Prelude.{String, ◌≡◌, refl, List, [], ◌∷◌, map}
use kumomiru.JsSet
use kumomiru.Graph.Schema.{CloudNode, CloudEdge, Finding, Graph}
use kumomiru.Graph.Integrity.{
  node_id_problems, edge_problems, parent_problems, finding_problems, node_ids,
  check_referential_integrity,
}

pub record KeepsNode (f : CloudNode → CloudNode) : Type 0 where
  pub id : (n : CloudNode) → (f n).id ≡ n.id
  pub parent : (n : CloudNode) → (f n).parent ≡ n.parent

pub record KeepsEdge (f : CloudEdge → CloudEdge) : Type 0 where
  pub id : (e : CloudEdge) → (f e).id ≡ e.id
  pub source : (e : CloudEdge) → (f e).source ≡ e.source
  pub target : (e : CloudEdge) → (f e).target ≡ e.target

pub record KeepsFinding (f : Finding → Finding) : Type 0 where
  pub id : (x : Finding) → (f x).id ≡ x.id
  pub node_id : (x : Finding) → (f x).node_id ≡ x.node_id

module _ (f : CloudNode → CloudNode) (k : KeepsNode f) where
  pub map-ids-nodes : (ns : List CloudNode) → map (λ n. n.id) (map f ns) ≡ map (λ n. n.id) ns
  map-ids-nodes [] = refl
  map-ids-nodes (n ∷ ns) = cc (k.id n, map-ids-nodes ns)

  node_id_problems-map :
      (seen : List String) (ns : List CloudNode)
      → node_id_problems seen (map f ns) ≡ node_id_problems seen ns
  unfolding node_id_problems
  node_id_problems-map seen [] = refl
  node_id_problems-map seen (n ∷ ns) = rw (k.id n, node_id_problems-map (JsSet.add n.id seen) ns)

  parent_problems-map :
      (ids : List String) (ns : List CloudNode)
      → parent_problems ids (map f ns) ≡ parent_problems ids ns
  unfolding parent_problems
  parent_problems-map ids [] = refl
  parent_problems-map ids (n ∷ ns) = rw (k.parent n, k.id n, parent_problems-map ids ns)

module _ (f : CloudEdge → CloudEdge) (k : KeepsEdge f) where
  edge_problems-map :
      (ids seen : List String) (es : List CloudEdge)
      → edge_problems ids seen (map f es) ≡ edge_problems ids seen es
  unfolding edge_problems
  edge_problems-map ids seen [] = refl
  edge_problems-map ids seen (e ∷ es) =
      rw (k.id e, k.source e, k.target e, edge_problems-map ids (JsSet.add e.id seen) es)

module _ (f : Finding → Finding) (k : KeepsFinding f) where
  finding_problems-map :
      (ids seen : List String) (xs : List Finding)
      → finding_problems ids seen (map f xs) ≡ finding_problems ids seen xs
  unfolding finding_problems
  finding_problems-map ids seen [] = refl
  finding_problems-map ids seen (x ∷ xs) =
      rw (k.id x, k.node_id x, finding_problems-map ids (JsSet.add x.id seen) xs)

pub check-map :
    {f : CloudNode → CloudNode} {h : CloudEdge → CloudEdge} {k : Finding → Finding}
    → KeepsNode f
    → KeepsEdge h
    → KeepsFinding k
    → (g g' : Graph) → g'.nodes ≡ map f g.nodes
    → g'.edges ≡ map h g.edges
    → g'.findings ≡ map k g.findings
    → check_referential_integrity g' ≡ check_referential_integrity g
unfolding check_referential_integrity
check-map {f} {h} {k} a b c g g' ns es fs = rw (
  ns,
  es,
  fs,
  map-ids-nodes f a g.nodes,
  node_id_problems-map f a [] g.nodes,
  edge_problems-map h b (node_ids g) [] g.edges,
  parent_problems-map f a (node_ids g) g.nodes,
  finding_problems-map k c (node_ids g) [] g.findings,
)
