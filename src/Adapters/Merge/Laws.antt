-- ===== src/Adapters/Merge/Laws.antt =====
-- The merge keeps the first of each id, and keeps graphs sound.
use kumomiru.Prelude.{
  String, ◌≡◌, refl, sym, ap, ◌∙◌, subst, true, List, [], ◌∷◌, ◌++◌, map, arith, ◌==◌, foldl,
  flat_map, All, All-append, find_first,
}
use kumomiru.JsSet
use kumomiru.JsMap
use kumomiru.JsMap.Collect.{collect, collect-append, ids-collect, find-collect, All-values-collect}
use kumomiru.Graph.Schema.{CloudNode, CloudEdge, Finding, Graph, GraphMeta}
use kumomiru.Graph.Integrity.Laws.{
  IsIntegral, IsGoodEdge, HasGoodParent, Resolves, ids_of_nodes, Within, good_edges_mono,
  good_parents_mono, good_findings_mono,
}
use kumomiru.Adapters.Merge.{Merging, merge_one, merge_start, merge_graphs}

abbrev pub all_nodes : List Graph → List CloudNode
all_nodes = flat_map (λ g. g.nodes)

abbrev pub all_edges : List Graph → List CloudEdge
all_edges = flat_map (λ g. g.edges)

abbrev pub all_findings : List Graph → List Finding
all_findings = flat_map (λ g. g.findings)

record Collects (gs : List Graph) (s t : Merging) : Type 0 where
  nodes : t.nodes ≡ collect (λ n. n.id) s.nodes (all_nodes gs)
  edges : t.edges ≡ collect (λ e. e.id) s.edges (all_edges gs)
  findings : t.findings ≡ collect (λ f. f.id) s.findings (all_findings gs)

fold-Collects : (gs : List Graph) (s : Merging) → Collects gs s (foldl merge_one s gs)
unfolding merge_one flat_map collect
fold-Collects [] s = record { nodes = refl; edges = refl; findings = refl }
fold-Collects (g ∷ gs) s =
    let ih = fold-Collects gs (merge_one s g) in
    record {
      nodes = ih.nodes ∙ sym (collect-append _ s.nodes g.nodes (all_nodes gs));
      edges = ih.edges ∙ sym (collect-append _ s.edges g.edges (all_edges gs));
      findings = ih.findings ∙ sym (collect-append _ s.findings g.findings (all_findings gs));
    }

module _ (gs : List Graph) (meta : GraphMeta) where
  merged : Collects gs (merge_start meta) (foldl merge_one (merge_start meta) gs)
  merged = fold-Collects gs (merge_start meta)

  nodes-merge : (merge_graphs gs meta).nodes ≡ JsMap.values (collect (λ n. n.id) [] (all_nodes gs))
  unfolding merge_graphs
  nodes-merge = ap JsMap.values merged.nodes

  edges-merge : (merge_graphs gs meta).edges ≡ JsMap.values (collect (λ e. e.id) [] (all_edges gs))
  unfolding merge_graphs
  edges-merge = ap JsMap.values merged.edges

  findings-merge :
      (merge_graphs gs meta).findings ≡ JsMap.values (collect (λ f. f.id) [] (all_findings gs))
  unfolding merge_graphs
  findings-merge = ap JsMap.values merged.findings

  -- For every id the merged graph has the node, the edge and the finding that come first with
  -- that id in the graphs, in their order, and has none where no graph has one.
  pub merge_graphs-first :
      (id : String)
      → (find_first (λ n. n.id == id) (merge_graphs gs meta).nodes
          ≡ find_first (λ n. n.id == id) (all_nodes gs))
        × (find_first (λ e. e.id == id) (merge_graphs gs meta).edges
            ≡ find_first (λ e. e.id == id) (all_edges gs))
        × (find_first (λ f. f.id == id) (merge_graphs gs meta).findings
            ≡ find_first (λ f. f.id == id) (all_findings gs))
  merge_graphs-first id = (
    rw nodes-merge (find-collect (λ n. n.id) id (all_nodes gs)),
    rw edges-merge (find-collect (λ e. e.id) id (all_edges gs)),
    rw findings-merge (find-collect (λ f. f.id) id (all_findings gs)),
  )

  ids-merge : ids_of_nodes (merge_graphs gs meta) ≡ JsSet.of_list (map (λ n. n.id) (all_nodes gs))
  ids-merge = rw nodes-merge (ids-collect (λ n. n.id) (all_nodes gs))

map-ids-append :
    (xs ys : List CloudNode) → map (λ n. n.id) (xs ++ ys) ≡ map (λ n. n.id) xs ++ map (λ n. n.id) ys
map-ids-append [] ys = refl
map-ids-append (x ∷ xs) ys = ap (◌∷◌ x.id) (map-ids-append xs ys)

has-left :
    (r : String) (xs ys : List String) → JsSet.has r xs ≡ true → JsSet.has r (xs ++ ys) ≡ true
has-left r xs ys h = ground (arith, JsSet.has-append r xs ys)

has-right :
    (r : String) (xs ys : List String) → JsSet.has r ys ≡ true → JsSet.has r (xs ++ ys) ≡ true
has-right r xs ys h = ground (arith, JsSet.has-append r xs ys)

-- The references of each graph resolve in `ids`, if the nodes of all of them are in `ids`.
each-Within :
    (ids : List String) (gs : List Graph)
    → Within (map (λ n. n.id) (all_nodes gs)) ids
    → All (λ g. Within (ids_of_nodes g) ids) gs
unfolding flat_map
each-Within ids [] w = tt
each-Within ids (g ∷ gs) w =
    let both = map-ids-append g.nodes (all_nodes gs) in
    (
      λ r h. w r (rw both (has-left r (ids_of_nodes g) _ h)),
      each-Within ids gs (λ r h. w r (rw both (has-right r (ids_of_nodes g) _ h))),
    )

module _ (ids : List String) where
  flat_edges :
      (gs : List Graph)
      → All IsIntegral gs
      → All (λ g. Within (ids_of_nodes g) ids) gs
      → All (IsGoodEdge ids) (all_edges gs)
  unfolding flat_map
  flat_edges [] h w = tt
  flat_edges (g ∷ gs) h w =
      All-append (IsGoodEdge ids) g.edges (all_edges gs)
        (good_edges_mono (ids_of_nodes g) ids w.0 g.edges h.0.good_edges) (flat_edges gs h.1 w.1)

  flat_parents :
      (gs : List Graph)
      → All IsIntegral gs
      → All (λ g. Within (ids_of_nodes g) ids) gs
      → All (HasGoodParent ids) (all_nodes gs)
  unfolding flat_map
  flat_parents [] h w = tt
  flat_parents (g ∷ gs) h w =
      All-append (HasGoodParent ids) g.nodes (all_nodes gs)
        (good_parents_mono (ids_of_nodes g) ids w.0 g.nodes h.0.good_parents)
        (flat_parents gs h.1 w.1)

  flat_findings :
      (gs : List Graph)
      → All IsIntegral gs
      → All (λ g. Within (ids_of_nodes g) ids) gs
      → All (λ f. Resolves ids f.node_id) (all_findings gs)
  unfolding flat_map
  flat_findings [] h w = tt
  flat_findings (g ∷ gs) h w =
      All-append (λ f. Resolves ids f.node_id) g.findings (all_findings gs)
        (good_findings_mono (ids_of_nodes g) ids w.0 g.findings h.0.good_findings)
        (flat_findings gs h.1 w.1)

-- A merge of graphs that each pass the referential checks passes them too.
pub merge_graphs-IsIntegral :
    (gs : List Graph) (meta : GraphMeta) → All IsIntegral gs → IsIntegral (merge_graphs gs meta)
merge_graphs-IsIntegral gs meta h =
    let same = ids-merge gs meta in
    let ids = ids_of_nodes (merge_graphs gs meta) in
    let w =
      each-Within ids gs
        (λ r k. rw same (JsSet.has-of_list r (map (λ n. n.id) (all_nodes gs)) ∙ k)) in
    record {
      nodes_distinct = rw same (JsSet.Distinct-of_list _);
      edges_distinct =
          rw (edges-merge gs meta, ids-collect (λ e. e.id) (all_edges gs))
            (JsSet.Distinct-of_list _);
      good_edges =
          rw (edges-merge gs meta)
            (All-values-collect _ (IsGoodEdge ids) [] (all_edges gs) tt (flat_edges ids gs h w));
      good_parents =
          subst (All (HasGoodParent ids)) (sym (nodes-merge gs meta)) (
            All-values-collect _ (HasGoodParent ids) [] (all_nodes gs) tt
              (flat_parents ids gs h w));
      findings_distinct =
          rw (findings-merge gs meta, ids-collect (λ f. f.id) (all_findings gs))
            (JsSet.Distinct-of_list _);
      good_findings = rw (findings-merge gs meta) (
          All-values-collect _ (λ f. Resolves ids f.node_id) [] (all_findings gs) tt
            (flat_findings ids gs h w));
    }
