-- ===== src/Adapters/Merge.antt =====
-- packages/adapters/src/common/merge.ts: several graphs of one account become one.
pub mod Laws
use kumomiru.Prelude.{
  ℕ, String, Option, none, some, List, [], ◌∷◌, map, if◌then◌else◌, text_le, or_else, foldl,
}
use kumomiru.JsSet
use kumomiru.JsMap
use kumomiru.JsMap.Collect
use kumomiru.Graph.Schema.{CloudNode, CloudEdge, Finding, Graph, GraphMeta}

-- `xs.sort()`
unfoldable pub insert_sorted : String → List String → List String
insert_sorted x [] = x ∷ []
insert_sorted x (y ∷ ys) =
    let rest = insert_sorted x ys in if text_le x y then x ∷ y ∷ ys else y ∷ rest

unfoldable pub sort : List String → List String
unfolding insert_sorted
sort [] = []
sort (x ∷ xs) = insert_sorted x (sort xs)

-- The three maps and the three sets that the loop fills.
pub record Merging : Type 0 where
  pub nodes : List (String × CloudNode)
  pub edges : List (String × CloudEdge)
  pub findings : List (String × Finding)
  pub capabilities : List String
  pub feeds : List String
  pub sh_controls : List String

unfoldable pub merge_one : Merging → Graph → Merging
merge_one s g = record {
  nodes = Collect.collect (λ n. n.id) s.nodes g.nodes;
  edges = Collect.collect (λ e. e.id) s.edges g.edges;
  findings = Collect.collect (λ f. f.id) s.findings g.findings;
  capabilities = JsSet.add_all s.capabilities (or_else g.meta.capabilities []);
  feeds = JsSet.add_all s.feeds (or_else g.meta.feeds []);
  sh_controls = JsSet.add_all s.sh_controls (or_else g.meta.security_hub_controls []);
}

abbrev pub merge_start : GraphMeta → Merging
merge_start meta = record {
  nodes = [];
  edges = [];
  findings = [];
  capabilities = JsSet.of_list (or_else meta.capabilities []);
  feeds = JsSet.of_list (or_else meta.feeds []);
  sh_controls = JsSet.of_list (or_else meta.security_hub_controls []);
}

-- `...(s.size ? { field: [...s].sort() } : {})` over the field of `...meta`.
abbrev pub sorted_unless_empty : List String → Option (List String) → Option (List String)
sorted_unless_empty [] old = old
sorted_unless_empty (x ∷ xs) old = some (sort (x ∷ xs))

unfoldable pub merge_graphs : List Graph → GraphMeta → Graph
unfolding merge_one
merge_graphs graphs meta =
    let s = foldl merge_one (merge_start meta) graphs in
    record {
      nodes = JsMap.values s.nodes;
      edges = JsMap.values s.edges;
      findings = JsMap.values s.findings;
      meta = record meta {
        capabilities = some (sort s.capabilities);
        feeds = sorted_unless_empty s.feeds meta.feeds;
        security_hub_controls = sorted_unless_empty s.sh_controls meta.security_hub_controls;
      };
    }
