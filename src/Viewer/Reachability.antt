-- ===== src/Viewer/Reachability.antt =====
-- packages/viewer/src/lib/reachability.ts. The two walks of the source differ in the ends of an edge
-- that they read, so they are one walk from the `near` end to the `far` end. The `while` loop takes
-- fuel, and `none` says that it ran out: `walk_ends` in `Loop` shows that it does not.
pub mod Scan
pub mod Loop
pub mod Correct
use kumomiru.Prelude.{
  ℕ, zero, suc, String, Bool, true, false, not, Option, none, some, List, [], ◌∷◌, ◌++◌, map,
  if◌then◌else◌, ◌==◌, or_else, foldl, length,
}
use kumomiru.JsSet
use kumomiru.JsMap
use kumomiru.Graph.Schema.{Lens, CloudEdge, Graph, lens_eq}

-- `{ edgeId, from }` and `{ edgeId, to }`.
pub record Entry : Type 0 where
  pub edge_id : String
  pub other : String

pub record Walk : Type 0 where
  pub nodes : List String
  pub edges : List String
  pub queue : List String

pub record ReachSet : Type 0 where
  pub nodes : List String
  pub edges : List String

-- One entry of the inner loop.
unfoldable pub visit : Walk → Entry → Walk
visit w x =
    if JsSet.has x.other w.nodes then record w { edges = JsSet.add x.edge_id w.edges } else record {
      nodes = JsSet.add x.other w.nodes;
      edges = JsSet.add x.edge_id w.edges;
      queue = w.queue ++ x.other ∷ [];
    }

abbrev pub scan : Walk → List Entry → Walk
scan = foldl visit

abbrev pub Adjacency : Type 0
Adjacency = List (String × List Entry)

abbrev pub entries_at : Adjacency → String → List Entry
entries_at adj v = or_else (JsMap.get v adj) []

-- The `while` loop.
unfoldable pub loop : Adjacency → ℕ → Walk → Option Walk
unfolding visit
loop adj zero w = elim w.queue [ [] ↦ some w | _ ∷ _ ↦ none ]
loop adj (suc fuel) w = elim w.queue [
  | [] ↦ some w
  | cur ∷ rest ↦ loop adj fuel (scan (record w { queue = rest }) (entries_at adj cur))
]

abbrev pub result : Option Walk → Option ReachSet
result none = none
result (some w) = some (record { nodes = w.nodes; edges = w.edges })

abbrev pub start : String → Walk
start id = record { nodes = JsSet.of_list (id ∷ []); edges = []; queue = id ∷ [] }

module _ (near far : CloudEdge → String) where
  -- The loop over the edges that fills the map.
  unfoldable pub add_edge : Lens → Adjacency → CloudEdge → Adjacency
  add_edge lens adj e =
      let entry : Entry = record { edge_id = e.id; other = far e } in
      if lens_eq e.lens lens
      then JsMap.set (near e) (entries_at adj (near e) ++ entry ∷ []) adj
      else adj

  unfoldable pub adjacency : Lens → List CloudEdge → Adjacency
  unfolding add_edge
  adjacency lens = foldl (add_edge lens) []

  -- A node is queued once, and is the start or the far end of an edge.
  unfoldable pub walk : Graph → String → Lens → Option Walk
  unfolding adjacency loop
  walk g id lens = loop (adjacency lens g.edges) (suc (length g.edges)) (start id)

unfoldable pub reverse_reachable : Graph → String → Lens → Option ReachSet
unfolding walk
reverse_reachable g target lens = result (walk (λ e. e.target) (λ e. e.source) g target lens)

unfoldable pub forward_reachable : Graph → String → Lens → Option ReachSet
unfolding walk
forward_reachable g source lens = result (walk (λ e. e.source) (λ e. e.target) g source lens)
