-- ===== src/Viewer/Reachability/Scan.antt =====
-- The map of the edges, and the inner loop.
use kumomiru.Prelude.{
  ℕ, suc, ◌+◌, ◌≤◌, String, ◌≡◌, refl, sym, ◌∙◌, Bool, true, false, not, ◌&&◌, ◌||◌, List, [], ◌∷◌,
  ◌++◌, map, if◌then◌else◌, ◌==◌, eq_iff, foldl, length, length-append, keep_if, any, All, arith,
  Bool-cases, inl, inr,
}
use mathlib.Core.List.{append-nil, append_assoc}
use kumomiru.JsSet
use kumomiru.JsMap
use kumomiru.Graph.Schema.{Lens, CloudEdge, lens_eq}
use kumomiru.Viewer.Reachability.{
  Entry, Walk, visit, scan, Adjacency, entries_at, add_edge, adjacency,
}

abbrev pub entry_to : String → Entry → Bool
entry_to v x = x.other == v

abbrev pub entry_of : String → Entry → Bool
entry_of i x = x.edge_id == i

pub has_nodes-scan :
    (w : Walk) (es : List Entry) (v : String)
    → JsSet.has v (scan w es).nodes ≡ (JsSet.has v w.nodes || any (entry_to v) es)
unfolding visit any
has_nodes-scan w [] v = ground arith
has_nodes-scan w (x ∷ es) v =
    ground
      (arith, has_nodes-scan (visit w x) es v, JsSet.has-add v x.other w.nodes, eq_iff x.other v)

pub has_edges-scan :
    (w : Walk) (es : List Entry) (i : String)
    → JsSet.has i (scan w es).edges ≡ (JsSet.has i w.edges || any (entry_of i) es)
unfolding visit any
has_edges-scan w [] i = ground arith
has_edges-scan w (x ∷ es) i =
    ground (arith, has_edges-scan (visit w x) es i, JsSet.has-add i x.edge_id w.edges)

-- A node that the scan adds is queued, and what was queued stays so.
pub has_queue-scan :
    (w : Walk) (es : List Entry) (v : String)
    → JsSet.has v (scan w es).queue
      ≡ (JsSet.has v w.queue || not (JsSet.has v w.nodes) && any (entry_to v) es)
unfolding visit any JsSet.has
has_queue-scan w [] v = ground arith
has_queue-scan w (x ∷ es) v = ground (
  arith,
  has_queue-scan (visit w x) es v,
  JsSet.has-add v x.other w.nodes,
  JsSet.has-append v w.queue (x.other ∷ []),
  eq_iff x.other v,
)

-- The candidates that are not reached yet.
abbrev pub unseen : List String → List String → ℕ
unseen candidates nodes = length (keep_if (λ v. not (JsSet.has v nodes)) candidates)

unseen-add-le :
    (cs nodes : List String) (x : String) → unseen cs (JsSet.add x nodes) ≤ unseen cs nodes
unfolding keep_if
unseen-add-le [] nodes x = omega arith
unseen-add-le (c ∷ cs) nodes x = ground (arith, unseen-add-le cs nodes x, JsSet.has-add c x nodes)

unseen-add :
    (cs nodes : List String) (x : String)
    → JsSet.has x cs ≡ true
    → JsSet.has x nodes ≡ false
    → suc (unseen cs (JsSet.add x nodes)) ≤ unseen cs nodes
unfolding keep_if JsSet.has
unseen-add [] nodes x c n = cc
unseen-add (c ∷ cs) nodes x h n = ground (
  arith,
  unseen-add cs nodes x,
  unseen-add-le cs nodes x,
  JsSet.has-add c x nodes,
  eq_iff c x,
  eq_iff x c,
)

abbrev pub work : List String → Walk → ℕ
work cs w = length w.queue + unseen cs w.nodes

-- What a scan queues it takes from the candidates.
pub work-scan :
    (cs : List String) (w : Walk) (es : List Entry)
    → All (λ x. JsSet.has x.other cs ≡ true) es
    → work cs (scan w es) ≤ work cs w
unfolding visit
work-scan cs w [] h = omega arith
work-scan cs w (x ∷ es) h = ground (
  arith,
  work-scan cs (visit w x) es h.1,
  unseen-add cs w.nodes x.other h.0,
  length-append w.queue (x.other ∷ []),
)

module _ (near far : CloudEdge → String) (lens : Lens) where
  abbrev pub entry : CloudEdge → Entry
  entry e = record { edge_id = e.id; other = far e }

  -- The edges of the lens with the near end `v`.
  abbrev pub at_node : String → CloudEdge → Bool
  at_node v e = lens_eq e.lens lens && near e == v

  entries-add_edge :
      (v : String) (adj : Adjacency) (e : CloudEdge)
      → entries_at (add_edge near far lens adj e) v
        ≡ (if at_node v e then entries_at adj v ++ entry e ∷ [] else entries_at adj v)
  unfolding add_edge
  entries-add_edge v adj e = elim (Bool-cases (lens_eq e.lens lens)) [
    | inl ours ↦ elim (Bool-cases (near e == v)) [
      | inl here ↦
          let at = (eq_iff (near e) v).0 here in rw (ours, here, JsMap.get-set, here, at) refl
      | inr elsewhere ↦ rw (ours, elsewhere, JsMap.get-set, elsewhere) refl
    ]
    | inr other ↦ rw other refl
  ]

  entries-fold :
      (v : String) (adj : Adjacency) (es : List CloudEdge)
      → entries_at (foldl (add_edge near far lens) adj es) v
        ≡ entries_at adj v ++ map entry (keep_if (at_node v) es)
  unfolding keep_if
  entries-fold v adj [] = sym (append-nil (entries_at adj v))
  entries-fold v adj (e ∷ es) = elim (Bool-cases (at_node v e)) [
    | inl here ↦
        entries-fold v (add_edge near far lens adj e) es
        ∙ rw (entries-add_edge v adj e, here)
            (append_assoc (entries_at adj v) (entry e ∷ []) (map entry (keep_if (at_node v) es)))
    | inr elsewhere ↦
        entries-fold v (add_edge near far lens adj e) es
        ∙ rw (entries-add_edge v adj e, elsewhere) refl
  ]

  -- The map holds, under a node, the edges of the lens with that near end, in order.
  pub entries-adjacency :
      (v : String) (es : List CloudEdge)
      → entries_at (adjacency near far lens es) v ≡ map entry (keep_if (at_node v) es)
  unfolding adjacency JsMap.get
  entries-adjacency v es = entries-fold v [] es
