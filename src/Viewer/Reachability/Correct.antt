-- ===== src/Viewer/Reachability/Correct.antt =====
-- The nodes and the edges that a walk returns.
use kumomiru.Prelude.{
  suc, ◌≤◌, String, ◌≡◌, refl, ap, ◌∙◌, ◌↔◌, Bool, true, not, ◌&&◌, ◌||◌, inl, inr, some, List, [],
  ◌∷◌, map, length, All, any, keep_if, arith, ◌==◌, eq_iff, eq_refl, Bool-cases, subst,
}
use kumomiru.JsSet
use kumomiru.JsMap
use kumomiru.Graph.Schema.{Lens, CloudEdge, Graph}
use kumomiru.Viewer.Reachability.{
  Walk, ReachSet, entries_at, adjacency, start, walk, result, reverse_reachable, forward_reachable,
}
use kumomiru.Viewer.Reachability.Scan.{
  entry_to, entry_of, has_nodes-scan, has_edges-scan, has_queue-scan, unseen, at_node, entry,
  entries-adjacency,
}
use kumomiru.Viewer.Reachability.Loop.{after, loop-ends}

module _ (near far : CloudEdge → String) (lens : Lens) (es : List CloudEdge) where
  -- An edge of the lens leads from `u` to `v`.
  abbrev pub linked : String → String → Bool
  linked u v = any (λ e. at_node near far lens u e && far e == v) es

  -- An edge of the lens with the near end `u` has the id `i`.
  abbrev pub leaves : String → String → Bool
  leaves u i = any (λ e. at_node near far lens u e && e.id == i) es

  pub data Route (id : String) : String → Type 0 where
    here : Route id id
    further : {u : String} (v : String) → Route id u → linked u v ≡ true → Route id v

  -- The nodes are those with a route from `id`, the edges those of the lens that leave such a node.
  pub record IsReachSet (id : String) (r : ReachSet) : Type 0 where
    pub node : (v : String) → (JsSet.has v r.nodes ≡ true) ↔ Route id v
    pub edge :
        (i : String)
        → (JsSet.has i r.edges ≡ true) ↔ ((u : String) × Route id u × (leaves u i ≡ true))

module _ (near far : CloudEdge → String) (lens : Lens) where
  any-entry_to :
      (u v : String) (es : List CloudEdge)
      → any (entry_to v) (map (entry near far lens) (keep_if (at_node near far lens u) es))
        ≡ linked near far lens es u v
  unfolding any keep_if
  any-entry_to u v [] = refl
  any-entry_to u v (e ∷ es) = ground (arith, any-entry_to u v es)

  any-entry_of :
      (u i : String) (es : List CloudEdge)
      → any (entry_of i) (map (entry near far lens) (keep_if (at_node near far lens u) es))
        ≡ leaves near far lens es u i
  unfolding any keep_if
  any-entry_of u i [] = refl
  any-entry_of u i (e ∷ es) = ground (arith, any-entry_of u i es)

module _ (near far : CloudEdge → String) (lens : Lens) (es : List CloudEdge) (id : String) where
  record Inv (w : Walk) : Type 0 where
    begun : JsSet.has id w.nodes ≡ true
    sound : (v : String) → JsSet.has v w.nodes ≡ true → Route near far lens es id v
    queued : (v : String) → JsSet.has v w.queue ≡ true → JsSet.has v w.nodes ≡ true
    closed :
        (u v : String)
        → JsSet.has u w.nodes ≡ true
        → linked near far lens es u v ≡ true
        → (JsSet.has u w.queue || JsSet.has v w.nodes) ≡ true
    listed :
        (u i : String)
        → JsSet.has u w.nodes ≡ true
        → leaves near far lens es u i ≡ true
        → (JsSet.has u w.queue || JsSet.has i w.edges) ≡ true
    known :
        (i : String)
        → JsSet.has i w.edges ≡ true
        → (u : String) × (JsSet.has u w.nodes ≡ true) × (leaves near far lens es u i ≡ true)

  module _ (w : Walk) (cur : String) (rest : List String) where
    next : Walk
    next = after (adjacency near far lens es) w cur rest

    has_nodes-next :
        (v : String)
        → JsSet.has v next.nodes ≡ (JsSet.has v w.nodes || linked near far lens es cur v)
    unfolding next
    has_nodes-next v =
        has_nodes-scan (record w { queue = rest }) (entries_at (adjacency near far lens es) cur) v
        ∙ rw (entries-adjacency near far lens cur es)
            (ap (λ b. JsSet.has v w.nodes || b) (any-entry_to near far lens cur v es))

    has_edges-next :
        (i : String)
        → JsSet.has i next.edges ≡ (JsSet.has i w.edges || leaves near far lens es cur i)
    unfolding next
    has_edges-next i =
        has_edges-scan (record w { queue = rest }) (entries_at (adjacency near far lens es) cur) i
        ∙ rw (entries-adjacency near far lens cur es)
            (ap (λ b. JsSet.has i w.edges || b) (any-entry_of near far lens cur i es))

    has_queue-next :
        (v : String)
        → JsSet.has v next.queue
          ≡ (JsSet.has v rest || not (JsSet.has v w.nodes) && linked near far lens es cur v)
    unfolding next
    has_queue-next v =
        has_queue-scan (record w { queue = rest }) (entries_at (adjacency near far lens es) cur) v
        ∙ rw (entries-adjacency near far lens cur es) (
            ap (λ b. JsSet.has v rest || not (JsSet.has v w.nodes) && b)
              (any-entry_to near far lens cur v es))

    module _ (q : w.queue ≡ cur ∷ rest) (h : Inv w) where
      has_queue : (v : String) → JsSet.has v w.queue ≡ (cur == v || JsSet.has v rest)
      unfolding JsSet.has
      has_queue v = rw q refl

      Inv-next : Inv next
      Inv-next = record {
        begun = ground (arith, h.begun, has_nodes-next id);
        sound = λ v r. elim (Bool-cases (JsSet.has v w.nodes)) [
          | inl old ↦ h.sound v old
          | inr new ↦
              let at : JsSet.has cur w.nodes ≡ true =
                ground (arith, h.queued cur, has_queue cur, eq_refl cur) in
              further v (h.sound cur at) (ground (arith, r, has_nodes-next v))
        ];
        queued =
            λ v r. ground (arith, r, h.queued v, has_queue v, has_nodes-next v, has_queue-next v);
        closed = λ u v r l. ground (
          arith,
          r,
          l,
          h.closed u v,
          has_queue u,
          has_nodes-next u,
          has_nodes-next v,
          has_queue-next u,
          eq_iff cur u,
        );
        listed = λ u i r l. ground (
          arith,
          r,
          l,
          h.listed u i,
          has_queue u,
          has_nodes-next u,
          has_edges-next i,
          has_queue-next u,
          eq_iff cur u,
        );
        known = λ i r. elim (Bool-cases (JsSet.has i w.edges)) [
          | inl old ↦ let k = h.known i old in (k.0, ground (arith, k.1, has_nodes-next k.0), k.2)
          | inr new ↦
              let at : JsSet.has cur w.nodes ≡ true =
                ground (arith, h.queued cur, has_queue cur, eq_refl cur) in
              (
                cur,
                ground (arith, at, has_nodes-next cur),
                ground (arith, r, new, has_edges-next i),
              )
        ];
      }

module _ (near far : CloudEdge → String) (lens : Lens) where
  All-candidates :
      (es : List CloudEdge) (cs : List String)
      → ((x : String) → JsSet.has x (map far es) ≡ true → JsSet.has x cs ≡ true)
      → (v : String)
      → All
          (λ x. JsSet.has x.other cs ≡ true)
          (map (entry near far lens) (keep_if (at_node near far lens v) es))
  unfolding keep_if JsSet.has
  All-candidates [] cs f v = tt
  All-candidates (e ∷ es) cs f v =
      let rest = All-candidates es cs (λ x h. f x (ground (arith, h))) v in
      elim (Bool-cases (at_node near far lens v e)) [
        | inl ours ↦ rw ours (f (far e) (ground (arith, eq_refl (far e))), rest)
        | inr elsewhere ↦ rw elsewhere rest
      ]

  unseen-le : (cs nodes : List String) → unseen cs nodes ≤ length cs
  unfolding keep_if
  unseen-le [] nodes = omega arith
  unseen-le (c ∷ cs) nodes = ground (arith, unseen-le cs nodes)

  length-map : (es : List CloudEdge) → length (map far es) ≡ length es
  length-map [] = refl
  length-map (e ∷ es) = omega (arith, length-map es)

  Inv-start : (es : List CloudEdge) (id : String) → Inv near far lens es id (start id)
  unfolding JsSet.of_list JsSet.add_all JsSet.add JsSet.has
  Inv-start es id = record {
    begun = ground (arith, eq_refl id);
    sound = λ v r.
        let same = (eq_iff id v).0 (ground (arith, r)) in
        subst (λ x. Route near far lens es id x) same here;
    queued = λ v r. r;
    closed = λ u v r l. ground (arith, r);
    listed = λ u i r l. ground (arith, r);
    known = λ i r. cc r;
  }

  module _ (es : List CloudEdge) (id : String) (w : Walk) (q : w.queue ≡ [])
      (h : Inv near far lens es id w) where
    reached : (v : String) → Route near far lens es id v → JsSet.has v w.nodes ≡ true
    unfolding JsSet.has
    reached _ here = h.begun
    reached v (further {u} _ r l) =
        let before = reached u r in
        let c = h.closed u v before l in
        ground (arith, subst (λ z. (JsSet.has u z || JsSet.has v w.nodes) ≡ true) q c)

    IsReachSet-ended : IsReachSet near far lens es id (record { nodes = w.nodes; edges = w.edges })
    unfolding JsSet.has
    IsReachSet-ended = record {
      node = λ v. (h.sound v, reached v);
      edge = λ i. (
        (λ r. let k = h.known i r in (k.0, h.sound k.0 k.1, k.2)),
        λ k.
            let c = h.listed k.0 i (reached k.0 k.1) k.2 in
            ground (arith, subst (λ z. (JsSet.has k.0 z || JsSet.has i w.edges) ≡ true) q c),
      );
    }

  -- The fuel of a walk is enough, and the walk returns what the routes say.
  pub walk_ends :
      (g : Graph) (id : String)
      → (r : ReachSet) × (result (walk near far g id lens) ≡ some r)
        × IsReachSet near far lens g.edges id r
  unfolding walk JsMap.get next
  walk_ends g id =
      let es = g.edges in
      let cs = map far es in
      let adj = adjacency near far lens es in
      let known : (v : String) → All (λ x. JsSet.has x.other cs ≡ true) (entries_at adj v) =
        λ v. rw (entries-adjacency near far lens v es) (All-candidates es cs (λ x h. h) v) in
      let ended =
        loop-ends adj cs known (Inv near far lens es id)
          (λ w cur rest q h. Inv-next near far lens es id w cur rest q h) (suc (length es))
          (start id) (omega (arith, unseen-le cs (JsSet.of_list (id ∷ [])), length-map es))
          (Inv-start es id) in
      (
        record { nodes = ended.0.nodes; edges = ended.0.edges },
        ap result ended.1,
        IsReachSet-ended es id ended.0 ended.2 ended.3,
      )

-- The inbound walk of a lens ends, with the nodes that have a route of edges of the lens into the
-- target, and the edges of the lens that lead into such a node.
pub reverse_reachable-IsReachSet :
    (g : Graph) (target : String) (lens : Lens)
    → (r : ReachSet) × (reverse_reachable g target lens ≡ some r)
      × IsReachSet (λ e. e.target) (λ e. e.source) lens g.edges target r
unfolding reverse_reachable
reverse_reachable-IsReachSet g target lens = walk_ends (λ e. e.target) (λ e. e.source) lens g target

-- The outbound walk of a lens ends, with the nodes to which a route of edges of the lens leads from
-- the source, and the edges of the lens that leave such a node.
pub forward_reachable-IsReachSet :
    (g : Graph) (source : String) (lens : Lens)
    → (r : ReachSet) × (forward_reachable g source lens ≡ some r)
      × IsReachSet (λ e. e.source) (λ e. e.target) lens g.edges source r
unfolding forward_reachable
forward_reachable-IsReachSet g source lens = walk_ends (λ e. e.source) (λ e. e.target) lens g source
