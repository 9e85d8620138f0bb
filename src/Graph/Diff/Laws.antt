-- ===== src/Graph/Diff/Laws.antt =====
-- What the lists of a diff hold.
use kumomiru.Prelude.{
  String, ◌≡◌, refl, ap, ap₂, ◌∙◌, Bool, true, not, ◌&&◌, Option, none, some, List, [], ◌∷◌, ◌++◌,
  map, arith, eq_iff, eq_refl, All, keep_if,
}
use kumomiru.JsSet
use kumomiru.JsMap
use kumomiru.JsMap.Index
use kumomiru.Graph.Schema.{Graph, CloudNode, obj}
use kumomiru.Graph.Json.{stable}
use kumomiru.Graph.Diff.{
  SnapshotDiff, same_text, attribute, tag_members, changed_attribute_keys, changed_node_keys,
  changed_nodes, node_brief, brief, nodes_of, edge_ids_of, findings_of, diff_snapshots,
}

-- The ids that are left of a map's values, when those with an id in `gone` are dropped.
module _ {ℓ} {V W : Type ℓ} (id : V → String) (shown : V → W) (id' : W → String)
    (keeps : (v : V) → id' (shown v) ≡ id v) (gone : String → Bool) where
  has-kept :
      (i : String) (m : List (String × V))
      → Index.KeyedBy id m
      → JsSet.has i (map id' (map shown (keep_if (λ v. not (gone (id v))) (JsMap.values m))))
        ≡ (JsMap.has i m && not (gone i))
  unfolding keep_if JsSet.has JsMap.has
  has-kept i [] h = refl
  has-kept i (e ∷ m) h = ground (arith, has-kept i m h.1, keeps e.1, h.0, eq_iff e.0 i)

has-keep_if :
    (gone : String → Bool) (i : String) (s : List String)
    → JsSet.has i (keep_if (λ j. not (gone j)) s) ≡ (JsSet.has i s && not (gone i))
unfolding keep_if JsSet.has
has-keep_if gone i [] = refl
has-keep_if gone i (j ∷ s) = ground (arith, has-keep_if gone i s, eq_iff j i)

-- `id` is reported exactly if it is in the first list and not in the second.
abbrev pub IsGained : (reported now before : List String) → String → Type 0
IsGained reported now before id =
    JsSet.has id reported ≡ (JsSet.has id now && not (JsSet.has id before))

module _ {ℓ} {V W : Type ℓ} (id : V → String) (shown : V → W) (id' : W → String)
    (keeps : (v : V) → id' (shown v) ≡ id v) where
  gained :
      (now before : List V) (i : String)
      → IsGained
          (map id' (
            map shown (
              keep_if
                (λ v. not (JsMap.has (id v) (Index.index id before)))
                (JsMap.values (Index.index id now)))))
          (map id now)
          (map id before)
          i
  gained now before i =
      has-kept id shown id' keeps (λ j. JsMap.has j (Index.index id before)) i (Index.index id now)
        (Index.KeyedBy-index id now)
      ∙ ap₂ (λ a b. a && not b) (Index.has-index id i now) (Index.has-index id i before)

IsGained-edges :
    (now before : List String) (i : String)
    → IsGained
        (keep_if (λ j. not (JsSet.has j (JsSet.of_list before))) (JsSet.of_list now))
        now
        before
        i
IsGained-edges now before i =
    has-keep_if (λ j. JsSet.has j (JsSet.of_list before)) i (JsSet.of_list now)
    ∙ ap₂ (λ a b. a && not b) (JsSet.has-of_list i now) (JsSet.has-of_list i before)

abbrev pub node_ids_of : Option Graph → List String
node_ids_of g = map (λ n. n.id) (nodes_of g)

abbrev pub finding_ids_of : Option Graph → List String
finding_ids_of g = map (λ f. f.id) (findings_of g)

-- An id is reported as added, or new, exactly if the new snapshot has it and the old one does not,
-- and as removed, or resolved, exactly if the old one has it and the new one does not: for nodes,
-- edges and findings. With no old snapshot it counts as empty.
pub diff_snapshots-exact :
    (prev : Option Graph) (next : Graph) (id : String)
    → IsGained
        (map (λ n. n.id) (diff_snapshots prev next).nodes_added)
        (node_ids_of (some next))
        (node_ids_of prev)
        id
      × IsGained
          (map (λ n. n.id) (diff_snapshots prev next).nodes_removed)
          (node_ids_of prev)
          (node_ids_of (some next))
          id
      × IsGained
          (diff_snapshots prev next).edges_added
          (edge_ids_of (some next))
          (edge_ids_of prev)
          id
      × IsGained
          (diff_snapshots prev next).edges_removed
          (edge_ids_of prev)
          (edge_ids_of (some next))
          id
      × IsGained
          (map (λ f. f.id) (diff_snapshots prev next).findings_new)
          (finding_ids_of (some next))
          (finding_ids_of prev)
          id
      × IsGained
          (map (λ f. f.id) (diff_snapshots prev next).findings_resolved)
          (finding_ids_of prev)
          (finding_ids_of (some next))
          id
unfolding diff_snapshots
diff_snapshots-exact prev next i = (
  gained (λ n. n.id) node_brief (λ n. n.id) (λ n. refl) next.nodes (nodes_of prev) i,
  gained (λ n. n.id) node_brief (λ n. n.id) (λ n. refl) (nodes_of prev) next.nodes i,
  IsGained-edges (edge_ids_of (some next)) (edge_ids_of prev) i,
  IsGained-edges (edge_ids_of prev) (edge_ids_of (some next)) i,
  gained (λ f. f.id) brief (λ f. f.id) (λ f. refl) next.findings (findings_of prev) i,
  gained (λ f. f.id) brief (λ f. f.id) (λ f. refl) (findings_of prev) next.findings i,
)

same_text_refl : (t : Option String) → same_text t t ≡ true
same_text_refl none = refl
same_text_refl (some a) = eq_refl a

changed_attribute_keys_self :
    (n : CloudNode) (ks : List String) → changed_attribute_keys n n ks ≡ []
unfolding changed_attribute_keys
changed_attribute_keys_self n [] = refl
changed_attribute_keys_self n (k ∷ ks) =
    rw (same_text_refl (stable (attribute k n.attributes))) (changed_attribute_keys_self n ks)

changed_node_keys_self : (n : CloudNode) → changed_node_keys n n ≡ []
unfolding changed_node_keys
changed_node_keys_self n =
    rw
      (
        eq_refl n.type,
        eq_refl n.name,
        same_text_refl n.parent,
        same_text_refl (stable (obj (tag_members n.tags))),
      )
      (changed_attribute_keys_self n
        (JsSet.of_list (JsMap.keys n.attributes ++ JsMap.keys n.attributes)))

changed_nodes_self :
    (prev sub : List (String × CloudNode))
    → Index.IsFound prev sub
    → Index.KeyedBy (λ n. n.id) sub
    → changed_nodes prev (JsMap.values sub) ≡ []
unfolding changed_nodes changed_node_keys
changed_nodes_self prev [] f k = refl
changed_nodes_self prev (e ∷ sub) f k =
    rw (k.0, f.0, changed_node_keys_self e.1) (changed_nodes_self prev sub f.1 k.1)

module _ {ℓ} {V : Type ℓ} (id : V → String) where
  none_gone :
      (m sub : List (String × V))
      → Index.IsFound m sub
      → Index.KeyedBy id sub
      → keep_if (λ v. not (JsMap.has (id v) m)) (JsMap.values sub) ≡ []
  unfolding keep_if JsMap.has
  none_gone m [] f k = refl
  none_gone m (e ∷ sub) f k = ground (arith, none_gone m sub f.1 k.1, k.0, f.0)

  none_gained :
      (xs : List V)
      → keep_if (λ v. not (JsMap.has (id v) (Index.index id xs))) (JsMap.values (Index.index id xs))
        ≡ []
  none_gained xs =
      let m = Index.index id xs in
      none_gone m m (Index.IsFound-of_Distinct m (Index.Distinct-index id xs))
        (Index.KeyedBy-index id xs)

none_gone_set :
    (s sub : List String)
    → All (λ j. JsSet.has j s ≡ true) sub
    → keep_if (λ j. not (JsSet.has j s)) sub ≡ []
unfolding keep_if
none_gone_set s [] h = refl
none_gone_set s (j ∷ sub) h = rw h.0 (none_gone_set s sub h.1)

pub record IsUnchanged (d : SnapshotDiff) : Type 0 where
  pub nodes_added : d.nodes_added ≡ []
  pub nodes_removed : d.nodes_removed ≡ []
  pub nodes_changed : d.nodes_changed ≡ []
  pub edges_added : d.edges_added ≡ []
  pub edges_removed : d.edges_removed ≡ []
  pub findings_new : d.findings_new ≡ []
  pub findings_resolved : d.findings_resolved ≡ []

-- A snapshot differs in nothing from itself.
pub diff_snapshots_self : (g : Graph) → IsUnchanged (diff_snapshots (some g) g)
unfolding diff_snapshots
diff_snapshots_self g =
    let nodes = ap (map node_brief) (none_gained (λ n. n.id) g.nodes) in
    let edges = none_gone_set _ _ (JsSet.All-has_self (JsSet.of_list (edge_ids_of (some g)))) in
    let findings = ap (map brief) (none_gained (λ f. f.id) g.findings) in
    let m = Index.index (λ n. n.id) g.nodes in
    record {
      nodes_added = nodes;
      nodes_removed = nodes;
      nodes_changed =
          changed_nodes_self m m
            (Index.IsFound-of_Distinct m (Index.Distinct-index (λ n. n.id) g.nodes))
            (Index.KeyedBy-index (λ n. n.id) g.nodes);
      edges_added = edges;
      edges_removed = edges;
      findings_new = findings;
      findings_resolved = findings;
    }
