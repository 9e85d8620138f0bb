-- ===== src/Adapters/Stitch/Laws.antt =====
-- Stitching keeps the structure of the graph, and lowers severities by one step at most.
use kumomiru.Prelude.{
  String, ◌≡◌, refl, ◌⊎◌, inl, inr, Bool, true, false, not, Option, none, some, List, [], ◌∷◌, map,
  arith, ◌==◌, Bool-cases, Option-cases, All, All₂, All₂-map, All₂-refl, ◌||◌, keep_if, find_first,
  find_first-some, or_else, foldl, eq_iff, sym, ◌∙◌, subst, includes,
}
use kumomiru.JsSet
use kumomiru.Graph.Schema.{CloudNode, CloudEdge, Finding, Graph, truthy}
use kumomiru.JsMap
use kumomiru.Graph.Integrity.{option_is, check_referential_integrity}
use kumomiru.Graph.Integrity.Laws.{ids_of_nodes}
use kumomiru.Graph.Integrity.Shape.{KeepsNode, KeepsEdge, KeepsFinding, check-map}
use kumomiru.Adapters.Stitch.{
  is_sibling, mark_node, mark_edge, note_target, known_nodes, step, is_external_kind,
  stitch_finding, stitched, is_empty, stitch_known_accounts, account_of_node, mentioned,
  lookup_target,
}

mark_node-keeps : (g : Graph) (ids : List String) → KeepsNode (mark_node g ids)
unfolding mark_node
mark_node-keeps g ids = record { id = λ n. ground arith; parent = λ n. ground arith }

mark_edge-keeps : (known : List String) → KeepsEdge (mark_edge known)
unfolding mark_edge
mark_edge-keeps known = record {
  id = λ e. ground arith;
  source = λ e. ground arith;
  target = λ e. ground arith;
}

stitch_finding-keeps :
    (targets : List (String × List String)) → KeepsFinding (stitch_finding targets)
unfolding stitch_finding
stitch_finding-keeps targets = record { id = λ f. ground arith; node_id = λ f. ground arith }

-- Stitching leaves the referential problems of a graph as they were: the same ones, in the same
-- order. So a sound graph stays sound.
pub check-stitch_known_accounts :
    (g : Graph) (ids : List String)
    → check_referential_integrity (stitch_known_accounts g ids) ≡ check_referential_integrity g
unfolding stitch_known_accounts
check-stitch_known_accounts g ids =
    let known = known_nodes g ids in
    elim (Bool-cases (is_empty known)) [
      | inl none_known ↦ rw none_known refl
      | inr found ↦ rw found (
          check-map (mark_node-keeps g ids) (mark_edge-keeps known) (stitch_finding-keeps _) g
            (stitched g ids known) refl refl refl)
    ]

has-ids-keep_if :
    (p : CloudNode → Bool) (i : String) (ns : List CloudNode)
    → JsSet.has i (map (λ n. n.id) (keep_if p ns)) ≡ true
    → JsSet.has i (map (λ n. n.id) ns) ≡ true
unfolding keep_if JsSet.has
has-ids-keep_if p i [] h = h
has-ids-keep_if p i (n ∷ ns) h = ground (arith, has-ids-keep_if p i ns)

-- With unique ids the first node of a kept id is the kept one.
find-of_kept :
    (p : CloudNode → Bool) (i : String) (ns : List CloudNode)
    → JsSet.Distinct (map (λ n. n.id) ns)
    → JsSet.has i (map (λ n. n.id) (keep_if p ns)) ≡ true
    → (n : CloudNode) × (find_first (λ m. m.id == i) ns ≡ some n) × (p n ≡ true)
unfolding keep_if find_first JsSet.has
find-of_kept p i [] d h = cc
find-of_kept p i (n ∷ ns) d h = elim (Bool-cases (n.id == i)) [
  | inl here ↦ (n, rw here refl, ground (arith, has-ids-keep_if p i ns, eq_iff n.id i))
  | inr later ↦
      let (m, found, ok) = find-of_kept p i ns d.1 (ground arith) in (m, rw later found, ok)
]

module _ (g : Graph) (ids : List String) (d : JsSet.Distinct (ids_of_nodes g)) where
  -- Another account than the scanned one, and a registered one.
  abbrev IsRegistered : String → Type 0
  IsRegistered a = (JsSet.has a ids ≡ true) × (option_is g.meta.account_id a ≡ false)

  account-IsRegistered :
      (i : String) → JsSet.has i (known_nodes g ids) ≡ true → IsRegistered (account_of_node g i)
  unfolding known_nodes is_sibling
  account-IsRegistered i h =
      let (n, found, sibling) =
        find-of_kept (is_sibling g ids) i g.nodes d (sym (JsSet.has-of_list i _) ∙ h) in
      rw (found, account_of_node) (ground arith)

  abbrev AllRegistered : List (String × List String) → Type 0
  AllRegistered m = All (All IsRegistered) (JsMap.values m)

  old_accounts :
      (k : String) (m : List (String × List String))
      → AllRegistered m
      → All IsRegistered (or_else (JsMap.get k m) [])
  old_accounts k m h = elim (Option-cases (JsMap.get k m)) [
    | inl none_yet ↦ rw none_yet tt
    | inr (v, e) ↦ rw e (JsMap.All-values-get (All IsRegistered) k v m h e)
  ]

  target_accounts :
      (i : Option String) (m : List (String × List String))
      → AllRegistered m
      → All IsRegistered (or_else (lookup_target i m) [])
  target_accounts none m h = tt
  target_accounts (some k) m h = old_accounts k m h

  note_target-AllRegistered :
      (m : List (String × List String)) (e : CloudEdge)
      → AllRegistered m
      → AllRegistered (note_target g (known_nodes g ids) m e)
  unfolding note_target
  note_target-AllRegistered m e h = elim (Bool-cases (JsSet.has e.source (known_nodes g ids))) [
    | inl hit ↦ rw hit (
        JsMap.All-values-set (All IsRegistered) e.target _ m
          (JsSet.All-add IsRegistered _ _ (account-IsRegistered e.source hit)
            (old_accounts e.target m h))
          h)
    | inr miss ↦ rw miss h
  ]

  targets-AllRegistered :
      (m : List (String × List String)) (es : List CloudEdge)
      → AllRegistered m
      → AllRegistered (foldl (note_target g (known_nodes g ids)) m es)
  targets-AllRegistered m [] h = h
  targets-AllRegistered m (e ∷ es) h =
      targets-AllRegistered (note_target g (known_nodes g ids) m e) es
        (note_target-AllRegistered m e h)

  mentioned-IsRegistered :
      (accts : Option (List String)) (detail a : String)
      → All IsRegistered (or_else accts [])
      → mentioned accts detail ≡ some a
      → IsRegistered a × (includes detail a ≡ true)
  unfolding mentioned
  mentioned-IsRegistered none detail a h e = cc
  mentioned-IsRegistered (some accts) detail a h e =
      elim (Option-cases (find_first (λ b. includes detail b) accts)) [
        | inl no_hit ↦ cc (no_hit)
        | inr (b, hit) ↦
            let fact = find_first-some (λ c. includes detail c) IsRegistered accts b h hit in
            let same : b ≡ a = ground arith in
            subst (λ c. IsRegistered c × (includes detail c ≡ true)) same fact
      ]

  -- What stitching does to one finding.
  abbrev pub Stepped : Finding → Finding → Type 0
  Stepped f f' =
      (f' ≡ f)
      ⊎ ((f'.id ≡ f.id)
          × (f'.node_id ≡ f.node_id)
          × (f'.kind ≡ f.kind)
          × (is_external_kind f.kind ≡ true)
          × (f'.severity ≡ step f.severity)
          × ((a : String) × IsRegistered a × (includes f.detail a ≡ true)))

  stitch_finding-Stepped :
      (targets : List (String × List String)) (f : Finding)
      → AllRegistered targets
      → Stepped f (stitch_finding targets f)
  unfolding stitch_finding
  stitch_finding-Stepped targets f h =
      elim (Bool-cases (not (truthy f.node_id) || not (is_external_kind f.kind))) [
        | inl skipped ↦ rw skipped (inl refl)
        | inr tried ↦ elim (Option-cases (mentioned (lookup_target f.node_id targets) f.detail)) [
          | inl absent ↦ rw (tried, absent) (inl refl)
          | inr (a, hit) ↦
              let (good, said) =
                mentioned-IsRegistered (lookup_target f.node_id targets) f.detail a
                  (target_accounts f.node_id targets h) hit in
              rw (tried, hit) (inr (refl, refl, refl, ground arith, refl, (a, good, said)))
        ]
      ]

  -- In a graph with unique node ids stitching keeps the findings in their places, and each one is
  -- either unchanged, or is a finding on an external principal that goes down by one severity step
  -- and whose text names a registered account other than the scanned one.
  pub stitch_known_accounts-Stepped : All₂ Stepped g.findings (stitch_known_accounts g ids).findings
  unfolding stitch_known_accounts
  stitch_known_accounts-Stepped = elim (Bool-cases (is_empty (known_nodes g ids))) [
    | inl none_known ↦ rw none_known (All₂-refl Stepped (λ f. inl refl) g.findings)
    | inr found ↦ rw found (
        All₂-map Stepped _
          (λ f.
            stitch_finding-Stepped _ f
              (targets-AllRegistered [] (map (mark_edge (known_nodes g ids)) g.edges) tt))
          g.findings)
  ]
