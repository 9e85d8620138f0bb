-- ===== src/Adapters/AccessAnalyzer/Known.antt =====
-- The edges and findings of Access Analyzer speak of known resources.
use kumomiru.Prelude.{
  String, ◌≡◌, true, List, [], ◌∷◌, All, All-append, All-members, Member, foldl-keeps, Bool-cases,
  inl, inr,
}
use kumomiru.JsSet
use kumomiru.Graph.Schema.{CloudEdge}
use kumomiru.Adapters.AccessAnalyzer.{
  AccessAnalyzerFinding, Analyzed, is_passed, access_edge, analyze_one,
  map_access_analyzer_findings,
}

module _ (known : List String) (parent : String) where
  abbrev KnownTargets : List CloudEdge → Type 0
  KnownTargets = All (λ e. JsSet.has e.target known ≡ true)

  KnownTargets-analyze_one :
      (acc : Analyzed known) (f : AccessAnalyzerFinding)
      → KnownTargets acc.edges
      → KnownTargets (analyze_one known parent acc f).edges
  unfolding analyze_one access_edge
  KnownTargets-analyze_one acc f h = elim (Bool-cases (is_passed known f)) [
    | inl passed ↦ rw (analyze_one, passed) h
    | inr taken ↦ elim (Bool-cases (JsSet.has f.resource_arn known)) [
      | inl here ↦
          rw (analyze_one, taken, here)
            (All-append (λ e. JsSet.has e.target known ≡ true) acc.edges (access_edge f ∷ []) h
              (here, tt))
      | inr unknown ↦ rw (analyze_one, taken, unknown) h
    ]
  ]

  -- The mapping draws edges to known nodes only.
  pub map_access_analyzer_findings-KnownTargets :
      (raw : List AccessAnalyzerFinding)
      → KnownTargets (map_access_analyzer_findings known raw parent).edges
  unfolding map_access_analyzer_findings
  map_access_analyzer_findings-KnownTargets raw =
      foldl-keeps (analyze_one known parent) (λ acc. KnownTargets acc.edges) (λ f. Member f raw)
        (λ acc f _ h. KnownTargets-analyze_one acc f h) raw (All-members raw)
        (record { nodes = []; edges = []; findings = []; covered = [] }) tt
