-- ===== src/Tests/Graphs.antt =====
-- A graph with two nodes, and the theorems on graphs applied to it.
use kumomiru.Prelude.{
  ℕ, String, ◌≡◌, refl, ◌↔◌, ◌≢◌, Bool, true, false, Option, none, some, List, [], ◌∷◌, map, All,
  All₂, find_first, ◌==◌,
}
use kumomiru.JsSet
use kumomiru.Glob.{star, any_one, lit, matches, Denotes, matches_iff}
use kumomiru.Graph.Schema.{
  Lens, Severity, Json, CloudNode, CloudEdge, Finding, GraphMeta, Graph, plain_finding,
}
use kumomiru.Graph.Integrity.{check_referential_integrity}
use kumomiru.Graph.Integrity.Laws.{IsIntegral, ids_of_nodes, check_referential_integrity-eq-nil_iff}
use kumomiru.Graph.Redact.{redact_graph}
use kumomiru.Graph.Redact.Laws.{IsRedacted, check-redact_graph, redact_graph-IsRedacted}
use kumomiru.Graph.Diff.{edge_ids_of, diff_snapshots}
use kumomiru.Graph.Diff.Laws.{IsGained, node_ids_of, finding_ids_of, diff_snapshots-exact}
use kumomiru.Adapters.Merge.{merge_graphs}
use kumomiru.Adapters.Merge.Laws.{
  all_nodes, all_edges, all_findings, merge_graphs-first, merge_graphs-IsIntegral,
}
use kumomiru.Adapters.Stitch.{stitch_known_accounts}
use kumomiru.Adapters.Stitch.Laws.{
  Stepped, check-stitch_known_accounts, stitch_known_accounts-Stepped,
}
use kumomiru.Viewer.Reachability.{ReachSet, reverse_reachable, forward_reachable}
use kumomiru.Viewer.Reachability.Correct.{
  IsReachSet, reverse_reachable-IsReachSet, forward_reachable-IsReachSet,
}

abbrev vpc : CloudNode
vpc = record {
  id = "vpc";
  type = "aws::ec2::vpc";
  name = "main";
  account = "111111111111";
  region = some "eu-west-1";
  parent = none;
  tags = [];
  attributes = ("cidr", Json.str "10.0.0.0/16") ∷ [];
}

abbrev outsider : CloudNode
outsider = record {
  id = "ext";
  type = "aws::iam::external-principal";
  name = "external-account-222222222222";
  account = "222222222222";
  region = none;
  parent = some "vpc";
  tags = [];
  attributes = [];
}

abbrev assume : CloudEdge
assume = record {
  id = "e";
  source = "ext";
  target = "vpc";
  relationship = "can-assume";
  lens = Lens.iam;
  attributes = [];
}

abbrev external : Finding
external =
    plain_finding "f" Severity.critical "external-can-assume" (some "vpc") "External"
      "Trusts 222222222222."

abbrev meta : GraphMeta
meta = record {
  generated_at = "2024-01-01T00:00:00.000Z";
  source = "aws-live";
  account_id = some "111111111111";
  regions = none;
  snapshot_id = none;
  scan_id = none;
  capabilities = none;
  feeds = none;
  security_hub_controls = none;
}

abbrev pub sample : Graph
sample = record {
  nodes = vpc ∷ outsider ∷ [];
  edges = assume ∷ [];
  findings = external ∷ [];
  meta = meta;
}

abbrev broken : Graph
broken = record sample { nodes = outsider ∷ [] }

sample_checks : check_referential_integrity sample ≡ []
unfolding check_referential_integrity JsSet.has JsSet.add JsSet.of_list
sample_checks = refl

sample-IsIntegral : IsIntegral sample
sample-IsIntegral = (check_referential_integrity-eq-nil_iff sample).0 sample_checks

check_referential_integrity-eq-nil_example :
    (check_referential_integrity broken ≡ []) ↔ IsIntegral broken
check_referential_integrity-eq-nil_example = check_referential_integrity-eq-nil_iff broken

check-redact_graph_example :
    check_referential_integrity (redact_graph broken) ≡ check_referential_integrity broken
check-redact_graph_example = check-redact_graph broken

redact_graph-IsRedacted_example :
    All IsRedacted (redact_graph sample).nodes
    × All (λ f. f.evidence ≡ none) (redact_graph sample).findings
redact_graph-IsRedacted_example = redact_graph-IsRedacted sample

diff_snapshots-exact_example :
    IsGained
      (map (λ n. n.id) (diff_snapshots (some broken) sample).nodes_added)
      (node_ids_of (some sample))
      (node_ids_of (some broken))
      "vpc"
    × IsGained
        (map (λ n. n.id) (diff_snapshots (some broken) sample).nodes_removed)
        (node_ids_of (some broken))
        (node_ids_of (some sample))
        "vpc"
    × IsGained
        (diff_snapshots (some broken) sample).edges_added
        (edge_ids_of (some sample))
        (edge_ids_of (some broken))
        "vpc"
    × IsGained
        (diff_snapshots (some broken) sample).edges_removed
        (edge_ids_of (some broken))
        (edge_ids_of (some sample))
        "vpc"
    × IsGained
        (map (λ f. f.id) (diff_snapshots (some broken) sample).findings_new)
        (finding_ids_of (some sample))
        (finding_ids_of (some broken))
        "vpc"
    × IsGained
        (map (λ f. f.id) (diff_snapshots (some broken) sample).findings_resolved)
        (finding_ids_of (some broken))
        (finding_ids_of (some sample))
        "vpc"
diff_snapshots-exact_example = diff_snapshots-exact (some broken) sample "vpc"

abbrev two : List Graph
two = sample ∷ sample ∷ []

merge_graphs-first_example :
    (find_first (λ n. n.id == "vpc") (merge_graphs two meta).nodes
      ≡ find_first (λ n. n.id == "vpc") (all_nodes two))
    × (find_first (λ e. e.id == "vpc") (merge_graphs two meta).edges
        ≡ find_first (λ e. e.id == "vpc") (all_edges two))
    × (find_first (λ f. f.id == "vpc") (merge_graphs two meta).findings
        ≡ find_first (λ f. f.id == "vpc") (all_findings two))
merge_graphs-first_example = merge_graphs-first two meta "vpc"

merge_graphs-IsIntegral_example : IsIntegral (merge_graphs two meta)
merge_graphs-IsIntegral_example =
    merge_graphs-IsIntegral two meta (sample-IsIntegral, (sample-IsIntegral, tt))

abbrev registered : List String
registered = "111111111111" ∷ "222222222222" ∷ []

check-stitch_known_accounts_example :
    check_referential_integrity (stitch_known_accounts sample registered)
    ≡ check_referential_integrity sample
check-stitch_known_accounts_example = check-stitch_known_accounts sample registered

-- The critical finding goes down by one step.
stitched_severity :
    map (λ f. f.severity) (stitch_known_accounts sample registered).findings ≡ Severity.high ∷ []
unfolding stitch_known_accounts kumomiru.Adapters.Stitch.known_nodes JsSet.of_list
    kumomiru.Prelude.keep_if kumomiru.Adapters.Stitch.is_sibling JsSet.has
    kumomiru.Adapters.Stitch.stitch_finding kumomiru.Adapters.Stitch.mentioned kumomiru.JsMap.get
    kumomiru.Adapters.Stitch.note_target kumomiru.Adapters.Stitch.mark_edge kumomiru.JsMap.set
    find_first kumomiru.Prelude.includes
stitched_severity = refl

sample-Distinct : JsSet.Distinct (ids_of_nodes sample)
unfolding JsSet.has
sample-Distinct = (refl, (refl, tt))

stitch_known_accounts-Stepped_example :
    All₂
      (Stepped sample registered sample-Distinct)
      sample.findings
      (stitch_known_accounts sample registered).findings
stitch_known_accounts-Stepped_example =
    stitch_known_accounts-Stepped sample registered sample-Distinct

reverse_reachable-IsReachSet_example :
    (r : ReachSet) × (reverse_reachable sample "vpc" Lens.iam ≡ some r)
    × IsReachSet (λ e. e.target) (λ e. e.source) Lens.iam sample.edges "vpc" r
reverse_reachable-IsReachSet_example = reverse_reachable-IsReachSet sample "vpc" Lens.iam

forward_reachable-IsReachSet_example :
    (r : ReachSet) × (forward_reachable sample "ext" Lens.iam ≡ some r)
    × IsReachSet (λ e. e.source) (λ e. e.target) Lens.iam sample.edges "ext" r
forward_reachable-IsReachSet_example = forward_reachable-IsReachSet sample "ext" Lens.iam

reached :
    reverse_reachable sample "vpc" Lens.iam
    ≡ some (record { nodes = "vpc" ∷ "ext" ∷ []; edges = "e" ∷ [] })
unfolding reverse_reachable kumomiru.JsMap.get kumomiru.JsMap.set JsSet.has JsSet.of_list
reached = refl

matches_example :
    (matches (lit 1 ∷ star ∷ any_one ∷ []) (1 ∷ 2 ∷ 3 ∷ []) ≡ true)
    ↔ Denotes (lit 1 ∷ star ∷ any_one ∷ []) (1 ∷ 2 ∷ 3 ∷ [])
matches_example = matches_iff (lit 1 ∷ star ∷ any_one ∷ []) (1 ∷ 2 ∷ 3 ∷ [])
