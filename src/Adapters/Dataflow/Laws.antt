-- ===== src/Adapters/Dataflow/Laws.antt =====
-- What an edge of the dataflow lens stands for.
use kumomiru.Prelude.{
  String, ◌≡◌, ◌≢◌, refl, ◌⊎◌, inl, inr, false, List, [], ◌∷◌, foldl, ◌==◌, eq_iff, All,
  All-members, All-append, Member, foldl-keeps, arith, Bool-cases, subst,
}
use kumomiru.JsMap
use kumomiru.JsMap.Group
use kumomiru.Graph.Schema.{Json, Attributes, CloudEdge}
use kumomiru.Adapters.Dataflow.{
  is_empty, DataflowMember, DataflowIngress, DataflowReference, DataflowInput, Edges, flow_id,
  flow_edge, add_edge, note_member, members_by_group, group_attrs, visit_target, visit_source,
  visit_group, visit_rule, visit_reference, analyze_dataflow,
}

module _ (ms : List DataflowMember) where
  -- A member with the id is in the group.
  pub record InGroup (group id : String) : Type 0 where
    pub who : DataflowMember
    pub known : Member who ms
    pub joined : Member group who.group_ids
    pub same : who.id ≡ id

  -- A rule lets the group of the source into the group of the target.
  pub record Allowed (rules : List DataflowIngress) (source target : String) : Type 0 where
    pub rule : DataflowIngress
    pub source_group : String
    pub listed : Member rule rules
    pub named : Member source_group rule.source_group_ids
    pub from : InGroup source_group source
    pub to : InGroup rule.group_id target

pub record Referenced (refs : List DataflowReference) (source target : String) : Type 0 where
  pub reference : DataflowReference
  pub listed : Member reference refs
  pub from : reference.from ≡ source
  pub to : reference.to ≡ target

abbrev pub IsBacked : DataflowInput → CloudEdge → Type 0
IsBacked input e =
    (e.source ≢ e.target)
    × (Allowed input.members input.ingress e.source e.target
        ⊎ Referenced input.references e.source e.target)

All-add_edge :
    (P : CloudEdge → Type 0) (s t r : String) (a : Attributes) (m : Edges)
    → P (flow_edge s t r a)
    → All P (JsMap.values m)
    → All P (JsMap.values (add_edge s t r a m))
unfolding add_edge JsMap.set_new
All-add_edge P s t r a m p h = elim (Bool-cases (JsMap.has (flow_id s t r a) m)) [
  | inl old ↦ rw old h
  | inr new ↦ rw new (JsMap.All-values-set P (flow_id s t r a) (flow_edge s t r a) m p h)
]

-- The map of the groups holds members only.
AllInGroup : List DataflowMember → List (String × List String) → Type 0
AllInGroup ms m = (g : String) → All (λ id. InGroup ms g id) (Group.group_at g m)

AllInGroup-push :
    (ms : List DataflowMember) (g id : String) (m : List (String × List String))
    → InGroup ms g id
    → AllInGroup ms m
    → AllInGroup ms (Group.push g id m)
unfolding AllInGroup
AllInGroup-push ms g id m i h j = elim (Bool-cases (g == j)) [
  | inl same ↦
      let at = (eq_iff g j).0 same in
      rw (Group.group_at-push j g id m, same)
        (All-append (λ x. InGroup ms j x) (Group.group_at j m) (id ∷ []) (h j)
          (subst (λ k. InGroup ms k id) at i, tt))
  | inr other ↦ rw (Group.group_at-push j g id m, other) (h j)
]

AllInGroup-members_by_group : (ms : List DataflowMember) → AllInGroup ms (members_by_group ms)
unfolding members_by_group note_member AllInGroup JsMap.get
AllInGroup-members_by_group ms =
    foldl-keeps note_member (AllInGroup ms) (λ x. Member x ms)
      (λ s x known i.
        foldl-keeps (λ n g. Group.push g x.id n) (AllInGroup ms) (λ g. Member g x.group_ids)
          (λ n g joined j.
            AllInGroup-push ms g x.id n
              (record { who = x; known = known; joined = joined; same = refl }) j)
          x.group_ids (All-members x.group_ids) s i)
      ms (All-members ms) [] (λ g. tt)

different : (a b : String) → (a == b) ≡ false → a ≢ b
different a b h = λ e. ground (arith, h, (eq_iff a b).1 e)

module _ (input : DataflowInput) where
  abbrev Backed : Edges → Type 0
  Backed m = All (IsBacked input) (JsMap.values m)

  Backed-visit_rule :
      (edges : Edges) (rule : DataflowIngress)
      → Member rule input.ingress
      → Backed edges
      → Backed (visit_rule (members_by_group input.members) edges rule)
  unfolding visit_rule visit_group visit_source visit_target JsMap.get AllInGroup
  Backed-visit_rule edges rule listed h =
      let groups = members_by_group input.members in
      let inside = AllInGroup-members_by_group input.members in
      elim (Bool-cases (is_empty (Group.group_at rule.group_id groups))) [
        | inl idle ↦ rw idle h
        | inr busy ↦ rw busy (
            foldl-keeps (visit_group groups rule (Group.group_at rule.group_id groups)) Backed
              (λ g. Member g rule.source_group_ids)
              (λ s g named i.
                foldl-keeps (visit_source rule (Group.group_at rule.group_id groups)) Backed
                  (λ src. InGroup input.members g src)
                  (λ t src from j.
                    foldl-keeps (visit_target rule src) Backed
                      (λ dst. InGroup input.members rule.group_id dst)
                      (λ u dst to k. elim (Bool-cases (src == dst)) [
                        | inl same ↦ rw same k
                        | inr other ↦ rw other (
                            All-add_edge (IsBacked input) src dst "talks-to" (group_attrs rule) u
                              (
                                different src dst other,
                                inl (record {
                                  rule = rule;
                                  source_group = g;
                                  listed = listed;
                                  named = named;
                                  from = from;
                                  to = to;
                                }),
                              )
                              k)
                      ])
                      (Group.group_at rule.group_id groups) (inside rule.group_id) t j)
                  (Group.group_at g groups) (inside g) s i)
              rule.source_group_ids (All-members rule.source_group_ids) edges h)
      ]

  Backed-visit_reference :
      (edges : Edges) (ref : DataflowReference)
      → Member ref input.references
      → Backed edges
      → Backed (visit_reference edges ref)
  unfolding visit_reference
  Backed-visit_reference edges ref listed h = elim (Bool-cases (ref.from == ref.to)) [
    | inl same ↦ rw same h
    | inr other ↦ rw other (
        All-add_edge (IsBacked input) ref.from ref.to ref.relationship
          (("via", Json.str ref.via) ∷ []) edges
          (
            different ref.from ref.to other,
            inr (record { reference = ref; listed = listed; from = refl; to = refl }),
          )
          h)
  ]

-- Every edge of the dataflow lens joins two different resources, and stands on a fact: an ingress rule
-- that lets a group with the source into a group with the target, or a reference from the one to the
-- other.
pub analyze_dataflow-IsBacked :
    (input : DataflowInput) → All (IsBacked input) (analyze_dataflow input)
unfolding analyze_dataflow
analyze_dataflow-IsBacked input =
    foldl-keeps visit_reference (Backed input) (λ ref. Member ref input.references)
      (λ s ref m i. Backed-visit_reference input s ref m i) input.references
      (All-members input.references)
      (foldl (visit_rule (members_by_group input.members)) [] input.ingress)
      (foldl-keeps (visit_rule (members_by_group input.members)) (Backed input)
        (λ rule. Member rule input.ingress) (λ s rule m i. Backed-visit_rule input s rule m i)
        input.ingress (All-members input.ingress) [] tt)
