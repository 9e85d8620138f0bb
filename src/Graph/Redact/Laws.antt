-- ===== src/Graph/Redact/Laws.antt =====
-- What redaction keeps and what it drops.
use kumomiru.Prelude.{
  String, ◌≡◌, refl, ◌⊎◌, inl, inr, true, false, Option, none, some, List, [], ◌∷◌, map, arith,
  ◌==◌, eq_iff, All, Bool-cases,
}
use kumomiru.JsSet
use kumomiru.Graph.Schema.{
  Json, Items, Members, Attributes, CloudNode, Finding, Graph, undefined, null, bool, num, str, arr,
  obj, nil, cons, end, member,
}
use kumomiru.Graph.Json.{member_of, set_member, spread}
use kumomiru.Graph.Integrity.{check_referential_integrity}
use kumomiru.Graph.Integrity.Shape.{KeepsNode, KeepsFinding, check-map}
use kumomiru.Graph.Redact.{
  safe_string_attr_keys, safe_array_attr_keys, public_cidrs, is_secret_marker, keep_public,
  public_of, redact_rule, redact_rules, redact_ingress, put, redact_attribute, redact_attributes,
  redact_node, redact_finding, redact_graph,
}

redact_node-keeps : KeepsNode redact_node
unfolding redact_node
redact_node-keeps = record { id = λ n. refl; parent = λ n. refl }

redact_finding-keeps : KeepsFinding redact_finding
unfolding redact_finding
redact_finding-keeps = record { id = λ f. refl; node_id = λ f. refl }

-- Redaction keeps the topology: the referential checks report the same problems, in the same order,
-- as on the graph itself.
pub check-redact_graph :
    (g : Graph) → check_referential_integrity (redact_graph g) ≡ check_referential_integrity g
unfolding redact_graph
check-redact_graph g =
    check-map redact_node-keeps (record { id = λ e. refl; source = λ e. refl; target = λ e. refl })
      redact_finding-keeps g (redact_graph g) refl refl refl

-- A list of CIDRs that names only the two that stand for everyone.
abbrev pub ArePublic : Items → Type 0
ArePublic nil = Unit
ArePublic (cons (str c) cs) = (JsSet.has c public_cidrs ≡ true) × ArePublic cs
ArePublic _ = ⊥

keep_public-ArePublic : (cs : Items) → ArePublic (keep_public cs)
unfolding keep_public
keep_public-ArePublic nil = tt
keep_public-ArePublic (cons (str c) cs) = elim (Bool-cases (JsSet.has c public_cidrs)) [
  | inl hit ↦ rw hit (hit, keep_public-ArePublic cs)
  | inr miss ↦ rw miss (keep_public-ArePublic cs)
]
keep_public-ArePublic (cons _ cs) = keep_public-ArePublic cs

-- Whatever is read as the CIDRs of a redacted rule is a list of public ones.
abbrev pub HasPublicCidrs : Json → Type 0
HasPublicCidrs (obj ms) = (cs : Items) × (member_of "cidrs" ms ≡ arr cs) × ArePublic cs
HasPublicCidrs _ = ⊥

abbrev pub AllRules : Items → Type 0
AllRules nil = Unit
AllRules (cons r rs) = HasPublicCidrs r × AllRules rs

member_of-set_member : (k : String) (v : Json) (ms : Members) → member_of k (set_member k v ms) ≡ v
unfolding member_of set_member
member_of-set_member k v end = ground (arith, eq_iff k k)
member_of-set_member k v (member j w ms) = ground (arith, eq_iff j k, member_of-set_member k v ms)

redact_rules-AllRules : (rs : Items) → AllRules (redact_rules rs)
unfolding redact_rules redact_rule
redact_rules-AllRules nil = tt
redact_rules-AllRules (cons r rs) = (
  (
    public_of (member_of "cidrs" (spread r)),
    member_of-set_member "cidrs" _ (spread r),
    public_of-ArePublic (member_of "cidrs" (spread r)),
  ),
  redact_rules-AllRules rs,
)
  where
    public_of-ArePublic : (v : Json) → ArePublic (public_of v)
    public_of-ArePublic (arr cs) = keep_public-ArePublic cs
    public_of-ArePublic _ = tt

-- What may be left of an attribute: by its value, and for a text or a list by its key too.
abbrev pub IsShareable : String × Json → Type 0
IsShareable (key, num n) = Unit
IsShareable (key, bool b) = Unit
IsShareable (key, str s) = JsSet.has key safe_string_attr_keys ≡ true
IsShareable (key, arr vs) =
    (JsSet.has key safe_array_attr_keys ≡ true) ⊎ ((key ≡ "ingress") × AllRules vs)
IsShareable (key, obj ms) = member_of "secretPresent" ms ≡ bool true
IsShareable (key, undefined) = key ≡ "ingress"
IsShareable (key, null) = ⊥

redact_ingress-IsShareable : (v : Json) → IsShareable ("ingress", redact_ingress v)
unfolding redact_ingress
redact_ingress-IsShareable (arr rs) = inr (refl, redact_rules-AllRules rs)
redact_ingress-IsShareable _ = refl

abbrev Shareable : String → Option Json → Type 0
Shareable key none = Unit
Shareable key (some v) = IsShareable (key, v)

-- The tests after the one for "ingress".
other-IsShareable :
    (key : String) (v : Json) → (key == "ingress") ≡ false → Shareable key (redact_attribute key v)
unfolding redact_attribute is_secret_marker
other-IsShareable key (num n) h = rw h tt
other-IsShareable key (bool b) h = rw h tt
other-IsShareable key (str s) h = elim (Bool-cases (JsSet.has key safe_string_attr_keys)) [
  | inl hit ↦ rw (h, hit) hit
  | inr miss ↦ rw (h, miss) tt
]
other-IsShareable key (arr vs) h = elim (Bool-cases (JsSet.has key safe_array_attr_keys)) [
  | inl hit ↦ rw (h, hit) (inl hit)
  | inr miss ↦ rw (h, miss) tt
]
other-IsShareable key (obj ms) h = marker (member_of "secretPresent" ms) refl
  where
    marker :
        (m : Json)
        → member_of "secretPresent" ms ≡ m
        → Shareable key (redact_attribute key (obj ms))
    marker (bool true) e = rw (h, e) e
    marker (bool false) e = rw (h, e) tt
    marker undefined e = rw (h, e) tt
    marker null e = rw (h, e) tt
    marker (num n) e = rw (h, e) tt
    marker (str s) e = rw (h, e) tt
    marker (arr vs) e = rw (h, e) tt
    marker (obj os) e = rw (h, e) tt
other-IsShareable key undefined h = rw h tt
other-IsShareable key null h = rw h tt

attribute-IsShareable : (key : String) (v : Json) → Shareable key (redact_attribute key v)
unfolding redact_attribute
attribute-IsShareable key v = elim (Bool-cases (key == "ingress")) [
  | inl same ↦ rw (same, (eq_iff key "ingress").0 same) (redact_ingress-IsShareable v)
  | inr other ↦ other-IsShareable key v other
]

put-IsShareable :
    (key : String) (o : Option Json) (rest : Attributes)
    → Shareable key o
    → All IsShareable rest
    → All IsShareable (put key o rest)
put-IsShareable key none rest h hs = hs
put-IsShareable key (some w) rest h hs = (h, hs)

attributes-IsShareable : (attrs : Attributes) → All IsShareable (redact_attributes attrs)
unfolding redact_attributes
attributes-IsShareable [] = tt
attributes-IsShareable ((key, v) ∷ more) =
    put-IsShareable key (redact_attribute key v) (redact_attributes more)
      (attribute-IsShareable key v) (attributes-IsShareable more)

abbrev pub IsRedacted : CloudNode → Type 0
IsRedacted n =
    All IsShareable n.attributes × All {A = String × String} (λ t. t.1 ≡ "[redacted]") n.tags

redact_node-IsRedacted : (n : CloudNode) → IsRedacted (redact_node n)
unfolding redact_node
redact_node-IsRedacted n = (attributes-IsShareable n.attributes, blank n.tags)
  where
    blank :
        (ts : List (String × String))
        → All {A = String × String} (λ t. t.1 ≡ "[redacted]") (map (λ t. (t.0, "[redacted]")) ts)
    blank [] = tt
    blank (t ∷ ts) = (refl, blank ts)

redact_nodes-IsRedacted : (ns : List CloudNode) → All IsRedacted (map redact_node ns)
redact_nodes-IsRedacted [] = tt
redact_nodes-IsRedacted (n ∷ ns) = (redact_node-IsRedacted n, redact_nodes-IsRedacted ns)

redact_findings-no_evidence :
    (fs : List Finding) → All (λ f. f.evidence ≡ none) (map redact_finding fs)
unfolding redact_finding
redact_findings-no_evidence [] = tt
redact_findings-no_evidence (f ∷ fs) = (refl, redact_findings-no_evidence fs)

-- Redaction drops the values: in every node of the redacted graph what stays of the attributes is
-- a number, a Boolean, a secret marker, a text or a list under a safe key, `undefined` for ingress
-- that was no list, or ingress rules in which only the two public CIDRs are left; every tag has the
-- value "[redacted]"; and no finding has evidence.
pub redact_graph-IsRedacted :
    (g : Graph)
    → All IsRedacted (redact_graph g).nodes × All (λ f. f.evidence ≡ none) (redact_graph g).findings
unfolding redact_graph
redact_graph-IsRedacted g =
    (redact_nodes-IsRedacted g.nodes, redact_findings-no_evidence g.findings)
