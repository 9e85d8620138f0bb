-- ===== src/Adapters/Ingress/RoundTrip.antt =====
-- What the rules read of what the adapters store.
use kumomiru.Prelude.{String, ◌≡◌, refl, ap, ap₂, Option, none, some, List, [], ◌∷◌, map, or_else}
use kumomiru.Graph.Schema.{Number, CloudNode}
use kumomiru.Graph.Json.{member_of}
use kumomiru.Adapters.Ingress.{SourceRule, stored_rule, ingress_attribute, stored_rules, texts_json}
use kumomiru.Graph.Values.{field, texts_of, list_of}
use kumomiru.Rules.Checks.{attribute}
use kumomiru.Rules.Checks.Ingress.{IngressRule, ingress_rule, ingress_of}

-- The rule that was collected, in the words of the rules.
abbrev pub as_collected : SourceRule → IngressRule
as_collected r = record {
  from_port = r.from_port;
  to_port = r.to_port;
  protocol = r.ip_protocol;
  cidrs = r.cidrs;
  source_group_ids = or_else r.source_group_ids [];
}

texts_of-texts_json : (ss : List String) → texts_of (list_of (texts_json ss)) ≡ ss
texts_of-texts_json [] = refl
texts_of-texts_json (s ∷ ss) = ap (◌∷◌ s) (texts_of-texts_json ss)

same_lists :
    (f t : Option Number) (p : Option String) (cidrs : List String) (groups : Option (List String))
    → Path IngressRule
        (record {
          from_port = f;
          to_port = t;
          protocol = p;
          cidrs = texts_of (list_of (texts_json cidrs));
          source_group_ids = texts_of (list_of (texts_json (or_else groups [])));
        })
        (as_collected (record {
          from_port = f;
          to_port = t;
          ip_protocol = p;
          cidrs = cidrs;
          source_group_ids = groups;
        }))
same_lists f t p cidrs groups =
    ap₂
      (λ c g. record { from_port = f; to_port = t; protocol = p; cidrs = c; source_group_ids = g })
      (texts_of-texts_json cidrs) (texts_of-texts_json (or_else groups []))

read_back :
    (f t : Option Number) (p : Option String) (cidrs : List String) (groups : Option (List String))
    → (let r : SourceRule = record {
      from_port = f;
      to_port = t;
      ip_protocol = p;
      cidrs = cidrs;
      source_group_ids = groups;
    } in
        ingress_rule (stored_rule r) ≡ as_collected r)
unfolding stored_rule field member_of
read_back none none none cidrs groups = same_lists none none none cidrs groups
read_back none none (some c) cidrs groups = same_lists none none (some c) cidrs groups
read_back none (some b) none cidrs groups = same_lists none (some b) none cidrs groups
read_back none (some b) (some c) cidrs groups = same_lists none (some b) (some c) cidrs groups
read_back (some a) none none cidrs groups = same_lists (some a) none none cidrs groups
read_back (some a) none (some c) cidrs groups = same_lists (some a) none (some c) cidrs groups
read_back (some a) (some b) none cidrs groups = same_lists (some a) (some b) none cidrs groups
read_back (some a) (some b) (some c) cidrs groups =
    same_lists (some a) (some b) (some c) cidrs groups

map-stored :
    (rs : List SourceRule) → map ingress_rule (list_of (stored_rules rs)) ≡ map as_collected rs
map-stored [] = refl
map-stored (r ∷ rs) =
    ap₂ ◌∷◌ (read_back r.from_port r.to_port r.ip_protocol r.cidrs r.source_group_ids)
      (map-stored rs)

-- What the adapters store of the collected ingress rules as the attribute `ingress` of a node, the
-- checks read back from the node: the same rules in the same order, with the same ports, protocol, CIDR
-- blocks and source groups.
pub ingress_of-ingress_attribute :
    (n : CloudNode) (rules : List SourceRule)
    → attribute n "ingress" ≡ ingress_attribute rules
    → ingress_of n ≡ map as_collected rules
unfolding ingress_of ingress_attribute
ingress_of-ingress_attribute n rules e = rw (ingress_of, e) (map-stored rules)
