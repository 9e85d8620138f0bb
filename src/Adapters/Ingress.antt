-- ===== src/Adapters/Ingress.antt =====
-- packages/adapters/src/common/ingress.ts: the ingress rules as the adapters store them on a node.
-- The result is the JSON value of `attributes.ingress`, as the rules read it.
pub mod RoundTrip
use kumomiru.Prelude.{String, Option, none, some, List, [], ◌∷◌, map, or_else}
use kumomiru.Graph.Schema.{Number, Json, Items, Members}

-- A rule as the collectors give it.
pub record SourceRule : Type 0 where
  pub from_port : Option Number
  pub to_port : Option Number
  pub ip_protocol : Option String
  pub cidrs : List String
  pub source_group_ids : Option (List String)

-- `...(v !== undefined ? { key: v } : {})`
abbrev pub optional_member : String → Option Json → Members → Members
optional_member key none ms = ms
optional_member key (some v) ms = Members.member key v ms

abbrev pub number_json : Option Number → Option Json
number_json none = none
number_json (some n) = some (Json.num n)

abbrev pub text_json : Option String → Option Json
text_json none = none
text_json (some s) = some (Json.str s)

abbrev pub texts_json : List String → Items
texts_json [] = Items.nil
texts_json (s ∷ ss) = Items.cons (Json.str s) (texts_json ss)

unfoldable pub stored_rule : SourceRule → Json
stored_rule r = Json.obj (
    optional_member "fromPort" (number_json r.from_port) (
      optional_member "toPort" (number_json r.to_port) (
        optional_member "protocol" (text_json r.ip_protocol) (
          Members.member "cidrs" (Json.arr (texts_json r.cidrs)) (
            Members.member "sourceGroupIds" (Json.arr (texts_json (or_else r.source_group_ids [])))
              Members.end)))))

abbrev pub stored_rules : List SourceRule → Items
stored_rules [] = Items.nil
stored_rules (r ∷ rs) = Items.cons (stored_rule r) (stored_rules rs)

unfoldable pub ingress_attribute : List SourceRule → Json
unfolding stored_rule
ingress_attribute rules = Json.arr (stored_rules rules)
