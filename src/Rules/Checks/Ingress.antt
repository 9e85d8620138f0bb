-- ===== src/Rules/Checks/Ingress.antt =====
-- packages/rules/src/checks/ingress.ts: the ingress rules of a security group, and the ports that they
-- admit. A set of ports is the list of its members.
pub mod Ports
use kumomiru.Prelude.{
  ℕ, zero, suc, String, Bool, true, false, not, ◌&&◌, ◌||◌, Option, none, some, List, [], ◌∷◌, map,
  if◌then◌else◌, ◌==◌, or_else, nat_eq, any, keep_if, is_some, ◌+ₛ◌,
}
use kumomiru.Graph.Schema.{Number, Json, CloudNode}
use kumomiru.Graph.Values.{field, elements, list_of, list_or_none, number_of, text_of, texts_of}
use kumomiru.Rules.Checks.{attribute, number_le, number_is, next_number, show_number}

pub record IngressRule : Type 0 where
  pub from_port : Option Number
  pub to_port : Option Number
  pub protocol : Option String
  pub cidrs : List String
  pub source_group_ids : List String

abbrev pub ingress_rule : Json → IngressRule
ingress_rule v = record {
  from_port = number_of (field "fromPort" v);
  to_port = number_of (field "toPort" v);
  protocol = text_of (field "protocol" v);
  cidrs = texts_of (list_or_none (field "cidrs" v));
  source_group_ids = texts_of (list_or_none (field "sourceGroupIds" v));
}

-- `PUBLIC.has(c)`
abbrev pub is_public_cidr : String → Bool
is_public_cidr c = c == "0.0.0.0/0" || c == "::/0"

unfoldable pub ingress_of : CloudNode → List IngressRule
unfolding attribute field
ingress_of n = elim (elements (attribute n "ingress")) [
  | none ↦ []
  | some vs ↦ map ingress_rule (list_of vs)
]

unfoldable pub is_public_rule : IngressRule → Bool
unfolding any
is_public_rule r = any is_public_cidr r.cidrs

abbrev pub is_all_protocols : IngressRule → Bool
is_all_protocols r = elim r.protocol [ none ↦ true | some p ↦ p == "-1" || p == "all" ]

abbrev pub has_ports : IngressRule → Bool
has_ports r = elim r.protocol [
  | none ↦ false
  | some p ↦ p == "tcp" || p == "udp" || p == "6" || p == "17"
]

abbrev pub from_of : IngressRule → Number
from_of r = or_else r.from_port (Number.pos 0)

abbrev pub to_of : IngressRule → Number
to_of r = or_else r.to_port (Number.pos 65535)

abbrev pub is_end : Number → Bool
is_end to = number_is 0 to || number_is 65535 to

unfoldable pub covers_port : IngressRule → ℕ → Bool
covers_port r port =
    if not (is_all_protocols r || has_ports r)
    then false
    else if is_all_protocols r && not (is_some r.from_port) && not (is_some r.to_port)
    then true
    else if number_is 0 (from_of r) && is_end (to_of r) && is_all_protocols r
    then true
    else number_le (from_of r) (Number.pos port) && number_le (Number.pos port) (to_of r)

abbrev pub has_port : List ℕ → Number → Bool
has_port allowed (Number.pos p) = any (nat_eq p) allowed
has_port allowed (Number.negsuc p) = false

-- The loop from the port `p` on. The rounds end with the one in which `p - from > 70000`.
unfoldable pub reaches_outside : List ℕ → ℕ → Number → Number → Bool
unfolding any
reaches_outside allowed zero p to = false
reaches_outside allowed (suc rounds) p to =
    let rest = reaches_outside allowed rounds (next_number p) to in
    if not (number_le p to) then false else if not (has_port allowed p) then true else rest

abbrev pub all_rounds : ℕ
all_rounds = 70002

abbrev pub is_end_or_zero : Option Number → Bool
is_end_or_zero none = false
is_end_or_zero (some to) = is_end to

abbrev pub starts_at_zero : IngressRule → Bool
starts_at_zero r = elim r.from_port [
  | none ↦ true
  | some from ↦ number_is 0 from && is_end_or_zero r.to_port
]

unfoldable pub covers_port_outside : IngressRule → List ℕ → Bool
unfolding reaches_outside
covers_port_outside r allowed =
    if is_all_protocols r && starts_at_zero r
    then true
    else if not (is_all_protocols r || has_ports r)
    then false
    else reaches_outside allowed all_rounds (from_of r) (to_of r)

unfoldable pub public_cidrs : IngressRule → List String
unfolding keep_if
public_cidrs r = keep_if is_public_cidr r.cidrs

abbrev same_port : Option Number → Option Number → Bool
same_port (some a) (some b) = number_le a b && number_le b a
same_port none none = true
same_port _ _ = false

abbrev shown : Option Number → String
shown none = "undefined"
shown (some n) = show_number n

unfoldable pub port_label : IngressRule → String
unfolding show_number
port_label r =
    if not (is_some r.from_port) && not (is_some r.to_port)
    then "all"
    else if same_port r.from_port r.to_port
    then shown r.from_port
    else show_number (from_of r) +ₛ "-" +ₛ show_number (to_of r)
