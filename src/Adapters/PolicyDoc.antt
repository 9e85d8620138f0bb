-- ===== src/Adapters/PolicyDoc.antt =====
-- packages/adapters/src/common/policy-doc.ts: a policy document as the statements that the evaluator
-- reads. A cast to a text or a list of texts is modelled for values of that type.
pub mod Malformed
use kumomiru.Prelude.{
  String, Bool, true, false, not, ◌&&◌, Option, none, some, List, [], ◌∷◌, ◌++◌, map, flat_map,
  if◌then◌else◌, ◌==◌,
}
use kumomiru.JsSet
use kumomiru.Graph.Schema.{Json, Items, Members}
use kumomiru.Graph.Json.{index_items}
use kumomiru.Graph.Values.{is_text, is_truthy, list_of, field, texts_of}
use kumomiru.Adapters.Policy.{PolicyStatement, PolicyPrincipal, PrincipalType, Effect}

-- `trim`, `JSON.parse` and `decodeURIComponent`, with none for an exception.
pub record Builtins : Type 0 where
  pub trim : String → String
  pub json_parse : String → Option Json
  pub decode_uri_component : String → Option String

-- `typeof v === "object"` of a value that is not null.
abbrev pub is_object : Json → Bool
is_object (Json.obj ms) = true
is_object (Json.arr vs) = true
is_object _ = false

abbrev is_undefined : Json → Bool
is_undefined Json.undefined = true
is_undefined _ = false

abbrev entries_of : Members → List (String × Json)
entries_of Members.end = []
entries_of (Members.member k v ms) = (k, v) ∷ entries_of ms

-- `Object.entries(v)`
unfoldable pub entries : Json → List (String × Json)
unfolding index_items
entries (Json.obj ms) = entries_of ms
entries (Json.arr vs) = entries_of (index_items 0 vs)
entries _ = []

abbrev pub as_array : Json → List Json
as_array Json.undefined = []
as_array (Json.arr vs) = list_of vs
as_array v = v ∷ []

-- `...(s[key] ? { …: asArray(s[key]) } : {})`
unfoldable pub listed : String → Json → Option (List String)
unfolding field
listed key s = let v = field key s in if is_truthy v then some (texts_of (as_array v)) else none

unfoldable pub condition_keys_of : Json → List String
unfolding entries JsSet.of_list
condition_keys_of condition =
    if not (is_object condition)
    then []
    else JsSet.of_list (
        flat_map (λ op. if is_object op.1 then map (λ e. e.0) (entries op.1) else [])
          (entries condition))

abbrev principal_type : String → PrincipalType
principal_type key =
    if key == "Service"
    then PrincipalType.service
    else if key == "Federated"
    then PrincipalType.federated
    else if key == "CanonicalUser"
    then PrincipalType.canonical_user
    else PrincipalType.aws

abbrev pub anyone : PolicyPrincipal
anyone = record { type = PrincipalType.anyone; value = "*"; negated = false }

abbrev is_aws : PrincipalType → Bool
is_aws t = elim t [ PrincipalType.aws ↦ true | _ ↦ false ]

abbrev principal_of : PrincipalType → String → PolicyPrincipal
principal_of t v =
    if v == "*" && is_aws t then anyone else record { type = t; value = v; negated = false }

unfoldable pub project_principals : Json → Json → Option (List PolicyPrincipal)
unfolding entries
project_principals principal not_principal =
    if not (is_undefined not_principal)
    then some (record { type = PrincipalType.anyone; value = "*"; negated = true } ∷ [])
    else if is_undefined principal
    then none
    else if is_text "*" principal
    then some (anyone ∷ [])
    else if not (is_object principal)
    then none
    else some (
        flat_map (λ e. map (principal_of (principal_type e.0)) (texts_of (as_array e.1)))
          (entries principal))

unfoldable pub project_statement : Json → PolicyStatement
unfolding listed field condition_keys_of project_principals
project_statement s = record {
  effect = if is_text "Deny" (field "Effect" s) then Effect.refuse else Effect.permit;
  principals = project_principals (field "Principal" s) (field "NotPrincipal" s);
  actions = listed "Action" s;
  not_actions = listed "NotAction" s;
  resources = listed "Resource" s;
  not_resources = listed "NotResource" s;
  condition_keys =
      let condition = field "Condition" s in
      if is_truthy condition then some (condition_keys_of condition) else none;
}

unfoldable pub project_statements : List Json → List PolicyStatement
unfolding project_statement
project_statements [] = []
project_statements (raw ∷ rest) =
    let projected = project_statements rest in
    if is_object raw then project_statement raw ∷ projected else projected

module _ (js : Builtins) where
  abbrev parse_decoded : Option String → Json
  parse_decoded none = Json.undefined
  parse_decoded (some text) = elim (js.json_parse text) [ some v ↦ v | none ↦ Json.undefined ]

  unfoldable pub parse_policy_doc : Json → Json
  parse_policy_doc (Json.obj ms) = Json.obj ms
  parse_policy_doc (Json.arr vs) = Json.arr vs
  parse_policy_doc (Json.str s) =
      let text = js.trim s in
      if text == "" then Json.undefined else elim (js.json_parse text) [
        | some v ↦ v
        | none ↦ parse_decoded (js.decode_uri_component text)
      ]
  parse_policy_doc _ = Json.undefined

  unfoldable pub project_policy_document : Json → List PolicyStatement
  unfolding parse_policy_doc project_statements field
  project_policy_document doc =
      project_statements (as_array (field "Statement" (parse_policy_doc doc)))
