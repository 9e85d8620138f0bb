-- ===== src/Graph/Values.antt =====
-- JSON values of the type `unknown`, as the rules and the adapters read them. A cast to a type of the
-- source (`as string[]`) reads what has another type there as absent.
use kumomiru.Prelude.{zero, String, Bool, true, false, not, Option, none, some, List, [], ◌∷◌, ◌==◌}
use kumomiru.Graph.Schema.{Number, Json, Items}
use kumomiru.Graph.Json.{member_of}

-- `v === true` and `v === false`
abbrev pub is_true : Json → Bool
is_true (Json.bool b) = b
is_true _ = false

abbrev pub is_false : Json → Bool
is_false (Json.bool b) = not b
is_false _ = false

-- `v === s`
abbrev pub is_text : String → Json → Bool
is_text s (Json.str t) = t == s
is_text s _ = false

-- `Boolean(v)`
abbrev pub is_truthy : Json → Bool
is_truthy Json.undefined = false
is_truthy Json.null = false
is_truthy (Json.bool b) = b
is_truthy (Json.num (Number.pos zero)) = false
is_truthy (Json.num _) = true
is_truthy (Json.str s) = not (s == "")
is_truthy (Json.arr _) = true
is_truthy (Json.obj _) = true

-- `Array.isArray(v)`, with the elements.
abbrev pub elements : Json → Option Items
elements (Json.arr vs) = some vs
elements _ = none

abbrev pub list_of : Items → List Json
list_of Items.nil = []
list_of (Items.cons v vs) = v ∷ list_of vs

-- `v.key` of an object.
unfoldable pub field : String → Json → Json
unfolding member_of
field key (Json.obj ms) = member_of key ms
field key _ = Json.undefined

-- `v as T | undefined` for a number, a text and a list.
abbrev pub number_of : Json → Option Number
number_of (Json.num n) = some n
number_of _ = none

abbrev pub text_of : Json → Option String
text_of (Json.str s) = some s
text_of _ = none

abbrev pub texts_of : List Json → List String
texts_of [] = []
texts_of (Json.str s ∷ vs) = s ∷ texts_of vs
texts_of (_ ∷ vs) = texts_of vs

abbrev pub list_or_none : Json → List Json
list_or_none (Json.arr vs) = list_of vs
list_or_none _ = []

abbrev pub items : List Json → Items
items [] = Items.nil
items (v ∷ vs) = Items.cons v (items vs)
