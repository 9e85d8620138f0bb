-- ===== src/Graph/Json.antt =====
-- JSON values as the passes use them: member access, spread, and `JSON.stringify`.
use Prim.Native.Char.{Char, code}
use kumomiru.Prelude.{
  ℕ, zero, suc, ◌/◌, ◌%◌, String, true, false, Option, none, some, if◌then◌else◌, ◌+ₛ◌, or_else,
  ◌==◌, text_lt, nat_eq, ltb, ◌≡◌, refl,
}
use kumomiru.Graph.Schema.{
  Number, Json, Items, Members, pos, negsuc, undefined, null, bool, num, str, arr, obj, nil, cons,
  end, member,
}

-- `o[key]`
unfoldable pub member_of : String → Members → Json
member_of k end = undefined
member_of k (member j v ms) = let rest = member_of k ms in if j == k then v else rest

-- `{ ...o, [key]: v }`
unfoldable pub set_member : String → Json → Members → Members
set_member k v end = member k v end
set_member k v (member j w ms) =
    let rest = set_member k v ms in if j == k then member j v ms else member j w rest

-- A digit of decimal text.
digit : ℕ → String
digit zero = "0"
digit (suc zero) = "1"
digit (suc (suc zero)) = "2"
digit (suc (suc (suc zero))) = "3"
digit (suc (suc (suc (suc zero)))) = "4"
digit (suc (suc (suc (suc (suc zero))))) = "5"
digit (suc (suc (suc (suc (suc (suc zero)))))) = "6"
digit (suc (suc (suc (suc (suc (suc (suc zero))))))) = "7"
digit (suc (suc (suc (suc (suc (suc (suc (suc zero)))))))) = "8"
digit _ = "9"

show_fuel : ℕ → ℕ → String
unfolding digit
show_fuel zero n = ""
show_fuel (suc fuel) n =
    let more = show_fuel fuel (n / 10) +ₛ digit (n % 10) in if ltb n 10 then digit n else more

-- `String(n)`. A number has no more digits than its value plus one.
unfoldable pub show : ℕ → String
unfolding show_fuel
show n = show_fuel (suc n) n

-- The members that `...value` copies: of a list and a text, those of the indices.
unfoldable pub index_items : ℕ → Items → Members
unfolding show
index_items i nil = end
index_items i (cons v vs) = member (show i) v (index_items (suc i) vs)

index_chars : ℕ → String → Members
unfolding show
index_chars i String.[] = end
index_chars i (String.◌∷◌ c s) =
    member (show i) (str (String.◌∷◌ c String.[])) (index_chars (suc i) s)

unfoldable pub spread : Json → Members
unfolding index_items index_chars
spread (obj ms) = ms
spread (arr vs) = index_items 0 vs
spread (str s) = index_chars 0 s
spread _ = end

-- The replacer of `stable`: the members of every object by ascending key.
insert_member : String → Json → Members → Members
insert_member k v end = member k v end
insert_member k v (member j w ms) =
    let rest = insert_member k v ms in
    if text_lt k j then member k v (member j w ms) else member j w rest

mutual
  sort_keys : Json → Json
  sort_keys (arr vs) = arr (sort_items vs)
  sort_keys (obj ms) = obj (sort_members ms)
  sort_keys undefined = undefined
  sort_keys null = null
  sort_keys (bool b) = bool b
  sort_keys (num n) = num n
  sort_keys (str s) = str s

  sort_items : Items → Items
  sort_items nil = nil
  sort_items (cons v vs) = cons (sort_keys v) (sort_items vs)

  sort_members : Members → Members
  sort_members end = end
  sort_members (member k v ms) = insert_member k (sort_keys v) (sort_members ms)

hex_digit : ℕ → String
unfolding digit
hex_digit n =
    if ltb n 10
    then digit n
    else if nat_eq n 10
    then "a"
    else if nat_eq n 11
    then "b"
    else if nat_eq n 12
    then "c"
    else if nat_eq n 13
    then "d"
    else if nat_eq n 14
    then "e"
    else "f"

-- The escapes of a JSON text.
escape : Char → String
unfolding hex_digit
escape c =
    let n = code c in
    if nat_eq n b'"'
    then "\\\""
    else if nat_eq n b'\\'
    then "\\\\"
    else if nat_eq n 8
    then "\\b"
    else if nat_eq n 9
    then "\\t"
    else if nat_eq n 10
    then "\\n"
    else if nat_eq n 12
    then "\\f"
    else if nat_eq n 13
    then "\\r"
    else if ltb n 32
    then "\\u00" +ₛ hex_digit (n / 16) +ₛ hex_digit (n % 16)
    else String.◌∷◌ c String.[]

escape_all : String → String
unfolding escape
escape_all String.[] = ""
escape_all (String.◌∷◌ c s) = escape c +ₛ escape_all s

quote : String → String
unfolding escape_all
quote s = "\"" +ₛ escape_all s +ₛ "\""

number_text : Number → String
unfolding show
number_text (pos n) = show n
number_text (negsuc n) = "-" +ₛ show (suc n)

abbrev comma : String → String
comma rest = if rest == "" then "" else "," +ₛ rest

-- A member whose value is undefined is left out.
abbrev member_text : String → Option String → String → String
member_text k none rest = rest
member_text k (some v) rest = quote k +ₛ ":" +ₛ v +ₛ comma rest

mutual
  unfolding quote number_text

  stringify : Json → Option String
  stringify undefined = none
  stringify null = some "null"
  stringify (bool true) = some "true"
  stringify (bool false) = some "false"
  stringify (num n) = some (number_text n)
  stringify (str s) = some (quote s)
  stringify (arr vs) = some ("[" +ₛ items_text vs +ₛ "]")
  stringify (obj ms) = some ("{" +ₛ members_text ms +ₛ "}")

  items_text : Items → String
  items_text nil = ""
  items_text (cons v vs) = or_else (stringify v) "null" +ₛ comma (items_text vs)

  members_text : Members → String
  members_text end = ""
  members_text (member k v ms) = member_text k (stringify v) (members_text ms)

-- packages/graph/src/diff.ts: `stable`.
unfoldable pub stable : Json → Option String
unfolding text_lt sort_keys sort_items sort_members insert_member stringify items_text members_text
stable v = stringify (sort_keys v)

stable_example :
    stable (
      obj (
        member "b"
          (num (pos 12))
          (member "a" (arr (cons (str "x\"") (cons undefined nil))) (member "c" undefined end))))
    ≡ some "{\"a\":[\"x\\\"\",null],\"b\":12}"
unfolding stable
stable_example = refl
