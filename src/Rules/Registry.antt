-- ===== src/Rules/Registry.antt =====
-- packages/rules/src/registry.ts: the registered rules, as the map of `#rules`. An `Error` is `inr`.
pub mod Complete
use Prim.Native.String.{◌++◌ as text_append}
use kumomiru.Prelude.{
  String, ◌∷◌, ◌⊎◌, inl, inr, Option, none, some, List, [], or_else, find_first, if◌then◌else◌,
}
use kumomiru.JsMap
use kumomiru.Rules.{Rule, base_of}

abbrev pub Registry : Type 0
Registry = List (String × Rule)

abbrev still_there : String → Option String → Registry → Registry ⊎ String
still_there id none done = inl done
still_there id (some old) done = inr (
    text_append "rule "
      (text_append id (text_append " replaces " (text_append old ", which is still registered"))))

unfoldable pub register : Rule → Registry → Registry ⊎ String
unfolding JsMap.has JsMap.set find_first
register rule rules =
    let id = (base_of rule).id in
    if JsMap.has id rules
    then inr (text_append "duplicate rule id: " id)
    else still_there id
        (find_first (λ old. JsMap.has old rules) (or_else (base_of rule).replaces []))
        (JsMap.set id rule rules)

abbrev pub list : Registry → List Rule
list rules = JsMap.values rules

-- `for (const rule of rules) r.register(rule)`, which stops at the first error.
unfoldable pub register_all : List Rule → Registry ⊎ String → Registry ⊎ String
unfolding register
register_all rules (inr error) = inr error
register_all [] (inl r) = inl r
register_all (rule ∷ rules) (inl r) = register_all rules (register rule r)
