-- ===== src/Adapters/Policy.antt =====
-- packages/adapters/src/analysis/policy.ts: the evaluator of identity policies. The flag `i` of a
-- regular expression folds the letters of ASCII; the other letters that it folds are kept as they are.
pub mod Laws
use kumomiru.Prelude.{
  ℕ, ◌-◌, String, Bool, true, false, not, ◌&&◌, ◌||◌, Option, none, some, List, [], ◌∷◌, ◌++◌, map,
  any, if◌then◌else◌, or_else, nat_eq, leb,
}
use kumomiru.JsSet
use kumomiru.Glob.{Token, star, any_one, lit, codes, matches}

pub data Effect : Type 0 where
  permit refuse : Effect

pub data PrincipalType : Type 0 where
  aws service federated canonical_user anyone : PrincipalType

pub record PolicyPrincipal : Type 0 where
  pub type : PrincipalType
  pub value : String
  pub negated : Bool

-- `effect: "Allow" | "Deny"` is `permit` and `refuse`.
pub record PolicyStatement : Type 0 where
  pub effect : Effect
  pub principals : Option (List PolicyPrincipal)
  pub actions : Option (List String)
  pub not_actions : Option (List String)
  pub resources : Option (List String)
  pub not_resources : Option (List String)
  pub condition_keys : Option (List String)

pub data Decision : Type 0 where
  allow deny implicit_deny : Decision

pub record EvalResult : Type 0 where
  pub decision : Decision
  pub condition_keys : List String

abbrev pub token : ℕ → Token
token c = if nat_eq c b'*' then star else if nat_eq c b'?' then any_one else lit c

-- `globToRegExp(pattern, "").test(text)`
unfoldable pub glob_test : String → String → Bool
unfolding matches
glob_test pattern text = matches (map token (codes pattern)) (codes text)

abbrev pub fold_case : ℕ → ℕ
fold_case c = if leb b'a' c && leb c b'z' then c - 32 else c

-- `globToRegExp(pattern, "i").test(text)`
unfoldable pub glob_test_i : String → String → Bool
unfolding matches
glob_test_i pattern text =
    matches (map (λ c. token (fold_case c)) (codes pattern)) (map fold_case (codes text))

-- The two lists of a statement: the positive one decides where both are there.
abbrev pub covered : (String → Bool) → Option (List String) → Option (List String) → Bool
covered test (some xs) _ = any test xs
covered test none (some ys) = not (any test ys)
covered test none none = false

unfoldable pub action_matches : PolicyStatement → String → Bool
unfolding glob_test_i any
action_matches stmt action = covered (λ a. glob_test_i a action) stmt.actions stmt.not_actions

unfoldable pub resource_matches : PolicyStatement → String → Bool
unfolding glob_test any
resource_matches stmt resource =
    covered (λ r. glob_test r resource) stmt.resources stmt.not_resources

abbrev pub is_absent {ℓ} : {A : Type ℓ} → Option A → Bool
is_absent none = true
is_absent (some a) = false

unfoldable pub statement_covers_resource : PolicyStatement → String → Bool
unfolding resource_matches
statement_covers_resource stmt resource =
    is_absent stmt.resources && is_absent stmt.not_resources || resource_matches stmt resource

-- Neither half of the test of the loop says `continue`.
unfoldable pub applies : String → String → PolicyStatement → Bool
unfolding action_matches resource_matches
applies action resource stmt = action_matches stmt action && resource_matches stmt resource

abbrev pub refuses : PolicyStatement → Bool
refuses s = elim s.effect [ permit ↦ false | refuse ↦ true ]

abbrev pub outcome : Bool → List String → EvalResult
outcome allowed keys =
    if allowed
    then record { decision = allow; condition_keys = JsSet.of_list keys }
    else record { decision = implicit_deny; condition_keys = [] }

-- The loop, with its two variables.
unfoldable pub evaluate_from :
    String → String → Bool → List String → List PolicyStatement → EvalResult
unfolding applies JsSet.of_list
evaluate_from action resource allowed keys [] = outcome allowed keys
evaluate_from action resource allowed keys (stmt ∷ rest) =
    let skipped = evaluate_from action resource allowed keys rest in
    let granted =
      evaluate_from action resource true (keys ++ or_else stmt.condition_keys []) rest in
    if not (applies action resource stmt)
    then skipped
    else if refuses stmt
    then record { decision = deny; condition_keys = [] }
    else granted

unfoldable pub evaluate : List PolicyStatement → String → String → EvalResult
unfolding evaluate_from
evaluate statements action resource = evaluate_from action resource false [] statements
