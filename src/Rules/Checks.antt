-- ===== src/Rules/Checks.antt =====
-- packages/rules/src/checks: what the checks of the built-in rules share. An attribute has the type
-- `unknown`; a cast to a type of the source (`as string[]`, `as IngressRule[]`) is modelled for values
-- of that type, and reads what has another type there as absent.
pub mod Ingress
pub mod Ec2
pub mod Rds
pub mod Native
pub mod S3
pub mod StorageEncryption
pub mod Audit
pub mod Iam
pub mod TrancheB
pub mod Builtin
use kumomiru.Prelude.{
  ℕ, zero, suc, String, Bool, true, false, not, ◌&&◌, ◌||◌, Option, none, some, List, [], ◌∷◌, map,
  if◌then◌else◌, ◌==◌, join, ◌+ₛ◌, or_else, ltb, leb, nat_eq, any,
}
use kumomiru.JsMap
use kumomiru.Graph.Schema.{
  Number, pos, negsuc, Json, Items, Members, Attributes, CloudNode, Framework, ControlRef,
  Remediation,
}
use kumomiru.Graph.Json.{member_of, show}
use kumomiru.Rules.{RuleOutcome, RuleContext}

abbrev pub fsbp : String → ControlRef
fsbp id = record { framework = Framework.fsbp; id = id }

abbrev pub csf : String → ControlRef
csf id = record { framework = Framework.nist_csf_2; id = id }

-- `node.attributes[key]`
unfoldable pub attribute : CloudNode → String → Json
unfolding JsMap.get
attribute n key = or_else (JsMap.get key n.attributes) Json.undefined

-- `key in node.attributes`
unfoldable pub has_attribute : CloudNode → String → Bool
unfolding JsMap.has
has_attribute n key = JsMap.has key n.attributes

-- `a <= b`, `a < b` and `a === b` on integers.
abbrev pub number_le : Number → Number → Bool
number_le (Number.pos a) (Number.pos b) = leb a b
number_le (Number.pos a) (Number.negsuc b) = false
number_le (Number.negsuc a) (Number.pos b) = true
number_le (Number.negsuc a) (Number.negsuc b) = leb b a

abbrev pub number_lt : Number → Number → Bool
number_lt a b = not (number_le b a)

abbrev pub number_is : ℕ → Number → Bool
number_is n (Number.pos a) = nat_eq a n
number_is n (Number.negsuc a) = false

-- `n + 1`
abbrev pub next_number : Number → Number
next_number (Number.pos a) = Number.pos (suc a)
next_number (Number.negsuc zero) = Number.pos 0
next_number (Number.negsuc (suc a)) = Number.negsuc a

unfoldable pub show_number : Number → String
unfolding show
show_number (Number.pos a) = show a
show_number (Number.negsuc a) = "-" +ₛ show (suc a)

-- `{ status: "fail", detail }`
abbrev pub fail_with : String → RuleOutcome
fail_with detail = RuleOutcome.fail detail none none

abbrev pub fail_if : Bool → String → RuleOutcome
fail_if b detail = if b then fail_with detail else RuleOutcome.pass

abbrev pub pass_if : Bool → String → RuleOutcome
pass_if b detail = if b then RuleOutcome.pass else fail_with detail

-- `list.length ? { status: "fail", detail: list.join(sep) } : { status: "pass" }`
abbrev pub fail_with_any : String → List String → RuleOutcome
fail_with_any sep [] = RuleOutcome.pass
fail_with_any sep (g ∷ gs) = fail_with (join sep (g ∷ gs))

-- `if (!(key in node.attributes)) return { status: "not-applicable" };`
abbrev pub when_present : CloudNode → String → RuleOutcome → RuleOutcome
when_present n key out = if has_attribute n key then out else RuleOutcome.not_applicable

-- Of an outcome and of a list, what the theorems on the checks speak of.
abbrev pub fails : RuleOutcome → Bool
fails RuleOutcome.pass = false
fails RuleOutcome.not_applicable = false
fails (RuleOutcome.fail _ _ _) = true

abbrev pub is_cons {ℓ} : {A : Type ℓ} → List A → Bool
is_cons [] = false
is_cons (x ∷ xs) = true
