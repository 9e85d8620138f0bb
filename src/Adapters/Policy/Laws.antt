-- ===== src/Adapters/Policy/Laws.antt =====
-- The decision of the evaluator.
use kumomiru.Prelude.{
  String, ◌≡◌, refl, sym, ◌∙◌, inl, inr, Bool, true, false, not, ◌&&◌, ◌||◌, List, [], ◌∷◌, ◌++◌,
  any, if◌then◌else◌, or_else, flat_map, keep_if, arith, Bool-cases,
}
use mathlib.Core.List.{append-nil, append_assoc}
use kumomiru.Adapters.Policy.{
  PolicyStatement, EvalResult, deny, applies, refuses, evaluate_from, evaluate, outcome,
}

-- A statement that refuses the action on the resource.
abbrev pub is_deny : String → String → PolicyStatement → Bool
is_deny action resource s = applies action resource s && refuses s

abbrev pub is_grant : String → String → PolicyStatement → Bool
is_grant action resource s = applies action resource s && not (refuses s)

abbrev pub keys_of : PolicyStatement → List String
keys_of s = or_else s.condition_keys []

-- The result read off the statements as a set: no order of theirs counts for the decision.
abbrev pub verdict : String → String → List PolicyStatement → EvalResult
verdict action resource ss =
    if any (is_deny action resource) ss
    then record { decision = deny; condition_keys = [] }
    else outcome (any (is_grant action resource) ss)
        (flat_map keys_of (keep_if (is_grant action resource) ss))

verdict_from : String → String → Bool → List String → List PolicyStatement → EvalResult
verdict_from action resource allowed keys ss =
    if any (is_deny action resource) ss
    then record { decision = deny; condition_keys = [] }
    else outcome (allowed || any (is_grant action resource) ss)
        (keys ++ flat_map keys_of (keep_if (is_grant action resource) ss))

evaluate_from-eq :
    (action resource : String) (allowed : Bool) (keys : List String) (ss : List PolicyStatement)
    → evaluate_from action resource allowed keys ss ≡ verdict_from action resource allowed keys ss
unfolding evaluate_from verdict_from any keep_if flat_map
evaluate_from-eq action resource allowed keys [] = rw (append-nil keys) ground arith
evaluate_from-eq action resource allowed keys (s ∷ ss) =
    elim (Bool-cases (applies action resource s)) [
      | inr passed ↦ rw passed (evaluate_from-eq action resource allowed keys ss)
      | inl hit ↦ elim (Bool-cases (refuses s)) [
        | inl bad ↦ rw (hit, bad) refl
        | inr good ↦
            rw
              (
                hit,
                good,
                sym (
                    append_assoc keys (keys_of s)
                      (flat_map keys_of (keep_if (is_grant action resource) ss))),
              )
              (evaluate_from-eq action resource true (keys ++ keys_of s) ss ∙ ground arith)
      ]
    ]

-- The evaluator denies where some statement that matches refuses, wherever it stands; else it allows
-- where some statement that matches permits, with the condition keys of all of those; else it denies
-- implicitly.
pub evaluate-eq :
    (action resource : String) (ss : List PolicyStatement)
    → evaluate ss action resource ≡ verdict action resource ss
unfolding evaluate verdict_from
evaluate-eq action resource ss = evaluate_from-eq action resource false [] ss
