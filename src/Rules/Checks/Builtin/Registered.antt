-- ===== src/Rules/Checks/Builtin/Registered.antt =====
-- The registration of the built-in rules goes well.
use kumomiru.Prelude.{
  ℕ, String, ◌≡◌, refl, inl, inr, Bool, true, false, is_some, Option, none, some, List, [], ◌∷◌,
  map, All-mono, any, any-false, arith, not, ◌&&◌,
}
use kumomiru.JsSet
use kumomiru.Rules.{base_of}
use kumomiru.Rules.Registry.{Registry, list}
use kumomiru.Rules.Registry.Complete.{ReplaceNothing, rule_id, register_all-cases}
use kumomiru.Rules.Checks.Builtin.{builtin_rules, default_registry}

is_some-false : {A : Type 0} (o : Option A) → is_some o ≡ false → o ≡ none
is_some-false none h = refl
is_some-false (some a) h = cc h

none_replaces :
    (date_parse : String → Option ℕ)
    → any (λ r. is_some (base_of r).replaces) (builtin_rules date_parse) ≡ false
unfolding any
none_replaces date_parse = refl

pub builtin_rules-ReplaceNothing :
    (date_parse : String → Option ℕ) → ReplaceNothing (builtin_rules date_parse)
builtin_rules-ReplaceNothing date_parse =
    All-mono (λ r. is_some (base_of r).replaces ≡ false) (λ r. (base_of r).replaces ≡ none)
      (λ r h. is_some-false (base_of r).replaces h) (builtin_rules date_parse)
      (any-false (λ r. is_some (base_of r).replaces) (builtin_rules date_parse)
        (none_replaces date_parse))

abbrev are_distinct : List String → Bool
are_distinct [] = true
are_distinct (x ∷ xs) = not (JsSet.has x xs) && are_distinct xs

Distinct-of_are_distinct : (xs : List String) → are_distinct xs ≡ true → JsSet.Distinct xs
Distinct-of_are_distinct [] h = tt
Distinct-of_are_distinct (x ∷ xs) h =
    (ground (arith, h), Distinct-of_are_distinct xs (ground (arith, h)))

ids_are_distinct :
    (date_parse : String → Option ℕ) → are_distinct (map rule_id (builtin_rules date_parse)) ≡ true
unfolding JsSet.has
ids_are_distinct date_parse = refl

-- The default registry is made without an error, and lists the built-in rules in their order.
pub default_registry-list :
    (date_parse : String → Option ℕ)
    → (reg : Registry) × (default_registry date_parse ≡ inl reg)
      × (list reg ≡ builtin_rules date_parse)
unfolding default_registry
default_registry-list date_parse =
    let rules = builtin_rules date_parse in
    elim (register_all-cases rules (builtin_rules-ReplaceNothing date_parse)) [
      | inl (distinct, reg, made, listed) ↦ (reg, made, listed)
      | inr (twice, error, ended, repeat) ↦
          elim (twice
            (Distinct-of_are_distinct (map rule_id rules) (ids_are_distinct date_parse))) [ ]
    ]
