-- ===== src/JsMap/Group.antt =====
-- A map of lists that a loop fills, as `m.set(k, [...(m.get(k) ?? []), v])`.
use kumomiru.Prelude.{
  String, ◌≡◌, refl, sym, ◌∙◌, List, [], ◌∷◌, ◌++◌, map, foldl, ◌==◌, eq_iff, or_else,
  if◌then◌else◌, keep_if, Bool-cases, inl, inr,
}
use mathlib.Core.List.{append-nil, append_assoc}
use kumomiru.JsMap.{get, set, get-set}

module _ {ℓ} {V : Type ℓ} where
  abbrev pub group_at : String → List (String × List V) → List V
  group_at k m = or_else (get k m) []

  unfoldable pub push : String → V → List (String × List V) → List (String × List V)
  unfolding set get
  push k v m = set k (group_at k m ++ v ∷ []) m

  pub group_at-push :
      (j k : String) (v : V) (m : List (String × List V))
      → group_at j (push k v m) ≡ (if k == j then group_at j m ++ v ∷ [] else group_at j m)
  unfolding push
  group_at-push j k v m = elim (Bool-cases (k == j)) [
    | inl same ↦
        let at = (eq_iff k j).0 same in rw (get-set j k (group_at k m ++ v ∷ []) m, same, at) refl
    | inr other ↦ rw (get-set j k (group_at k m ++ v ∷ []) m, other) refl
  ]

module _ {A : Type 0} {V : Type 0} (key : A → String) (value : A → V) where
  abbrev pub push_item : List (String × List V) → A → List (String × List V)
  push_item m a = push (key a) (value a) m

  -- What the loop adds under a key.
  pub group_at-foldl :
      (k : String) (xs : List A) (m : List (String × List V))
      → group_at k (foldl push_item m xs) ≡ group_at k m ++ map value (keep_if (λ a. key a == k) xs)
  unfolding keep_if
  group_at-foldl k [] m = sym (append-nil (group_at k m))
  group_at-foldl k (x ∷ xs) m = elim (Bool-cases (key x == k)) [
    | inl same ↦
        group_at-foldl k xs (push_item m x)
        ∙ rw (group_at-push k (key x) (value x) m, same)
            (append_assoc (group_at k m) (value x ∷ []) (map value (keep_if (λ a. key a == k) xs)))
    | inr other ↦
        group_at-foldl k xs (push_item m x) ∙ rw (group_at-push k (key x) (value x) m, other) refl
  ]

  -- The groups of a map that starts empty.
  pub group_at-of :
      (k : String) (xs : List A)
      → group_at k (foldl push_item [] xs) ≡ map value (keep_if (λ a. key a == k) xs)
  unfolding get
  group_at-of k xs = group_at-foldl k xs []
