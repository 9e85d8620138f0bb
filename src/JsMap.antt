-- ===== src/JsMap.antt =====
-- `Map<string, V>`: the entries in the order of insertion. To set a key again keeps its place.
pub mod Group
pub mod Collect
pub mod Index
use kumomiru.Prelude.{
  String, ◌||◌, ◌≡◌, refl, Bool, Option, none, some, List, [], ◌∷◌, map, arith, ◌==◌, eq_iff,
  if◌then◌else◌, is_some, All, Bool-cases, inl, inr, subst, false, true,
}

module _ {ℓ} {V : Type ℓ} where
  unfoldable pub get : String → List (String × V) → Option V
  get k [] = none
  get k ((j, v) ∷ m) = let rest = get k m in if j == k then some v else rest

  unfoldable pub has : String → List (String × V) → Bool
  unfolding get
  has k m = is_some (get k m)

  unfoldable pub set : String → V → List (String × V) → List (String × V)
  set k v [] = (k, v) ∷ []
  set k v ((j, w) ∷ m) = let rest = set k v m in if j == k then (j, v) ∷ m else (j, w) ∷ rest

  -- `if (!m.has(k)) m.set(k, v)`
  unfoldable pub set_new : String → V → List (String × V) → List (String × V)
  unfolding has set
  set_new k v m = if has k m then m else set k v m

  abbrev pub keys : List (String × V) → List String
  keys = map (λ e. e.0)

  abbrev pub values : List (String × V) → List V
  values = map (λ e. e.1)

  pub get-set :
      (j k : String) (v : V) (m : List (String × V))
      → get j (set k v m) ≡ (if k == j then some v else get j m)
  unfolding get set
  get-set j k v [] = refl
  get-set j k v ((i, w) ∷ m) = ground (arith, get-set j k v m, eq_iff i k, eq_iff k j, eq_iff i j)

  pub get-set_new :
      (j k : String) (v : V) (m : List (String × V))
      → get j (set_new k v m) ≡ (if has k m then get j m else if k == j then some v else get j m)
  unfolding set_new
  get-set_new j k v m = ground (arith, get-set j k v m)

  pub All-values-set {κ} :
      (P : V → Type κ) (k : String) (v : V) (m : List (String × V))
      → P v
      → All P (values m)
      → All P (values (set k v m))
  unfolding set
  All-values-set P k v [] p h = (p, tt)
  All-values-set P k v ((j, w) ∷ m) p h = elim (Bool-cases (j == k)) [
    | inl same ↦ rw same (p, h.1)
    | inr other ↦ rw other (h.0, All-values-set P k v m p h.1)
  ]

  pub All-values-set_new {κ} :
      (P : V → Type κ) (k : String) (v : V) (m : List (String × V))
      → P v
      → All P (values m)
      → All P (values (set_new k v m))
  unfolding set_new
  All-values-set_new P k v m p h = elim (Bool-cases (has k m)) [
    | inl old ↦ rw old h
    | inr new ↦ rw new (All-values-set P k v m p h)
  ]

  pub has-set_new :
      (j k : String) (v : V) (m : List (String × V)) → has j (set_new k v m) ≡ (has j m || k == j)
  unfolding has
  has-set_new j k v m = ground (arith, get-set_new j k v m, eq_iff k j)

  pub All-values-get :
      (P : V → Type 0) (k : String) (v : V) (m : List (String × V))
      → All P (values m)
      → get k m ≡ some v
      → P v
  unfolding get
  All-values-get P k v [] h e = cc
  All-values-get P k v ((j, w) ∷ m) h e = elim (Bool-cases (j == k)) [
    | inl same ↦ let here : w ≡ v = ground arith in subst P here h.0
    | inr other ↦ All-values-get P k v m h.1 (ground arith)
  ]
