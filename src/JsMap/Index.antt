-- ===== src/JsMap/Index.antt =====
-- `new Map(xs.map((x) => [x.id, x]))`, which keeps the last of each id at the place of the first.
use kumomiru.Prelude.{
  String, ◌≡◌, refl, sym, ap, ◌∙◌, false, some, List, [], ◌∷◌, map, arith, ◌==◌, eq_iff, eq_refl,
  All, Bool-cases, inl, inr,
}
use kumomiru.JsSet
use kumomiru.JsMap.{get, has, set, keys, values, All-values-set}
use kumomiru.JsMap.Collect.{has-keys}

module _ {ℓ} {V : Type ℓ} where
  keys-set : (k : String) (v : V) (m : List (String × V)) → keys (set k v m) ≡ JsSet.add k (keys m)
  unfolding set JsSet.add JsSet.has
  keys-set k v [] = refl
  keys-set k v ((j, w) ∷ m) = ground (arith, keys-set k v m)

module _ {ℓ} {V : Type ℓ} (id : V → String) where
  unfoldable pub index_from : List (String × V) → List V → List (String × V)
  index_from m [] = m
  index_from m (x ∷ xs) = index_from (set (id x) x m) xs

  unfoldable pub index : List V → List (String × V)
  unfolding index_from
  index xs = index_from [] xs

  All-values-index_from {κ} :
      (P : V → Type κ) (m : List (String × V)) (xs : List V)
      → All P (values m)
      → All P xs
      → All P (values (index_from m xs))
  unfolding index_from
  All-values-index_from P m [] hm hx = hm
  All-values-index_from P m (x ∷ xs) hm hx =
      All-values-index_from P (set (id x) x m) xs (All-values-set P (id x) x m hx.0 hm) hx.1

  pub All-values-index {κ} : (P : V → Type κ) (xs : List V) → All P xs → All P (values (index xs))
  unfolding index
  All-values-index P xs h = All-values-index_from P [] xs tt h

  keys-index_from :
      (m : List (String × V)) (xs : List V)
      → keys (index_from m xs) ≡ JsSet.add_all (keys m) (map id xs)
  unfolding index_from JsSet.add_all
  keys-index_from m [] = refl
  keys-index_from m (x ∷ xs) = rw (keys-index_from (set (id x) x m) xs, keys-set)

  abbrev pub KeyedBy : List (String × V) → Type 0
  KeyedBy m = All (λ e. id e.1 ≡ e.0) m

  KeyedBy-set : (x : V) (m : List (String × V)) → KeyedBy m → KeyedBy (set (id x) x m)
  unfolding set
  KeyedBy-set x [] h = (refl, tt)
  KeyedBy-set x ((j, w) ∷ m) h = elim (Bool-cases (j == id x)) [
    | inl same ↦ rw same (sym ((eq_iff j (id x)).0 same), h.1)
    | inr other ↦ rw other (h.0, KeyedBy-set x m h.1)
  ]

  KeyedBy-index_from : (m : List (String × V)) (xs : List V) → KeyedBy m → KeyedBy (index_from m xs)
  unfolding index_from
  KeyedBy-index_from m [] h = h
  KeyedBy-index_from m (x ∷ xs) h = KeyedBy-index_from (set (id x) x m) xs (KeyedBy-set x m h)

  pub KeyedBy-index : (xs : List V) → KeyedBy (index xs)
  unfolding index
  KeyedBy-index xs = KeyedBy-index_from [] xs tt

  id-get : (k : String) (m : List (String × V)) (v : V) → KeyedBy m → get k m ≡ some v → id v ≡ k
  unfolding get
  id-get k [] v h e = cc e
  id-get k ((j, w) ∷ m) v h e = elim (Bool-cases (j == k)) [
    | inl same ↦ let here : w ≡ v = ground arith in ap id (sym here) ∙ h.0 ∙ (eq_iff j k).0 same
    | inr other ↦ id-get k m v h.1 (ground arith)
  ]

  -- What a key looks up has the key for its id.
  pub id-get-index : (k : String) (xs : List V) (v : V) → get k (index xs) ≡ some v → id v ≡ k
  id-get-index k xs v = id-get k (index xs) v (KeyedBy-index xs)

  pub keys-index : (xs : List V) → keys (index xs) ≡ JsSet.of_list (map id xs)
  unfolding index JsSet.of_list
  keys-index xs = keys-index_from [] xs

  pub has-index : (k : String) (xs : List V) → has k (index xs) ≡ JsSet.has k (map id xs)
  has-index k xs =
      has-keys k (index xs) ∙ ap (JsSet.has k) (keys-index xs) ∙ JsSet.has-of_list k (map id xs)

module _ {ℓ} {V : Type ℓ} where
  -- Every entry is what its key looks up.
  abbrev pub IsFound : List (String × V) → List (String × V) → Type ℓ
  IsFound m sub = All (λ e. get e.0 m ≡ some e.1) sub

  IsFound-cons :
      (j : String) (v : V) (m sub : List (String × V))
      → JsSet.has j (keys sub) ≡ false
      → IsFound m sub
      → IsFound ((j, v) ∷ m) sub
  unfolding get JsSet.has
  IsFound-cons j v m [] h f = tt
  IsFound-cons j v m (e ∷ sub) h f =
      (ground (arith, eq_iff j e.0, eq_iff e.0 j, f.0), IsFound-cons j v m sub (ground arith) f.1)

  pub IsFound-of_Distinct : (m : List (String × V)) → JsSet.Distinct (keys m) → IsFound m m
  unfolding get
  IsFound-of_Distinct [] d = tt
  IsFound-of_Distinct ((j, v) ∷ m) d =
      (rw (eq_refl j) refl, IsFound-cons j v m m d.0 (IsFound-of_Distinct m d.1))

pub Distinct-index {ℓ} :
    {V : Type ℓ} (id : V → String) (xs : List V) → JsSet.Distinct (keys (index id xs))
Distinct-index id xs = rw (keys-index id xs) (JsSet.Distinct-of_list (map id xs))
