-- ===== src/JsMap/Collect.antt =====
-- The loop `for (const x of xs) if (!m.has(x.id)) m.set(x.id, x)`, which keeps the first of each id.
use kumomiru.Prelude.{
  String, ◌≡◌, refl, ap, ◌∙◌, false, Option, none, some, List, [], ◌∷◌, ◌++◌, map, arith, ◌==◌,
  eq_iff, if◌then◌else◌, All, All-append, find_first, Bool-cases, inl, inr,
}
use kumomiru.JsSet
use kumomiru.JsMap.{get, has, set, set_new, keys, values, get-set_new}

module _ {ℓ} {V : Type ℓ} where
  pub has-keys : (k : String) (m : List (String × V)) → has k m ≡ JsSet.has k (keys m)
  unfolding has JsSet.has
  has-keys k [] = refl
  has-keys k ((j, v) ∷ m) = ground (arith, has-keys k m)

  set-of_new :
      (k : String) (v : V) (m : List (String × V)) → has k m ≡ false → set k v m ≡ m ++ (k, v) ∷ []
  unfolding set has
  set-of_new k v [] h = refl
  set-of_new k v ((j, w) ∷ m) h = ground (arith, set-of_new k v m)

  pub set_new-eq :
      (k : String) (v : V) (m : List (String × V))
      → set_new k v m ≡ (if has k m then m else m ++ (k, v) ∷ [])
  unfolding set_new
  set_new-eq k v m = ground (arith, set-of_new k v m)

  keys-append : (m n : List (String × V)) → keys (m ++ n) ≡ keys m ++ keys n
  keys-append [] n = refl
  keys-append ((k, v) ∷ m) n = ap (◌∷◌ k) (keys-append m n)

  pub keys-set_new :
      (k : String) (v : V) (m : List (String × V)) → keys (set_new k v m) ≡ JsSet.add k (keys m)
  unfolding JsSet.add
  keys-set_new k v m = ground (arith, set_new-eq k v m, keys-append m ((k, v) ∷ []), has-keys k m)

module _ {ℓ} {V : Type ℓ} (id : V → String) where
  unfoldable pub collect : List (String × V) → List V → List (String × V)
  collect m [] = m
  collect m (x ∷ xs) = collect (set_new (id x) x m) xs

  pub collect-append :
      (m : List (String × V)) (xs ys : List V) → collect m (xs ++ ys) ≡ collect (collect m xs) ys
  unfolding collect
  collect-append m [] ys = refl
  collect-append m (x ∷ xs) ys = collect-append (set_new (id x) x m) xs ys

  pub keys-collect :
      (m : List (String × V)) (xs : List V)
      → keys (collect m xs) ≡ JsSet.add_all (keys m) (map id xs)
  unfolding collect JsSet.add_all
  keys-collect m [] = refl
  keys-collect m (x ∷ xs) = rw (keys-collect (set_new (id x) x m) xs, keys-set_new)

  abbrev KeyedBy : List (String × V) → Type 0
  KeyedBy m = All (λ e. id e.1 ≡ e.0) m

  KeyedBy-set_new : (x : V) (m : List (String × V)) → KeyedBy m → KeyedBy (set_new (id x) x m)
  KeyedBy-set_new x m h = elim (Bool-cases (has (id x) m)) [
    | inl old ↦ rw (set_new-eq, old) h
    | inr new ↦ rw (set_new-eq, new) (All-append _ m ((id x, x) ∷ []) h (refl, tt))
  ]

  KeyedBy-collect : (m : List (String × V)) (xs : List V) → KeyedBy m → KeyedBy (collect m xs)
  unfolding collect
  KeyedBy-collect m [] h = h
  KeyedBy-collect m (x ∷ xs) h = KeyedBy-collect (set_new (id x) x m) xs (KeyedBy-set_new x m h)

  ids-values : (m : List (String × V)) → KeyedBy m → map id (values m) ≡ keys m
  ids-values [] h = refl
  ids-values (e ∷ m) h = cc (h.0, ids-values m h.1)

  -- The ids of what is kept are the ids of the input, each once.
  pub ids-collect : (xs : List V) → map id (values (collect [] xs)) ≡ JsSet.of_list (map id xs)
  unfolding JsSet.of_list
  ids-collect xs = ids-values (collect [] xs) (KeyedBy-collect [] xs tt) ∙ keys-collect [] xs

  values-append : (m n : List (String × V)) → values (m ++ n) ≡ values m ++ values n
  values-append [] n = refl
  values-append (e ∷ m) n = ap (◌∷◌ e.1) (values-append m n)

  pub All-values-collect {κ} :
      (P : V → Type κ) (m : List (String × V)) (xs : List V)
      → All P (values m)
      → All P xs
      → All P (values (collect m xs))
  unfolding collect
  All-values-collect P m [] hm hx = hm
  All-values-collect P m (x ∷ xs) hm hx = All-values-collect P (set_new (id x) x m) xs kept hx.1
    where
      kept : All P (values (set_new (id x) x m))
      kept = elim (Bool-cases (has (id x) m)) [
        | inl old ↦ rw (set_new-eq, old) hm
        | inr new ↦
            rw (set_new-eq, new, values-append) (All-append P (values m) (x ∷ []) hm (hx.0, tt))
      ]

  abbrev first_some : Option V → Option V → Option V
  first_some none o = o
  first_some (some v) o = some v

  get-collect :
      (k : String) (m : List (String × V)) (xs : List V)
      → get k (collect m xs) ≡ first_some (get k m) (find_first (λ x. id x == k) xs)
  unfolding collect has find_first
  get-collect k m [] = ground arith
  get-collect k m (x ∷ xs) =
      ground
        (arith, get-collect k (set_new (id x) x m) xs, get-set_new k (id x) x m, eq_iff (id x) k)

  find-values :
      (k : String) (m : List (String × V))
      → KeyedBy m
      → find_first (λ x. id x == k) (values m) ≡ get k m
  unfolding get find_first
  find-values k [] h = refl
  find-values k (e ∷ m) h = ground (arith, find-values k m h.1, h.0)

  -- What is kept under an id is the first of the input with it.
  pub find-collect :
      (k : String) (xs : List V)
      → find_first (λ x. id x == k) (values (collect [] xs)) ≡ find_first (λ x. id x == k) xs
  unfolding get
  find-collect k xs = find-values k (collect [] xs) (KeyedBy-collect [] xs tt) ∙ get-collect k [] xs
