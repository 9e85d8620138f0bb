-- ===== src/Db/Table.antt =====
-- A table with a text for its primary key, as the list of its rows. The statements that the
-- repositories prepare are compositions of these operations.
use kumomiru.Prelude.{
  String, ◌≡◌, refl, sym, ap, ◌∙◌, Bool, true, false, ◌&&◌, Option, none, some, List, [], ◌∷◌, ◌++◌,
  map, arith, ◌==◌, eq_iff, eq_refl, if◌then◌else◌, is_some, All, keep_if, Bool-cases, Option-cases,
  subst, inl, inr, ℕ, ◌+◌, ◌≤◌, length, text_le, any,
}
use kumomiru.JsSet
use mathlib.Core.Option

module _ {ℓ} {Row : Type ℓ} (id : Row → String) where
  -- SELECT * FROM t WHERE id = ?
  unfoldable pub get : String → List Row → Option Row
  get i [] = none
  get i (r ∷ t) = let rest = get i t in if id r == i then some r else rest

  -- UPDATE t SET … WHERE id = ?
  unfoldable pub update : String → (Row → Row) → List Row → List Row
  update i f [] = []
  update i f (r ∷ t) = (if id r == i then f r else r) ∷ update i f t

  -- The primary key: no id stands in two rows.
  abbrev pub HasKey : List Row → Type 0
  HasKey t = JsSet.Distinct (map id t)

  pub get-update :
      (i j : String) (f : Row → Row) (t : List Row)
      → ((r : Row) → id (f r) ≡ id r)
      → get j (update i f t) ≡ (if i == j then Option.map f (get j t) else get j t)
  unfolding get update
  get-update i j f [] k = ground arith
  get-update i j f (r ∷ t) k =
      ground (arith, get-update i j f t k, k r, eq_iff (id r) i, eq_iff i j, eq_iff (id r) j)

  -- INSERT INTO t
  pub get-insert :
      (j : String) (r : Row) (t : List Row)
      → get (id r) t ≡ none
      → get j (t ++ r ∷ []) ≡ (if id r == j then some r else get j t)
  unfolding get
  get-insert j r [] h = refl
  get-insert j r (q ∷ t) h =
      ground (arith, get-insert j r t, eq_iff (id q) (id r), eq_iff (id r) j, eq_iff (id q) j)

  pub ids-update :
      (i : String) (f : Row → Row) (t : List Row)
      → ((r : Row) → id (f r) ≡ id r)
      → map id (update i f t) ≡ map id t
  unfolding update
  ids-update i f [] k = refl
  ids-update i f (r ∷ t) k = ground (arith, ids-update i f t k, k r)

  pub has-ids : (i : String) (t : List Row) → JsSet.has i (map id t) ≡ is_some (get i t)
  unfolding get JsSet.has
  has-ids i [] = refl
  has-ids i (r ∷ t) = ground (arith, has-ids i t)

  ids-insert : (r : Row) (t : List Row) → map id (t ++ r ∷ []) ≡ map id t ++ id r ∷ []
  ids-insert r [] = refl
  ids-insert r (q ∷ t) = ap (◌∷◌ (id q)) (ids-insert r t)

  pub HasKey-insert :
      (r : Row) (t : List Row) → HasKey t → get (id r) t ≡ none → HasKey (t ++ r ∷ [])
  HasKey-insert r t k h =
      rw ids-insert (JsSet.Distinct-concat (map id t) (id r) k (has-ids (id r) t ∙ ap is_some h))

  abbrev pub satisfies : (Row → Bool) → Option Row → Bool
  satisfies p none = false
  satisfies p (some r) = p r

  -- SELECT id FROM t WHERE p
  pub has-selected :
      (p : Row → Bool) (i : String) (t : List Row)
      → HasKey t
      → JsSet.has i (map id (keep_if p t)) ≡ satisfies p (get i t)
  unfolding get keep_if JsSet.has
  has-selected p i [] k = refl
  has-selected p i (r ∷ t) k = ground (arith, has-selected p i t k.1, has-ids i t, eq_iff (id r) i)

  -- With a key every row is the one that its id selects.
  abbrev pub AreStored : List Row → List Row → Type ℓ
  AreStored t rs = All (λ r. get (id r) t ≡ some r) rs

  AreStored-cons :
      (q : Row) (t rs : List Row)
      → JsSet.has (id q) (map id rs) ≡ false
      → AreStored t rs
      → AreStored (q ∷ t) rs
  unfolding get JsSet.has
  AreStored-cons q t [] h s = tt
  AreStored-cons q t (r ∷ rs) h s = (
    ground (arith, eq_iff (id q) (id r), eq_iff (id r) (id q), s.0),
    AreStored-cons q t rs (ground arith) s.1,
  )

  pub AreStored-self : (t : List Row) → HasKey t → AreStored t t
  unfolding get
  AreStored-self [] k = tt
  AreStored-self (q ∷ t) k =
      (rw (eq_refl (id q)) refl, AreStored-cons q t t k.0 (AreStored-self t k.1))

  abbrev pub selected : (Row → Bool) → Option Row → Option Row
  selected p none = none
  selected p (some r) = if p r then some r else none

  pub get-keep_if :
      (p : Row → Bool) (t : List Row) (j : String)
      → HasKey t
      → get j (keep_if p t) ≡ selected p (get j t)
  unfolding keep_if get
  get-keep_if p [] j k = refl
  get-keep_if p (r ∷ t) j k =
      ground (arith, get-keep_if p t j k.1, has-ids j t, eq_iff (id r) j, k.0)

  pub HasKey-keep_if : (p : Row → Bool) (t : List Row) → HasKey t → HasKey (keep_if p t)
  unfolding keep_if
  HasKey-keep_if p [] k = tt
  HasKey-keep_if p (r ∷ t) k = elim (Bool-cases (p r)) [
    | inl kept ↦ rw kept (
      has-selected p (id r) t k.1 ∙ absent (get (id r) t) (sym (has-ids (id r) t) ∙ k.0),
      HasKey-keep_if p t k.1,
    )
    | inr dropped ↦ rw dropped (HasKey-keep_if p t k.1)
  ]
    where
      absent : (o : Option Row) → is_some o ≡ false → satisfies p o ≡ false
      absent none h = refl
      absent (some q) h = cc

module _ {ℓ} {Row : Type ℓ} where
  -- UPDATE t SET … WHERE p
  unfoldable pub update_where : (Row → Bool) → (Row → Row) → List Row → List Row
  update_where p f [] = []
  update_where p f (r ∷ t) = (if p r then f r else r) ∷ update_where p f t

  -- SELECT COUNT(*) FROM t WHERE p
  abbrev pub count : (Row → Bool) → List Row → ℕ
  count p t = length (keep_if p t)

  pub count-update_where-le :
      (q p : Row → Bool) (f : Row → Row)
      → ((r : Row) → p r ≡ true → q (f r) ≡ true → q r ≡ true)
      → (t : List Row) → count q (update_where p f t) ≤ count q t
  unfolding update_where keep_if
  count-update_where-le q p f h [] = omega arith
  count-update_where-le q p f h (r ∷ t) = ground (arith, count-update_where-le q p f h t, h r)

  -- The rows that an update brings into a count are among those that `m` counts.
  pub count-update_where-add :
      (q p m : Row → Bool) (f : Row → Row)
      → ((r : Row) → p r ≡ true → q (f r) ≡ true → m r ≡ true)
      → (t : List Row) → count q (update_where p f t) ≤ count q t + count m t
  unfolding update_where keep_if
  count-update_where-add q p m f h [] = omega arith
  count-update_where-add q p m f h (r ∷ t) = ground (arith, count-update_where-add q p m f h t, h r)

  pub count-none : (p : Row → Bool) (t : List Row) → any p t ≡ false → count p t ≡ 0
  unfolding keep_if any
  count-none p [] h = refl
  count-none p (r ∷ t) h = ground (arith, count-none p t)

  -- The rows that an update takes out of a count.
  pub count-update_where-out :
      (q p : Row → Bool) (f : Row → Row)
      → ((r : Row) → p r ≡ true → q r ≡ true)
      → ((r : Row) → p r ≡ true → q (f r) ≡ false)
      → (t : List Row) → count q (update_where p f t) + count p t ≡ count q t
  unfolding update_where keep_if
  count-update_where-out q p f before after [] = refl
  count-update_where-out q p f before after (r ∷ t) =
      ground (arith, count-update_where-out q p f before after t, before r, after r)

  pub count-insert :
      (q : Row → Bool) (t : List Row) (r : Row)
      → count q (t ++ r ∷ []) ≡ count q t + (if q r then 1 else 0)
  unfolding keep_if
  count-insert q [] r = ground arith
  count-insert q (s ∷ t) r = ground (arith, count-insert q t r)

  pub count-keep_if-le : (q p : Row → Bool) (t : List Row) → count q (keep_if p t) ≤ count q t
  unfolding keep_if
  count-keep_if-le q p [] = omega arith
  count-keep_if-le q p (r ∷ t) = ground (arith, count-keep_if-le q p t)

  pub count-le :
      (p q : Row → Bool)
      → ((r : Row) → p r ≡ true → q r ≡ true)
      → (t : List Row) → count p t ≤ count q t
  unfolding keep_if
  count-le p q h [] = omega arith
  count-le p q h (r ∷ t) = ground (arith, count-le p q h t, h r)

module _ {ℓ} {Row : Type ℓ} (key : Row → String) where
  -- ORDER BY key LIMIT 1
  abbrev pick_first : Row → Option Row → Option Row
  pick_first r none = some r
  pick_first r (some q) = if text_le (key r) (key q) then some r else some q

  unfoldable pub first_by : List Row → Option Row
  first_by [] = none
  first_by (r ∷ t) = pick_first r (first_by t)

  -- ORDER BY key DESC LIMIT 1
  abbrev pick_last : Row → Option Row → Option Row
  pick_last r none = some r
  pick_last r (some q) = if text_le (key q) (key r) then some r else some q

  unfoldable pub last_by : List Row → Option Row
  last_by [] = none
  last_by (r ∷ t) = pick_last r (last_by t)

  pub first_by-none : (t : List Row) → first_by t ≡ none → t ≡ []
  unfolding first_by
  first_by-none [] h = refl
  first_by-none (r ∷ t) h = elim (Option-cases (first_by t)) [
    | inl e ↦ cc (h, e)
    | inr (q, e) ↦ elim (Bool-cases (text_le (key r) (key q))) [
      | inl b ↦ ground (arith, e, b)
      | inr b ↦ ground (arith, e, b)
    ]
  ]

  pub first_by-All :
      (P : Row → Type 0) (t : List Row) (r : Row) → All P t → first_by t ≡ some r → P r
  unfolding first_by
  first_by-All P [] r h e = cc
  first_by-All P (s ∷ t) r h e = elim (Option-cases (first_by t)) [
    | inl none_left ↦ let same : s ≡ r = ground arith in subst P same h.0
    | inr (q, later) ↦ elim (Bool-cases (text_le (key s) (key q))) [
      | inl first ↦ let same : s ≡ r = ground arith in subst P same h.0
      | inr last ↦ first_by-All P t r h.1 (ground arith)
    ]
  ]

module _ {ℓ} {Row : Type ℓ} (id : Row → String) where
  pub get-update_where :
      (p : Row → Bool) (f : Row → Row) (j : String) (t : List Row)
      → ((r : Row) → id (f r) ≡ id r)
      → get id j (update_where p f t) ≡ Option.map (λ r. if p r then f r else r) (get id j t)
  unfolding get update_where
  get-update_where p f j [] k = refl
  get-update_where p f j (r ∷ t) k = ground (arith, get-update_where p f j t k, k r)

  pub ids-update_where :
      (p : Row → Bool) (f : Row → Row) (t : List Row)
      → ((r : Row) → id (f r) ≡ id r)
      → map id (update_where p f t) ≡ map id t
  unfolding update_where
  ids-update_where p f [] k = refl
  ids-update_where p f (r ∷ t) k = ground (arith, ids-update_where p f t k, k r)

  pub count-key :
      (q : Row → Bool) (i : String) (t : List Row)
      → HasKey id t
      → count (λ r. id r == i && q r) t ≡ (if satisfies id q (get id i t) then 1 else 0)
  unfolding get keep_if
  count-key q i [] k = refl
  count-key q i (r ∷ t) k =
      ground (arith, count-key q i t k.1, has-ids id i t, eq_iff (id r) i, k.0)

  pub id-get : (i : String) (t : List Row) (r : Row) → get id i t ≡ some r → id r ≡ i
  unfolding get
  id-get i [] r h = cc
  id-get i (q ∷ t) r h = elim (Bool-cases (id q == i)) [
    | inl here ↦ let same : q ≡ r = ground arith in ap id (sym same) ∙ (eq_iff (id q) i).0 here
    | inr later ↦ id-get i t r (ground arith)
  ]
