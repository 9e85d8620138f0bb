-- ===== src/Prelude/Lists.antt =====
-- Lists with Boolean tests, and predicates by recursion over a list.
use Prim.Native.Nat.{ℕ, suc, ◌+◌}
use mathlib.Core.Path.{◌≡◌, refl, sym, ap, ◌∙◌, subst}
use mathlib.Core.Logic.{◌⊎◌, ◌↔◌, inl, inr}
use mathlib.Core.Bool.{Bool, true, false, ◌||◌}
use mathlib.Core.Option.{Option, none, some}
use mathlib.Core.List.{List, [], ◌∷◌, ◌++◌, map, foldl}
use native.Mathlib.Omega.{arith}
use kumomiru.Prelude.Tests.{if◌then◌else◌, Bool-cases}

module _ {ℓ} {A : Type ℓ} where
  abbrev pub length : List A → ℕ
  length [] = 0
  length (x ∷ xs) = suc (length xs)

  -- `xs.filter(p)`
  unfoldable pub keep_if : (A → Bool) → List A → List A
  keep_if p [] = []
  keep_if p (x ∷ xs) = let rest = keep_if p xs in if p x then x ∷ rest else rest

  -- `xs.some(p)`
  unfoldable pub any : (A → Bool) → List A → Bool
  any p [] = false
  any p (x ∷ xs) = p x || any p xs

  -- `xs.find(p)`
  unfoldable pub find_first : (A → Bool) → List A → Option A
  find_first p [] = none
  find_first p (x ∷ xs) = let rest = find_first p xs in if p x then some x else rest

  abbrev pub All {κ} : (A → Type κ) → List A → Type κ
  All P [] = Unit
  All P (x ∷ xs) = P x × All P xs

  abbrev pub Any : (A → Type 0) → List A → Type 0
  Any P [] = ⊥
  Any P (x ∷ xs) = P x ⊎ Any P xs

  pub nil_or_cons : (xs : List A) → (xs ≡ []) ⊎ ((x : A) × (rest : List A) × (xs ≡ x ∷ rest))
  nil_or_cons [] = inl refl
  nil_or_cons (x ∷ xs) = inr (x, xs, refl)

  pub length-append : (xs ys : List A) → length (xs ++ ys) ≡ length xs + length ys
  length-append [] ys = omega arith
  length-append (x ∷ xs) ys = omega (arith, length-append xs ys)

  pub append-eq-nil_iff : (xs ys : List A) → (xs ++ ys ≡ []) ↔ ((xs ≡ []) × (ys ≡ []))
  append-eq-nil_iff [] ys = (λ e. (refl, e), λ h. h.1)
  append-eq-nil_iff (x ∷ xs) ys = (λ e. cc, λ h. cc (h.0))

pub All-mono {ℓ κ μ} :
    {A : Type ℓ} (P : A → Type κ) (Q : A → Type μ)
    → ((x : A) → P x → Q x)
    → (xs : List A) → All P xs
    → All Q xs
All-mono P Q f [] h = tt
All-mono P Q f (x ∷ xs) h = (f x h.0, All-mono P Q f xs h.1)

pub All-append {ℓ κ} :
    {A : Type ℓ} (P : A → Type κ) (xs ys : List A) → All P xs → All P ys → All P (xs ++ ys)
All-append P [] ys hx hy = hy
All-append P (x ∷ xs) ys hx hy = (hx.0, All-append P xs ys hx.1 hy)

-- The lists have the same length, and the relation holds place by place.
abbrev pub All₂ {ℓ κ} : {A : Type ℓ} {B : Type κ} → (A → B → Type 0) → List A → List B → Type 0
All₂ R [] [] = Unit
All₂ R (x ∷ xs) (y ∷ ys) = R x y × All₂ R xs ys
All₂ R _ _ = ⊥

pub All₂-map {ℓ κ} :
    {A : Type ℓ} {B : Type κ} (R : A → B → Type 0) (f : A → B)
    → ((x : A) → R x (f x))
    → (xs : List A) → All₂ R xs (map f xs)
All₂-map R f h [] = tt
All₂-map R f h (x ∷ xs) = (h x, All₂-map R f h xs)

pub All₂-refl {ℓ} :
    {A : Type ℓ} (R : A → A → Type 0) → ((x : A) → R x x) → (xs : List A) → All₂ R xs xs
All₂-refl R h [] = tt
All₂-refl R h (x ∷ xs) = (h x, All₂-refl R h xs)

module _ {ℓ} {A : Type ℓ} (p : A → Bool) where
  pub find_first-some :
      (P : A → Type 0) (xs : List A) (a : A)
      → All P xs
      → find_first p xs ≡ some a
      → P a × (p a ≡ true)
  unfolding find_first
  find_first-some P [] a h e = cc
  find_first-some P (x ∷ xs) a h e = elim (Bool-cases (p x)) [
    | inl hit ↦ let same : x ≡ a = ground arith in (subst P same h.0, ap p (sym same) ∙ hit)
    | inr miss ↦ find_first-some P xs a h.1 (ground arith)
  ]

pub find_first-none {ℓ} :
    {A : Type ℓ} (p : A → Bool) (xs : List A) → find_first p xs ≡ none → All (λ x. p x ≡ false) xs
unfolding find_first
find_first-none p [] e = tt
find_first-none p (x ∷ xs) e = elim (Bool-cases (p x)) [
  | inl hit ↦ cc (e, hit)
  | inr miss ↦ (miss, find_first-none p xs (ground arith))
]

-- What holds of the kept holds of each that passes the test.
pub All-of_keep_if {ℓ κ} :
    {A : Type ℓ} (P : A → Type κ) (p : A → Bool) (xs : List A)
    → All P (keep_if p xs)
    → All (λ x. p x ≡ true → P x) xs
unfolding keep_if
All-of_keep_if P p [] = λ h. tt
All-of_keep_if P p (x ∷ xs) = elim (Bool-cases (p x)) [
  | inl kept ↦ rw kept (λ h. ((λ _. h.0), All-of_keep_if P p xs h.1))
  | inr dropped ↦ rw dropped (λ h. ((λ e. cc e), All-of_keep_if P p xs h))
]

pub All-keep_if {ℓ κ} :
    {A : Type ℓ} (P : A → Type κ) (p : A → Bool) (xs : List A) → All P xs → All P (keep_if p xs)
unfolding keep_if
All-keep_if P p [] h = tt
All-keep_if P p (x ∷ xs) h = elim (Bool-cases (p x)) [
  | inl kept ↦ rw kept (h.0, All-keep_if P p xs h.1)
  | inr dropped ↦ rw dropped (All-keep_if P p xs h.1)
]

-- What is kept passes the test, and keeps what held of it.
pub All-kept {ℓ} :
    {A : Type ℓ} (P : A → Type 0) (p : A → Bool) (xs : List A)
    → All P xs
    → All (λ x. P x × (p x ≡ true)) (keep_if p xs)
unfolding keep_if
All-kept P p [] h = tt
All-kept P p (x ∷ xs) h = elim (Bool-cases (p x)) [
  | inl kept ↦ rw kept ((h.0, kept), All-kept P p xs h.1)
  | inr dropped ↦ rw dropped (All-kept P p xs h.1)
]

pub keep_if-nil {ℓ} :
    {A : Type ℓ} (p : A → Bool) (xs : List A) → keep_if p xs ≡ [] → All (λ x. p x ≡ false) xs
unfolding keep_if
keep_if-nil p [] h = tt
keep_if-nil p (x ∷ xs) h = elim (Bool-cases (p x)) [
  | inl kept ↦ cc (h, kept)
  | inr dropped ↦ (dropped, keep_if-nil p xs (ground arith))
]

-- `x` is in the list.
abbrev pub Member : {A : Type 0} → A → List A → Type 0
Member x [] = ⊥
Member x (y ∷ ys) = (y ≡ x) ⊎ Member x ys

All-members-within :
    {A : Type 0} (xs ys : List A)
    → ((x : A) → Member x xs → Member x ys)
    → All (λ x. Member x ys) xs
All-members-within [] ys f = tt
All-members-within (x ∷ xs) ys f = (f x (inl refl), All-members-within xs ys (λ z m. f z (inr m)))

pub All-members : {A : Type 0} (xs : List A) → All (λ x. Member x xs) xs
All-members xs = All-members-within xs xs (λ x m. m)

All-units : {A : Type 0} (xs : List A) → All (λ _. Unit {0}) xs
All-units [] = tt
All-units (x ∷ xs) = (tt, All-units xs)

module _ {ℓ} {S : Type ℓ} {A : Type 0} (f : S → A → S) where
  -- What every step keeps, the loop keeps.
  pub foldl-keeps :
      (Inv : S → Type 0) (P : A → Type 0)
      → ((s : S) (a : A) → P a → Inv s → Inv (f s a))
      → (xs : List A) → All P xs
      → (s : S) → Inv s
      → Inv (foldl f s xs)
  foldl-keeps Inv P keep [] h s i = i
  foldl-keeps Inv P keep (x ∷ xs) h s i = foldl-keeps Inv P keep xs h.1 (f s x) (keep s x h.0 i)

  -- What every step keeps and the step of a member brings about holds after the loop.
  pub foldl-hits :
      (Q : S → Type 0)
      → ((s : S) (a : A) → Q s → Q (f s a))
      → (x : A) → ((s : S) → Q (f s x))
      → (xs : List A) → Member x xs
      → (s : S) → Q (foldl f s xs)
  foldl-hits Q mono x hit [] m s = absurd m
  foldl-hits Q mono x hit (y ∷ ys) m s = elim m [
    | inl e ↦
        foldl-keeps Q (λ _. Unit {0}) (λ t a _ q. mono t a q) ys (All-units ys) (f s y)
          (subst (λ z. Q (f s z)) (sym e) (hit s))
    | inr later ↦ foldl-hits Q mono x hit ys later (f s y)
  ]

-- No element passes the test.
pub any-false {ℓ} :
    {A : Type ℓ} (p : A → Bool) (xs : List A) → any p xs ≡ false → All (λ x. p x ≡ false) xs
unfolding any
any-false p [] h = tt
any-false p (x ∷ xs) h = (ground (arith, h), any-false p xs (ground (arith, h)))
