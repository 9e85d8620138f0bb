-- ===== src/JsSet.antt =====
-- `Set<string>`: the elements in the order of insertion, none twice.
use kumomiru.Prelude.{
  String, ◌≡◌, refl, ◌↔◌, Bool, false, ◌||◌, List, [], ◌∷◌, ◌++◌, arith, ◌==◌, eq_iff, eq_refl,
  true, if◌then◌else◌, All, All-append, Bool-cases, inl, inr,
}

unfoldable pub has : String → List String → Bool
has x [] = false
has x (y ∷ ys) = y == x || has x ys

unfoldable pub add : String → List String → List String
add x s = if has x s then s else s ++ x ∷ []

-- `for (const x of xs) s.add(x)`
unfoldable pub add_all : List String → List String → List String
unfolding add
add_all s [] = s
add_all s (x ∷ xs) = add_all (add x s) xs

-- `new Set(xs)`
unfoldable pub of_list : List String → List String
unfolding add_all
of_list xs = add_all [] xs

abbrev pub Distinct : List String → Type 0
Distinct [] = Unit
Distinct (x ∷ xs) = (has x xs ≡ false) × Distinct xs

pub has-append : (x : String) (s t : List String) → has x (s ++ t) ≡ (has x s || has x t)
unfolding has
has-append x [] t = refl
has-append x (y ∷ s) t = ground (arith, has-append x s t)

pub has-add : (x y : String) (s : List String) → has x (add y s) ≡ (y == x || has x s)
unfolding add has
has-add x y s = ground (arith, has-append x s (y ∷ []), eq_iff y x)

pub has-add_all : (x : String) (s xs : List String) → has x (add_all s xs) ≡ (has x s || has x xs)
unfolding add_all has
has-add_all x s [] = ground arith
has-add_all x s (y ∷ xs) = ground (arith, has-add_all x (add y s) xs, has-add x y s)

pub has-of_list : (x : String) (xs : List String) → has x (of_list xs) ≡ has x xs
unfolding of_list has
has-of_list x xs = has-add_all x [] xs

pub Distinct-concat :
    (s : List String) (x : String) → Distinct s → has x s ≡ false → Distinct (s ++ x ∷ [])
unfolding has
Distinct-concat [] x d h = (refl, tt)
Distinct-concat (y ∷ s) x d h = (
  ground (arith, has-append y s (x ∷ []), eq_iff y x, eq_iff x y),
  Distinct-concat s x d.1 (ground arith),
)

pub Distinct-add : (x : String) (s : List String) → Distinct s → Distinct (add x s)
unfolding add
Distinct-add x s d = ground (arith, Distinct-concat s x d)

pub Distinct-add_all : (s xs : List String) → Distinct s → Distinct (add_all s xs)
unfolding add_all
Distinct-add_all s [] d = d
Distinct-add_all s (x ∷ xs) d = Distinct-add_all (add x s) xs (Distinct-add x s d)

-- Each element is new when a loop that adds what it meets comes to it.
abbrev pub Unseen : List String → List String → Type 0
Unseen s [] = Unit
Unseen s (x ∷ xs) = (has x s ≡ false) × Unseen (add x s) xs

All-not-has-add :
    (x : String) (s xs : List String)
    → All (λ z. has z (add x s) ≡ false) xs ↔ (All (λ z. has z s ≡ false) xs × (has x xs ≡ false))
unfolding has
All-not-has-add x s [] = (λ h. (tt, refl), λ h. tt)
All-not-has-add x s (y ∷ ys) =
    ground (arith, All-not-has-add x s ys, has-add y x s, eq_iff x y, eq_iff y x)

pub Unseen-iff : (s xs : List String) → Unseen s xs ↔ (All (λ z. has z s ≡ false) xs × Distinct xs)
Unseen-iff s [] = (λ h. (tt, tt), λ h. tt)
Unseen-iff s (x ∷ xs) = ground (arith, Unseen-iff (add x s) xs, All-not-has-add x s xs)

All-not-has-nil : (xs : List String) → All (λ z. has z [] ≡ false) xs
unfolding has
All-not-has-nil [] = tt
All-not-has-nil (x ∷ xs) = (refl, All-not-has-nil xs)

pub Unseen-nil_iff : (xs : List String) → Unseen [] xs ↔ Distinct xs
Unseen-nil_iff xs =
    (λ u. ((Unseen-iff [] xs).0 u).1, λ d. (Unseen-iff [] xs).1 (All-not-has-nil xs, d))

pub Distinct-of_list : (xs : List String) → Distinct (of_list xs)
unfolding of_list
Distinct-of_list xs = Distinct-add_all [] xs tt

pub All-add {ℓ} :
    (P : String → Type ℓ) (x : String) (s : List String) → P x → All P s → All P (add x s)
unfolding add
All-add P x s p h = elim (Bool-cases (has x s)) [
  | inl old ↦ rw old h
  | inr new ↦ rw new (All-append P s (x ∷ []) h (p, tt))
]

All-has-cons :
    (x : String) (s sub : List String)
    → All (λ z. has z s ≡ true) sub
    → All (λ z. has z (x ∷ s) ≡ true) sub
unfolding has
All-has-cons x s [] h = tt
All-has-cons x s (z ∷ sub) h = (ground (arith, h.0), All-has-cons x s sub h.1)

pub All-has_self : (s : List String) → All (λ z. has z s ≡ true) s
unfolding has
All-has_self [] = tt
All-has_self (x ∷ s) = (rw (eq_refl x) refl, All-has-cons x s s (All-has_self s))
