-- ===== src/Glob.antt =====
-- The globs of policies and suppressions. The source turns a glob into a regular expression with
-- both ends anchored: `*` becomes `.*`, `?` becomes `.` (in policies only), and every other
-- character stands for itself. A dot does not match a line terminator. Texts are UTF-16 code units.
use Prim.Native.Char.{code}
use kumomiru.Prelude.{
  ℕ, ◌-◌, ◌+◌, ◌/◌, ◌%◌, ltb, String, ◌≡◌, refl, ap, ◌↔◌, Bool, true, false, not, ◌&&◌, ◌||◌, List,
  [], ◌∷◌, ◌++◌, if◌then◌else◌, nat_eq, All, arith, Bool-cases, inl, inr,
}

pub data Token : Type 0 where
  star any_one : Token
  lit : ℕ → Token

-- A code point above 0xffff is a pair of surrogates.
abbrev pub codes : String → List ℕ
codes String.[] = []
codes (String.◌∷◌ c s) =
    let n = code c in
    let rest = codes s in
    if ltb n 0x10000
    then n ∷ rest
    else (0xd800 + (n - 0x10000) / 0x400) ∷ (0xdc00 + (n - 0x10000) % 0x400) ∷ rest

-- What `.` matches.
abbrev pub is_dot : ℕ → Bool
is_dot c = not (nat_eq c 10 || nat_eq c 13 || nat_eq c 0x2028 || nat_eq c 0x2029)

unfoldable pub matches : List Token → List ℕ → Bool
matches [] [] = true
matches [] (c ∷ s) = false
matches (star ∷ p) [] = matches p []
matches (star ∷ p) (c ∷ s) =
    let longer = matches (star ∷ p) s in matches p (c ∷ s) || is_dot c && longer
matches (any_one ∷ p) [] = false
matches (any_one ∷ p) (c ∷ s) = is_dot c && matches p s
matches (lit d ∷ p) [] = false
matches (lit d ∷ p) (c ∷ s) = nat_eq d c && matches p s

-- The texts that a pattern stands for.
abbrev pub Denotes : List Token → List ℕ → Type 0
Denotes [] t = t ≡ []
Denotes (star ∷ p) t =
    (run : List ℕ) × (rest : List ℕ) × (t ≡ run ++ rest)
    × All (λ c. is_dot c ≡ true) run
    × Denotes p rest
Denotes (any_one ∷ p) t =
    (c : ℕ) × (rest : List ℕ) × (t ≡ c ∷ rest) × (is_dot c ≡ true) × Denotes p rest
Denotes (lit d ∷ p) t = (rest : List ℕ) × (t ≡ d ∷ rest) × Denotes p rest

matches_sound : (p : List Token) (t : List ℕ) → matches p t ≡ true → Denotes p t
unfolding matches
matches_sound [] [] h = refl
matches_sound [] (c ∷ t) h = cc
matches_sound (star ∷ p) [] h = ([], [], refl, tt, matches_sound p [] h)
matches_sound (star ∷ p) (c ∷ t) h = elim (Bool-cases (matches p (c ∷ t))) [
  | inl now ↦ ([], c ∷ t, refl, tt, matches_sound p (c ∷ t) now)
  | inr later ↦
      let (run, rest, e, dots, m) = matches_sound (star ∷ p) t (ground arith) in
      (c ∷ run, rest, ap (◌∷◌ c) e, (ground arith, dots), m)
]
matches_sound (any_one ∷ p) [] h = cc
matches_sound (any_one ∷ p) (c ∷ t) h = (c, t, refl, ground arith, matches_sound p t (ground arith))
matches_sound (lit d ∷ p) [] h = cc
matches_sound (lit d ∷ p) (c ∷ t) h = (t, ground arith, matches_sound p t (ground arith))

matches_run :
    (p : List Token) (run rest : List ℕ)
    → All (λ c. is_dot c ≡ true) run
    → matches p rest ≡ true
    → matches (star ∷ p) (run ++ rest) ≡ true
unfolding matches
matches_run p [] [] d h = h
matches_run p [] (c ∷ rest) d h = rw h refl
matches_run p (c ∷ run) rest d h = ground (arith, matches_run p run rest d.1 h, d.0)

matches_complete : (p : List Token) (t : List ℕ) → Denotes p t → matches p t ≡ true
unfolding matches
matches_complete [] t h = rw h refl
matches_complete (star ∷ p) t (run, rest, e, dots, m) =
    rw e (matches_run p run rest dots (matches_complete p rest m))
matches_complete (any_one ∷ p) t (c, rest, e, dot, m) =
    rw e (ground (arith, matches_complete p rest m))
matches_complete (lit d ∷ p) t (rest, e, m) = rw e (ground (arith, matches_complete p rest m))

-- The matcher decides what a pattern stands for.
pub matches_iff : (p : List Token) (t : List ℕ) → (matches p t ≡ true) ↔ Denotes p t
matches_iff p t = (matches_sound p t, matches_complete p t)
