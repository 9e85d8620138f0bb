-- ===== src/Adapters/Regex.antt =====
-- The regular expressions that packages/adapters/src/common/sanitize.ts tests a text with. A text is its
-- UTF-16 code units; a position knows the unit before it, for `\b`.
use kumomiru.Prelude.{
  ℕ, zero, suc, ◌+◌, String, Bool, true, false, not, ◌&&◌, ◌||◌, Option, none, some, List, [], ◌∷◌,
  if◌then◌else◌, nat_eq, leb,
}
use kumomiru.Glob.{codes}

pub data Re : Type 0 where
  -- A unit of the class, `n` of them, and `n` or more.
  unit : (ℕ → Bool) → Re
  exactly at_least : (ℕ → Bool) → ℕ → Re
  -- `\b`
  edge : Re
  then_also either : Re → Re → Re
  optional : Re → Re

abbrev pub between : ℕ → ℕ → ℕ → Bool
between a b c = leb a c && leb c b

abbrev pub is_lower : ℕ → Bool
is_lower = between b'a' b'z'

abbrev pub is_upper : ℕ → Bool
is_upper = between b'A' b'Z'

abbrev pub is_digit : ℕ → Bool
is_digit = between b'0' b'9'

-- `\w`
abbrev pub is_word : ℕ → Bool
is_word c = is_lower c || is_upper c || is_digit c || nat_eq c b'_'

-- `\s`
abbrev pub is_space : ℕ → Bool
is_space c =
    between 9 13 c
    || nat_eq c 32
    || nat_eq c 0xa0
    || nat_eq c 0x1680
    || between 0x2000 0x200a c
    || nat_eq c 0x2028
    || nat_eq c 0x2029
    || nat_eq c 0x202f
    || nat_eq c 0x205f
    || nat_eq c 0x3000
    || nat_eq c 0xfeff

abbrev is_word_at : Option ℕ → Bool
is_word_at none = false
is_word_at (some c) = is_word c

abbrev first_unit : List ℕ → Option ℕ
first_unit [] = none
first_unit (c ∷ cs) = some c

abbrev differ : Bool → Bool → Bool
differ true b = not b
differ false b = b

-- What is left to be matched after a part.
abbrev Rest : Type 0
Rest = Option ℕ → List ℕ → Bool

unfoldable pub units : (ℕ → Bool) → ℕ → Rest → Rest
units p zero k before cs = k before cs
units p (suc n) k before [] = false
units p (suc n) k before (c ∷ cs) = p c && units p n k (some c) cs

unfoldable pub units_or_more : (ℕ → Bool) → ℕ → Rest → Rest
units_or_more p zero k before [] = k before []
units_or_more p zero k before (c ∷ cs) =
    let more = p c && units_or_more p zero k (some c) cs in k before (c ∷ cs) || more
units_or_more p (suc n) k before [] = false
units_or_more p (suc n) k before (c ∷ cs) = p c && units_or_more p n k (some c) cs

unfoldable pub match_at : Re → Rest → Rest
unfolding units units_or_more
match_at (unit p) k before [] = false
match_at (unit p) k before (c ∷ cs) = p c && k (some c) cs
match_at (exactly p n) k before cs = units p n k before cs
match_at (at_least p n) k before cs = units_or_more p n k before cs
match_at edge k before cs = differ (is_word_at before) (is_word_at (first_unit cs)) && k before cs
match_at (then_also a b) k before cs = match_at a (match_at b k) before cs
match_at (either a b) k before cs = match_at a k before cs || match_at b k before cs
match_at (optional a) k before cs = match_at a k before cs || k before cs

unfoldable pub search_from : Re → Option ℕ → List ℕ → Bool
unfolding match_at
search_from re before [] = match_at re (λ b cs. true) before []
search_from re before (c ∷ cs) =
    let later = search_from re (some c) cs in match_at re (λ b ds. true) before (c ∷ cs) || later

-- `re.test(text)`
unfoldable pub test : Re → String → Bool
unfolding search_from
test re text = search_from re none (codes text)

-- The text itself, and under the flag `i`.
units_of : List ℕ → Re
units_of [] = exactly (λ c. true) 0
units_of (d ∷ ds) = then_also (unit (nat_eq d)) (units_of ds)

abbrev lower_unit : ℕ → ℕ
lower_unit c = if is_upper c then c + 32 else c

units_of_i : List ℕ → Re
units_of_i [] = exactly (λ c. true) 0
units_of_i (d ∷ ds) = then_also (unit (λ c. nat_eq (lower_unit d) (lower_unit c))) (units_of_i ds)

unfoldable pub lit : String → Re
unfolding units_of
lit s = units_of (codes s)

unfoldable pub lit_i : String → Re
unfolding units_of_i
lit_i s = units_of_i (codes s)

abbrev pub sequence : Re → List Re → Re
sequence a [] = a
sequence a (b ∷ bs) = then_also a (sequence b bs)

abbrev pub one_of : Re → List Re → Re
one_of a [] = a
one_of a (b ∷ bs) = either a (one_of b bs)
