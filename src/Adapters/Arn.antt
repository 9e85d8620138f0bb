-- ===== src/Adapters/Arn.antt =====
-- The account ids and ARNs that packages/adapters/src/analysis/iam.ts reads with patterns.
use Prim.Native.Char.{code, Char}
use kumomiru.Prelude.{
  ℕ, String, Bool, true, not, ◌&&◌, ◌||◌, Option, none, some, List, [], ◌∷◌, if◌then◌else◌, nat_eq,
  leb, length, ◌==◌,
}
use kumomiru.Glob.{codes}

-- The fields of a text between its colons, which no character class of the two patterns takes.
push : Char → List String → List String
push c [] = []
push c (f ∷ fs) = String.◌∷◌ c f ∷ fs

fields : String → List String
unfolding push
fields String.[] = "" ∷ []
fields (String.◌∷◌ c s) =
    let rest = fields s in if nat_eq (code c) b':' then "" ∷ rest else push c rest

all_chars : (ℕ → Bool) → String → Bool
all_chars p String.[] = true
all_chars p (String.◌∷◌ c s) = p (code c) && all_chars p s

is_digit : ℕ → Bool
is_digit c = leb b'0' c && leb c b'9'

is_lower_or_dash : ℕ → Bool
is_lower_or_dash c = leb b'a' c && leb c b'z' || nat_eq c b'-'

is_word : ℕ → Bool
unfolding is_digit is_lower_or_dash
is_word c = is_lower_or_dash c || is_digit c

-- `/^\d{12}$/`
unfoldable pub is_account_id : String → Bool
unfolding all_chars is_digit
is_account_id s = nat_eq (length (codes s)) 12 && all_chars is_digit s

-- `[a-z-]+` and `[a-z0-9-]*`
is_partition : String → Bool
unfolding all_chars is_lower_or_dash
is_partition s = not (s == "") && all_chars is_lower_or_dash s

is_name : String → Bool
unfolding all_chars is_word
is_name s = all_chars is_word s

-- The capture of `/^arn:[a-z-]+:iam::(\d{12}):root$/`.
root_of : List String → Option String
unfolding is_account_id is_partition
root_of (a ∷ p ∷ s ∷ r ∷ account ∷ root ∷ []) =
    if a == "arn"
      && is_partition p
      && s == "iam"
      && r == ""
      && is_account_id account
      && root == "root"
    then some account
    else none
root_of _ = none

unfoldable pub account_root : String → Option String
unfolding root_of fields
account_root value = root_of (fields value)

-- The capture of `/^arn:[a-z-]+:[a-z0-9-]*:[a-z0-9-]*:(\d{12}):/`, which has no end anchor.
account_field : List String → Option String
unfolding is_account_id is_partition is_name
account_field (a ∷ p ∷ s ∷ r ∷ account ∷ _ ∷ _) =
    if a == "arn" && is_partition p && is_name s && is_name r && is_account_id account
    then some account
    else none
account_field _ = none

unfoldable pub extract_account : String → Option String
unfolding account_field fields
extract_account value = account_field (fields value)

-- The capture of `/^arn:[a-z-]+:iam::(\d{12}):/`.
iam_field : List String → Option String
unfolding is_account_id is_partition
iam_field (a ∷ p ∷ s ∷ r ∷ account ∷ _ ∷ _) =
    if a == "arn" && is_partition p && s == "iam" && r == "" && is_account_id account
    then some account
    else none
iam_field _ = none

unfoldable pub iam_account : String → Option String
unfolding iam_field fields
iam_account value = iam_field (fields value)
