-- ===== src/Adapters/Slug.antt =====
-- The ids of feed findings: `s.replace(/[^A-Za-z0-9]+/g, "-")`, and `slice(-64)` of the result, which
-- has no character but letters and digits of ASCII and dashes.
use Prim.Native.Char.{code}
use kumomiru.Prelude.{
  ◌+ₛ◌, ℕ, zero, suc, ◌-◌, String, Bool, true, false, ◌&&◌, ◌||◌, if◌then◌else◌, leb,
}

abbrev pub is_lower_or_digit : ℕ → Bool
is_lower_or_digit c = leb b'a' c && leb c b'z' || leb b'0' c && leb c b'9'

abbrev pub is_alphanumeric : ℕ → Bool
is_alphanumeric c = is_lower_or_digit c || leb b'A' c && leb c b'Z'

-- A run of other characters becomes one dash. The Boolean says that a run is going on.
unfoldable pub dashes : (ℕ → Bool) → Bool → String → String
dashes keep run String.[] = ""
dashes keep run (String.◌∷◌ c s) =
    let kept = String.◌∷◌ c (dashes keep false s) in
    let rest = dashes keep true s in
    if keep (code c) then kept else if run then rest else "-" +ₛ rest

abbrev size : String → ℕ
size String.[] = 0
size (String.◌∷◌ c s) = suc (size s)

drop : ℕ → String → String
drop zero s = s
drop (suc n) String.[] = String.[]
drop (suc n) (String.◌∷◌ c s) = drop n s

-- `s.slice(-n)`
unfoldable pub last : ℕ → String → String
unfolding drop
last n s = drop (size s - n) s
