-- ===== src/Adapters/HashId.antt =====
-- `hashId` of packages/adapters/src/analysis/iam.ts, and its copies in dataflow.ts and
-- resourceAccess.ts: djb2 on the UTF-16 code units. `h * 33` is exact in a double, `^` takes it to 32
-- bits, and `>>> 0` reads the bits as a number without a sign.
use Prim.Native.Nat.{bit_xor}
use Prim.Native.String.{◌++◌ as text_append}
use kumomiru.Prelude.{ℕ, zero, suc, ◌*◌, ◌/◌, ◌%◌, ◌^◌, String, List, foldl, if◌then◌else◌, ltb}
use kumomiru.Glob.{codes}

unfoldable pub mix : ℕ → ℕ → ℕ
mix h c = bit_xor (h * 33 % 2 ^ 32) c

unfoldable pub djb2 : List ℕ → ℕ
unfolding mix
djb2 = foldl mix 5381

nth : ℕ → String → String
nth n String.[] = "0"
nth zero (String.◌∷◌ c s) = String.◌∷◌ c String.[]
nth (suc n) (String.◌∷◌ c s) = nth n s

digit36 : ℕ → String
unfolding nth
digit36 n = nth n "0123456789abcdefghijklmnopqrstuvwxyz"

-- `toString(36)`. A number of 32 bits has seven digits at most.
unfoldable pub base36 : ℕ → ℕ → String
unfolding digit36
base36 zero n = ""
base36 (suc fuel) n =
    let more = text_append (base36 fuel (n / 36)) (digit36 (n % 36)) in
    if ltb n 36 then digit36 n else more

unfoldable pub hash_id : String → String
unfolding djb2 base36
hash_id s = base36 7 (djb2 (codes s))
