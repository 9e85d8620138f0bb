-- ===== src/Rules/Ids.antt =====
-- packages/rules/src/ids.ts: the ids of findings. `| 0` takes the sum to 32 bits at each step.
use Prim.Native.String.{◌++◌ as text_append}
use kumomiru.Prelude.{ℕ, ◌+◌, ◌*◌, ◌%◌, ◌^◌, String, foldl}
use kumomiru.Glob.{codes}
use kumomiru.Adapters.HashId.{base36}

unfoldable pub mix : ℕ → ℕ → ℕ
mix h c = (h * 32 + h + c) % 2 ^ 32

unfoldable pub hash_id : String → String
unfolding mix base36
hash_id s = base36 7 (foldl mix 5381 (codes s))

unfoldable pub finding_id : String → String → String
unfolding hash_id
finding_id rule_id resource_id =
    text_append "f-" (text_append rule_id (text_append "-" (hash_id resource_id)))
