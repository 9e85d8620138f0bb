-- ===== src/Db/Suppression.antt =====
-- packages/db/src/sqlite-lifecycle.ts: which suppression silences a finding. A `null` is `none`.
-- Times are ISO texts, compared as texts.
pub mod Active
use kumomiru.Prelude.{
  ℕ, String, Bool, true, false, not, ◌&&◌, ◌||◌, Option, none, some, List, [], ◌∷◌, map,
  if◌then◌else◌, or_else, ◌==◌, text_le, nat_eq, includes, keep_if, any, ◌++◌,
}
use kumomiru.Glob.{Token, star, lit, codes, matches}
use kumomiru.Graph.Schema.{truthy}
use kumomiru.Db.Table

pub record SuppressionRecord : Type 0 where
  pub id : String
  pub rule_id : String
  pub resource_pattern : String
  pub account_id : Option String
  pub reason : String
  pub created_by : Option String
  pub created_at : String
  pub expires_at : Option String
  pub revoked_at : Option String

-- `globToRegExp` of this file: only `*` is special.
abbrev token : ℕ → Token
token c = if nat_eq c b'*' then star else lit c

unfoldable pub glob_test : String → String → Bool
unfolding matches
glob_test pattern text = matches (map token (codes pattern)) (codes text)

-- What a suppression is matched against.
pub record Target : Type 0 where
  pub rule_id : Option String
  pub node_id : Option String
  pub account_id : String

-- `o && o !== s`
abbrev pub other_than : Option String → String → Bool
other_than none s = false
other_than (some r) s = not (r == "") && not (r == s)

-- `e && e <= now`
abbrev pub expired : Option String → String → Bool
expired none now = false
expired (some e) now = not (e == "") && text_le e now

abbrev pub names_rule : Option String → String → Bool
names_rule none r = false
names_rule (some q) r = r == q

unfoldable pub covers_resource : String → String → Bool
unfolding glob_test includes
covers_resource pattern rid =
    (pattern == "*" || pattern == rid) || includes pattern "*" && glob_test pattern rid

-- The body of the loop: false where it says `continue`.
unfoldable pub applies : Target → String → SuppressionRecord → Bool
applies f now s =
    names_rule f.rule_id s.rule_id
    && not (truthy s.revoked_at)
    && not (expired s.expires_at now)
    && not (other_than s.account_id f.account_id)
    && covers_resource s.resource_pattern (or_else f.node_id "")

first_applying : Target → String → List SuppressionRecord → Option SuppressionRecord
unfolding applies
first_applying f now [] = none
first_applying f now (s ∷ ss) =
    let rest = first_applying f now ss in if applies f now s then some s else rest

unfoldable pub match_suppression :
    Target → List SuppressionRecord → String → Option SuppressionRecord
unfolding first_applying
match_suppression f suppressions now =
    if not (truthy f.rule_id) then none else first_applying f now suppressions

-- `suppressionRepo`. ORDER BY created_at DESC.
insert_by_age : SuppressionRecord → List SuppressionRecord → List SuppressionRecord
insert_by_age s [] = s ∷ []
insert_by_age s (r ∷ rs) =
    let rest = insert_by_age s rs in
    if text_le r.created_at s.created_at then s ∷ r ∷ rs else r ∷ rest

unfoldable pub newest_first : List SuppressionRecord → List SuppressionRecord
unfolding insert_by_age
newest_first [] = []
newest_first (s ∷ ss) = insert_by_age s (newest_first ss)

abbrev pub is_null : Option String → Bool
is_null none = true
is_null (some s) = false

-- revoked_at IS NULL AND (expires_at IS NULL OR expires_at > ?)
unfoldable pub is_active : String → SuppressionRecord → Bool
is_active at s =
    is_null s.revoked_at && elim s.expires_at [ none ↦ true | some e ↦ not (text_le e at) ]

-- account_id IS NULL OR account_id = ?
abbrev pub is_for : String → SuppressionRecord → Bool
is_for account s = elim s.account_id [ none ↦ true | some a ↦ a == account ]

unfoldable pub list : Bool → String → List SuppressionRecord → List SuppressionRecord
unfolding newest_first is_active
list include_inactive now t =
    newest_first (if include_inactive then t else keep_if (is_active now) t)

unfoldable pub active_for : String → String → List SuppressionRecord → List SuppressionRecord
unfolding newest_first is_active
active_for account at t = newest_first (keep_if (λ s. is_active at s && is_for account s) t)

pub record NewSuppression : Type 0 where
  pub rule_id : String
  pub resource_pattern : String
  pub account_id : Option String
  pub reason : String
  pub created_by : Option String
  pub expires_at : Option String

-- `id` is the fresh `randomUUID()`, `now` the clock.
unfoldable pub create :
    String → String → NewSuppression → List SuppressionRecord → List SuppressionRecord
create id now input t =
    t
    ++ record {
      id = id;
      rule_id = input.rule_id;
      resource_pattern = input.resource_pattern;
      account_id = input.account_id;
      reason = input.reason;
      created_by = input.created_by;
      created_at = now;
      expires_at = input.expires_at;
      revoked_at = none;
    }
      ∷ []

-- UPDATE … SET revoked_at = ? WHERE id = ? AND revoked_at IS NULL, and whether it changed a row.
unfoldable pub revoke : String → String → List SuppressionRecord → List SuppressionRecord × Bool
revoke now id t = (
  Table.update (λ s. s.id) id
      (λ s. if is_null s.revoked_at then record s { revoked_at = some now } else s) t,
  any (λ s. s.id == id && is_null s.revoked_at) t,
)
