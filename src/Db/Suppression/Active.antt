-- ===== src/Db/Suppression/Active.antt =====
-- The rows that SQL selects as active are enough for the match.
use kumomiru.Prelude.{
  String, ◌≡◌, refl, ◌≢◌, Bool, true, not, ◌&&◌, ◌||◌, Option, none, some, List, [], ◌∷◌, ◌==◌,
  text_le, keep_if, is_some, arith, eq_iff, All, Bool-cases, inl, inr, All-mono, ◌∙◌,
}
use kumomiru.Graph.Schema.{truthy}
use kumomiru.Db.Suppression.{
  SuppressionRecord, Target, applies, first_applying, match_suppression, insert_by_age,
  newest_first, is_active, is_for, active_for, is_null, expired, other_than,
}

-- No column holds an empty text.
pub record IsFilled (s : SuppressionRecord) : Type 0 where
  pub account_id : s.account_id ≢ some ""
  pub expires_at : s.expires_at ≢ some ""
  pub revoked_at : s.revoked_at ≢ some ""

revoked_iff : (o : Option String) → o ≢ some "" → truthy o ≡ not (is_null o)
revoked_iff none h = refl
revoked_iff (some s) h = ground (arith, eq_iff s "")

expired_iff :
    (o : Option String) (at : String)
    → o ≢ some ""
    → expired o at ≡ not (elim o [ none ↦ true | some e ↦ not (text_le e at) ])
expired_iff none at h = refl
expired_iff (some e) at h = ground (arith, eq_iff e "")

other_than_iff :
    (o : Option String) (a : String)
    → o ≢ some ""
    → other_than o a ≡ not (elim o [ none ↦ true | some b ↦ b == a ])
other_than_iff none a h = refl
other_than_iff (some b) a h = ground (arith, eq_iff b "")

applies-selected :
    (f : Target) (at : String) (s : SuppressionRecord)
    → IsFilled s
    → applies f at s ≡ true
    → (is_active at s && is_for f.account_id s) ≡ true
unfolding applies is_active
applies-selected f at s h e = ground (
  arith,
  revoked_iff s.revoked_at h.revoked_at,
  expired_iff s.expires_at at h.expires_at,
  other_than_iff s.account_id f.account_id h.account_id,
)

module _ (f : Target) (now : String) where
  abbrev matched : List SuppressionRecord → Bool
  matched ss = is_some (first_applying f now ss)

  matched-insert :
      (s : SuppressionRecord) (ss : List SuppressionRecord)
      → matched (insert_by_age s ss) ≡ (applies f now s || matched ss)
  unfolding first_applying insert_by_age
  matched-insert s [] = ground arith
  matched-insert s (r ∷ rs) = ground (arith, matched-insert s rs)

  matched-newest_first : (ss : List SuppressionRecord) → matched (newest_first ss) ≡ matched ss
  unfolding newest_first first_applying
  matched-newest_first [] = refl
  matched-newest_first (s ∷ ss) =
      ground (arith, matched-insert s (newest_first ss), matched-newest_first ss)

  matched-keep_if :
      (p : SuppressionRecord → Bool) (ss : List SuppressionRecord)
      → All (λ s. applies f now s ≡ true → p s ≡ true) ss
      → matched (keep_if p ss) ≡ matched ss
  unfolding keep_if first_applying
  matched-keep_if p [] h = refl
  matched-keep_if p (s ∷ ss) h = ground (arith, matched-keep_if p ss h.1, h.0)

-- The selection in SQL and the test in code agree: if no column of a suppression is an empty text,
-- a finding matches one of the suppressions that are active for its account exactly if it matches
-- one of all suppressions.
pub match_suppression-active_for :
    (f : Target) (at : String) (t : List SuppressionRecord)
    → All IsFilled t
    → is_some (match_suppression f (active_for f.account_id at t) at)
      ≡ is_some (match_suppression f t at)
unfolding match_suppression active_for
match_suppression-active_for f at t h = elim (Bool-cases (truthy f.rule_id)) [
  | inl named ↦ rw named (
      matched-newest_first f at _
      ∙ matched-keep_if f at _ t (All-mono IsFilled _ (λ s. applies-selected f at s) t h))
  | inr unnamed ↦ rw unnamed refl
]
