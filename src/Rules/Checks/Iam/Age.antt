-- ===== src/Rules/Checks/Iam/Age.antt =====
-- The age from which an access key is too old.
use kumomiru.Prelude.{
  ℕ, ◌+◌, ◌*◌, ◌≤◌, String, ◌+ₛ◌, ◌≡◌, refl, sym, ap, ◌∙◌, ◌↔◌, ◌⊎◌, inl, inr, Bool, true, false,
  ◌||◌, Option, none, some, List, [], ◌∷◌, ◌++◌, leb, arith, Bool-cases, Option-cases,
}
use kumomiru.Graph.Schema.{Number, Json, CloudNode}
use kumomiru.Rules.{RuleContext}
use kumomiru.Graph.Values.{is_true}
use kumomiru.Rules.Checks.{attribute, has_attribute, number_lt, fails, is_cons}
use kumomiru.Rules.Checks.Iam.{
  day, days_between, days_since, stale_key, stale_or, over_90, access_key_rotation,
}

number_lt-days_between :
    (now t : ℕ) → (number_lt (Number.pos 90) (days_between now t) ≡ true) ↔ (t + 91 * day ≤ now)
number_lt-days_between now t = elim (Bool-cases (leb t now)) [
  | inl before ↦ rw before (ground arith)
  | inr after ↦ rw after (ground (arith, after))
]

is_cons-over_90 :
    (d : Number) (message : String → String)
    → is_cons (over_90 (some d) message) ≡ number_lt (Number.pos 90) d
is_cons-over_90 d message = elim (Bool-cases (number_lt (Number.pos 90) d)) [
  | inl over ↦ rw over refl
  | inr under ↦ rw under refl
]

module _ (date_parse : String → Option ℕ) (n : CloudNode) (ctx : RuleContext) where
  -- The key is active, and was rotated 91 days before the graph was made, or earlier.
  pub record Old (k : String) : Type 0 where
    pub active : is_true (attribute n ("accessKey" +ₛ k +ₛ "Active")) ≡ true
    pub iso : String
    pub rotated : attribute n ("accessKey" +ₛ k +ₛ "LastRotated") ≡ Json.str iso
    pub then_ms : ℕ
    pub at : date_parse iso ≡ some then_ms
    pub now_ms : ℕ
    pub clock : date_parse ctx.graph.meta.generated_at ≡ some now_ms
    pub age : then_ms + 91 * day ≤ now_ms

  days_since-text :
      (iso : String) (t now : ℕ)
      → date_parse iso ≡ some t
      → date_parse ctx.graph.meta.generated_at ≡ some now
      → days_since date_parse (Json.str iso) ctx ≡ some (days_between now t)
  unfolding days_since
  days_since-text iso t now e f = rw (days_since, e, f) refl

  days_since-cases :
      (v : Json)
      → ((iso : String) × (t : ℕ) × (now : ℕ) × (v ≡ Json.str iso)
          × (date_parse iso ≡ some t)
          × (date_parse ctx.graph.meta.generated_at ≡ some now))
        ⊎ (days_since date_parse v ctx ≡ none)
  unfolding days_since
  days_since-cases (Json.str iso) = elim (Option-cases (date_parse ctx.graph.meta.generated_at)) [
    | inl lost ↦ inr (rw (days_since, lost) refl)
    | inr (now, clock) ↦ elim (Option-cases (date_parse iso)) [
      | inl lost ↦ inr (rw (days_since, clock, lost) refl)
      | inr (t, at) ↦ inl (iso, t, now, refl, at, clock)
    ]
  ]
  days_since-cases Json.undefined = inr refl
  days_since-cases Json.null = inr refl
  days_since-cases (Json.bool b) = inr refl
  days_since-cases (Json.num m) = inr refl
  days_since-cases (Json.arr vs) = inr refl
  days_since-cases (Json.obj ms) = inr refl

  module _ (k : String) where
    abbrev rotated_at : Json
    rotated_at = attribute n ("accessKey" +ₛ k +ₛ "LastRotated")

    abbrev words : String → String
    words age = "key " +ₛ k +ₛ " is " +ₛ age +ₛ " days old"

    abbrev IsActive : Type 0
    IsActive = is_true (attribute n ("accessKey" +ₛ k +ₛ "Active")) ≡ true

    stale_key-active :
        IsActive
        → stale_key date_parse n ctx k ≡ over_90 (days_since date_parse rotated_at ctx) words
    unfolding stale_key
    stale_key-active active = rw (stale_key, active) refl

    stale_key-aged :
        (iso : String) (t now : ℕ)
        → IsActive
        → rotated_at ≡ Json.str iso
        → date_parse iso ≡ some t
        → date_parse ctx.graph.meta.generated_at ≡ some now
        → is_cons (stale_key date_parse n ctx k) ≡ number_lt (Number.pos 90) (days_between now t)
    stale_key-aged iso t now active rotated at clock =
        ap is_cons (stale_key-active active)
        ∙ ap (λ v. is_cons (over_90 (days_since date_parse v ctx) words)) rotated
        ∙ ap (λ d. is_cons (over_90 d words)) (days_since-text iso t now at clock)
        ∙ is_cons-over_90 (days_between now t) words

    Old-of_stale_key : is_cons (stale_key date_parse n ctx k) ≡ true → Old k
    unfolding stale_key
    Old-of_stale_key h = elim (Bool-cases (is_true (attribute n ("accessKey" +ₛ k +ₛ "Active")))) [
      | inr idle ↦
          let e : stale_key date_parse n ctx k ≡ [] = rw (stale_key, idle) refl in
          cc (h, ap is_cons e)
      | inl active ↦ elim (days_since-cases rotated_at) [
        | inr lost ↦
            let e : stale_key date_parse n ctx k ≡ [] =
              stale_key-active active ∙ ap (λ d. over_90 d words) lost in
            cc (h, ap is_cons e)
        | inl (iso, t, now, rotated, at, clock) ↦ record {
          active = active;
          iso = iso;
          rotated = rotated;
          then_ms = t;
          at = at;
          now_ms = now;
          clock = clock;
          age =
              (number_lt-days_between now t).0
                (sym (stale_key-aged iso t now active rotated at clock) ∙ h);
        }
      ]
    ]

    stale_key-of_Old : Old k → is_cons (stale_key date_parse n ctx k) ≡ true
    stale_key-of_Old o =
        stale_key-aged o.iso o.then_ms o.now_ms o.active o.rotated o.at o.clock
        ∙ (number_lt-days_between o.now_ms o.then_ms).1 o.age

  fails-stale_or :
      (xs ys : List String) (used : Bool)
      → fails (stale_or (xs ++ ys) used) ≡ (is_cons xs || is_cons ys)
  fails-stale_or [] [] true = refl
  fails-stale_or [] [] false = refl
  fails-stale_or [] (y ∷ ys) used = refl
  fails-stale_or (x ∷ xs) ys used = refl

  either : (a b : Bool) → a || b ≡ true → (a ≡ true) ⊎ (b ≡ true)
  either true b h = inl refl
  either false b h = inr h

  -- For a user of whom the credential report tells about the first key, the rule on the rotation of the
  -- access keys fails exactly if one of the two keys is active and was rotated 91 days of 86,400,000
  -- milliseconds or more before the graph was made; a key whose date cannot be read never fails it.
  pub access_key_rotation-Old_iff :
      has_attribute n "accessKey1Active" ≡ true
      → (fails ((access_key_rotation date_parse).check n ctx) ≡ true) ↔ (Old "1" ⊎ Old "2")
  access_key_rotation-Old_iff present =
      let verdict : fails ((access_key_rotation date_parse).check n ctx)
          ≡ (is_cons (stale_key date_parse n ctx "1") || is_cons (stale_key date_parse n ctx "2")) =
        rw present
          (fails-stale_or (stale_key date_parse n ctx "1") (stale_key date_parse n ctx "2") _) in
      (
        λ h. elim (either _ _ (sym verdict ∙ h)) [
          | inl first ↦ inl (Old-of_stale_key "1" first)
          | inr second ↦ inr (Old-of_stale_key "2" second)
        ],
        λ o. elim o [
          | inl first ↦ verdict ∙ rw (stale_key-of_Old "1" first) refl
          | inr second ↦ verdict ∙ rw (stale_key-of_Old "2" second) (ground arith)
        ],
      )
