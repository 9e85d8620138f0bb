-- ===== src/Rules/Registry/Complete.antt =====
-- What the registration of a list of rules gives.
use kumomiru.Prelude.{
  String, ◌+ₛ◌, ◌≡◌, refl, sym, ap, ◌∙◌, ◌⊎◌, inl, inr, true, false, ◌||◌, none, List, [], ◌∷◌,
  ◌++◌, map, All, arith, ◌==◌, Bool-cases, find_first,
}
use kumomiru.JsMap
use kumomiru.JsSet
use kumomiru.Rules.{Rule, base_of}
use kumomiru.Rules.Registry.{Registry, register, register_all, list}

abbrev pub rule_id : Rule → String
rule_id r = (base_of r).id

abbrev pub entry : Rule → String × Rule
entry r = (rule_id r, r)

-- No rule of the list names one that it replaces.
abbrev pub ReplaceNothing : List Rule → Type 0
ReplaceNothing = All (λ r. (base_of r).replaces ≡ none)

append_nil : (m : Registry) → m ≡ m ++ []
append_nil [] = refl
append_nil (e ∷ m) = ap (◌∷◌ e) (append_nil m)

has-concat :
    (j : String) (i : String) (v : Rule) (m : Registry)
    → JsMap.has j (m ++ (i, v) ∷ []) ≡ (JsMap.has j m || i == j)
unfolding JsMap.has JsMap.get
has-concat j i v [] = ground arith
has-concat j i v ((k, w) ∷ m) = ground (arith, has-concat j i v m)

set-concat :
    (i : String) (v : Rule) (m : Registry)
    → JsMap.has i m ≡ false
    → JsMap.set i v m ≡ m ++ (i, v) ∷ []
unfolding JsMap.has JsMap.get JsMap.set
set-concat i v [] h = refl
set-concat i v ((k, w) ∷ m) h = ground (arith, set-concat i v m)

register-new :
    (rule : Rule) (m : Registry)
    → (base_of rule).replaces ≡ none
    → JsMap.has (rule_id rule) m ≡ false
    → register rule m ≡ inl (m ++ entry rule ∷ [])
unfolding register find_first
register-new rule m nothing new =
    rw (register, new, nothing, set-concat (rule_id rule) rule m new) refl

register-known :
    (rule : Rule) (m : Registry)
    → JsMap.has (rule_id rule) m ≡ true
    → register rule m ≡ inr ("duplicate rule id: " +ₛ rule_id rule)
unfolding register
register-known rule m known = rw (register, known) refl

append-one : (m : Registry) (e : String × Rule) (es : Registry) → (m ++ e ∷ []) ++ es ≡ m ++ e ∷ es
append-one [] e es = refl
append-one (f ∷ m) e es = ap (◌∷◌ f) (append-one m e es)

register_all-error :
    (rules : List Rule) (error : String) → register_all rules (inr error) ≡ inr error
unfolding register_all
register_all-error [] error = refl
register_all-error (r ∷ rules) error = refl

-- `error` names the first rule whose id the set `s` or a rule before it has.
record Repeats (s : List String) (rules : List Rule) (error : String) : Type 0 where
  before : List Rule
  repeated : Rule
  after : List Rule
  split : rules ≡ before ++ repeated ∷ after
  new_before : JsSet.Unseen s (map rule_id before)
  known :
      (JsSet.has (rule_id repeated) s || JsSet.has (rule_id repeated) (map rule_id before)) ≡ true
  named : error ≡ "duplicate rule id: " +ₛ rule_id repeated

Repeats-cons :
    (s : List String) (r : Rule) (rules : List Rule) (error : String)
    → JsSet.has (rule_id r) s ≡ false
    → Repeats (JsSet.add (rule_id r) s) rules error
    → Repeats s (r ∷ rules) error
unfolding JsSet.has
Repeats-cons s r rules error new later = record {
  before = r ∷ later.before;
  repeated = later.repeated;
  after = later.after;
  split = ap (◌∷◌ r) later.split;
  new_before = (new, later.new_before);
  known = ground (arith, later.known, JsSet.has-add (rule_id later.repeated) (rule_id r) s);
  named = later.named;
}

-- `s` has the ids that are registered.
Registers-from :
    (m : Registry) (s : List String) (rules : List Rule)
    → ((k : String) → JsMap.has k m ≡ JsSet.has k s)
    → ReplaceNothing rules
    → (JsSet.Unseen s (map rule_id rules)
        × (register_all rules (inl m) ≡ inl (m ++ map entry rules)))
      ⊎ (¬ JsSet.Unseen s (map rule_id rules)
          × (error : String) × (register_all rules (inl m) ≡ inr error)
          × Repeats s rules error)
unfolding register_all JsSet.has
Registers-from m s [] same nothing = inl (tt, ap inl (append_nil m))
Registers-from m s (r ∷ rules) same nothing = elim (Bool-cases (JsMap.has (rule_id r) m)) [
  | inl known ↦ inr (
    λ u. cc (u.0, same (rule_id r), known),
    "duplicate rule id: " +ₛ rule_id r,
    ap (register_all rules) (register-known r m known) ∙ register_all-error rules _,
    record {
      before = [];
      repeated = r;
      after = rules;
      split = refl;
      new_before = tt;
      known = ground (arith, same (rule_id r), known);
      named = refl;
    },
  )
  | inr new ↦
      let first = ap (register_all rules) (register-new r m nothing.0 new) in
      let unseen = sym (same (rule_id r)) ∙ new in
      elim (Registers-from (m ++ entry r ∷ []) (JsSet.add (rule_id r) s) rules
        (λ k. ground (arith, has-concat k (rule_id r) r m, JsSet.has-add k (rule_id r) s, same k))
        nothing.1) [
          | inl (u, ok) ↦
              inl ((unseen, u), first ∙ ok ∙ ap inl (append-one m (entry r) (map entry rules)))
          | inr (seen, error, ended, later) ↦
              inr (λ u. seen u.1, error, first ∙ ended, Repeats-cons s r rules error unseen later)
        ]
]

values-entries : (rules : List Rule) → JsMap.values (map entry rules) ≡ rules
values-entries [] = refl
values-entries (r ∷ rules) = ap (◌∷◌ r) (values-entries rules)

-- The rules before `repeated` have distinct ids, one of them has the id of `repeated`, and the error
-- names that id.
pub record FirstRepeat (rules : List Rule) (error : String) : Type 0 where
  pub before : List Rule
  pub repeated : Rule
  pub after : List Rule
  pub split : rules ≡ before ++ repeated ∷ after
  pub distinct_before : JsSet.Distinct (map rule_id before)
  pub known : JsSet.has (rule_id repeated) (map rule_id before) ≡ true
  pub named : error ≡ "duplicate rule id: " +ₛ rule_id repeated

FirstRepeat-of :
    (rules : List Rule) (error : String) → Repeats [] rules error → FirstRepeat rules error
unfolding JsSet.has
FirstRepeat-of rules error r = record {
  before = r.before;
  repeated = r.repeated;
  after = r.after;
  split = r.split;
  distinct_before = (JsSet.Unseen-nil_iff (map rule_id r.before)).0 r.new_before;
  known = r.known;
  named = r.named;
}

-- Rules that replace nothing are registered if their ids are distinct, and then the registry lists
-- them all in their order; if they are not, there is a first rule with the id of a rule before it, and the
-- registration ends with the error that names that id.
pub register_all-cases :
    (rules : List Rule)
    → ReplaceNothing rules
    → (JsSet.Distinct (map rule_id rules)
        × (reg : Registry) × (register_all rules (inl []) ≡ inl reg)
        × (list reg ≡ rules))
      ⊎ (¬ JsSet.Distinct (map rule_id rules)
          × (error : String) × (register_all rules (inl []) ≡ inr error)
          × FirstRepeat rules error)
unfolding JsMap.has JsMap.get JsSet.has
register_all-cases rules nothing = elim (Registers-from [] [] rules (λ k. refl) nothing) [
  | inl (u, ok) ↦
      inl
        ((JsSet.Unseen-nil_iff (map rule_id rules)).0 u, map entry rules, ok, values-entries rules)
  | inr (seen, error, ended, r) ↦ inr (
    λ d. seen ((JsSet.Unseen-nil_iff (map rule_id rules)).1 d),
    error,
    ended,
    FirstRepeat-of rules error r,
  )
]
