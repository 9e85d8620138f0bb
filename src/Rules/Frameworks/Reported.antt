-- ===== src/Rules/Frameworks/Reported.antt =====
-- The controls of the built-in rules against the catalogues.
use kumomiru.Prelude.{
  ℕ, String, ◌≡◌, refl, sym, ap, ◌∙◌, Bool, true, false, not, inl, Option, List, [], ◌∷◌, map, All,
  All-mono, any, arith, find_first, any-false,
}
use kumomiru.JsSet
use kumomiru.Graph.Schema.{Framework, framework_eq, ControlRef}
use kumomiru.Db.Results.{RuleResult}
use kumomiru.Rules.{Rule, base_of}
use kumomiru.Rules.Compliance.{Control, ControlStatus, control_statuses, control_status}
use kumomiru.Rules.Checks.Builtin.{builtin_rules}
use kumomiru.Rules.Frameworks.{Catalogue, catalogue, fsbp_catalogue, nist_csf_2_catalogue}

abbrev of_framework : Framework → Catalogue
of_framework Framework.fsbp = fsbp_catalogue
of_framework Framework.nist_csf_2 = nist_csf_2_catalogue

catalogue-found : (f : Framework) → catalogue f ≡ inl (of_framework f)
unfolding catalogue find_first
catalogue-found Framework.fsbp = refl
catalogue-found Framework.nist_csf_2 = refl

abbrev ids_of : Framework → List String
ids_of f = map (λ c. c.id) (of_framework f).controls

abbrev is_listed : ControlRef → Bool
is_listed c = JsSet.has c.id (ids_of c.framework)

none_unlisted :
    (date_parse : String → Option ℕ)
    → any (λ r. any (λ c. not (is_listed c)) (base_of r).controls) (builtin_rules date_parse)
      ≡ false
unfolding any JsSet.has
none_unlisted date_parse = refl

framework_eq-eq : (f g : Framework) → framework_eq f g ≡ true → f ≡ g
framework_eq-eq Framework.fsbp Framework.fsbp h = refl
framework_eq-eq Framework.fsbp Framework.nist_csf_2 h = cc h
framework_eq-eq Framework.nist_csf_2 Framework.fsbp h = cc h
framework_eq-eq Framework.nist_csf_2 Framework.nist_csf_2 h = refl

abbrev pub reported : List ControlStatus → List String
reported = map (λ s. s.control_id)

reported-control_statuses :
    (f : Framework) (controls : List Control) (results : List RuleResult) (rules : List Rule)
    → reported (control_statuses f controls results rules) ≡ map (λ c. c.id) controls
unfolding control_statuses control_status
reported-control_statuses f [] results rules = refl
reported-control_statuses f (c ∷ cs) results rules =
    ap (◌∷◌ c.id) (reported-control_statuses f cs results rules)

-- The report on the framework by the built-in rules has the controls of the rule.
abbrev pub IsReported :
    (String → Option ℕ) → Framework → List RuleResult → Catalogue → Rule → Type 0
IsReported date_parse f results cat r =
    All
      (λ c.
        framework_eq c.framework f ≡ true
        → JsSet.has c.id
            (reported (control_statuses f cat.controls results (builtin_rules date_parse)))
          ≡ true)
      (base_of r).controls

-- Each framework has a catalogue, and whatever rows a scan left, the report on the framework by the
-- built-in rules has a status for every control that one of these rules maps to. No such control is
-- dropped for want of an entry in the catalogue.
pub builtin_rules-IsReported :
    (date_parse : String → Option ℕ) (f : Framework) (results : List RuleResult)
    → (cat : Catalogue) × (catalogue f ≡ inl cat)
      × All (IsReported date_parse f results cat) (builtin_rules date_parse)
builtin_rules-IsReported date_parse f results = (
  of_framework f,
  catalogue-found f,
  All-mono (λ r. any (λ c. not (is_listed c)) (base_of r).controls ≡ false)
      (IsReported date_parse f results (of_framework f))
      (λ r h.
        All-mono (λ c. not (is_listed c) ≡ false)
          (λ c.
            framework_eq c.framework f ≡ true
            → JsSet.has c.id (
                reported
                  (control_statuses f (of_framework f).controls results (builtin_rules date_parse)))
              ≡ true)
          (λ c listed same.
            ap (JsSet.has c.id) (
              reported-control_statuses f (of_framework f).controls results
                (builtin_rules date_parse)
              ∙ ap ids_of (sym (framework_eq-eq c.framework f same)))
            ∙ ground (arith, listed))
          (base_of r).controls (any-false (λ c. not (is_listed c)) (base_of r).controls h))
      (builtin_rules date_parse)
      (any-false (λ r. any (λ c. not (is_listed c)) (base_of r).controls) (builtin_rules date_parse)
        (none_unlisted date_parse)),
)
