-- ===== src/Adapters/PolicyDoc/Malformed.antt =====
-- A document that cannot be read grants nothing.
use kumomiru.Prelude.{
  String, ◌≡◌, refl, sym, ap, ◌∙◌, Bool, true, false, ◌||◌, List, [], ◌∷◌, any, keep_if, flat_map,
  if◌then◌else◌, Member, arith, Bool-cases, inl, inr,
}
use kumomiru.Graph.Schema.{Json}
use kumomiru.Graph.Values.{is_text, field}
use kumomiru.Adapters.Policy.{Decision, evaluate, applies, refuses, outcome}
use kumomiru.Adapters.Policy.Laws.{is_deny, is_grant, keys_of, evaluate-eq}
use kumomiru.Adapters.PolicyDoc.{
  Builtins, as_array, is_object, project_statement, project_statements, parse_policy_doc,
  project_policy_document,
}

-- The entry of the document that a grant comes from: an object whose effect is not "Deny", and which
-- applies as it is projected.
pub record Granting (action resource : String) (raws : List Json) : Type 0 where
  pub raw : Json
  pub listed : Member raw raws
  pub object : is_object raw ≡ true
  pub effect : is_text "Deny" (field "Effect" raw) ≡ false
  pub applied : applies action resource (project_statement raw) ≡ true

module _ (action resource : String) where
  refuses-project_statement :
      (raw : Json) → refuses (project_statement raw) ≡ is_text "Deny" (field "Effect" raw)
  unfolding project_statement
  refuses-project_statement raw = elim (Bool-cases (is_text "Deny" (field "Effect" raw))) [
    | inl deny ↦ rw deny refl
    | inr grant ↦ rw grant refl
  ]

  later :
      (raw : Json) (rest : List Json)
      → Granting action resource rest
      → Granting action resource (raw ∷ rest)
  later raw rest g = record {
    raw = g.raw;
    listed = inr g.listed;
    object = g.object;
    effect = g.effect;
    applied = g.applied;
  }

  skips :
      (raw : Json) (rest : List Json)
      → is_object raw ≡ false
      → project_statements (raw ∷ rest) ≡ project_statements rest
  unfolding project_statements
  skips raw rest skipped = rw (project_statements, skipped) refl

  projects :
      (raw : Json) (rest : List Json)
      → is_object raw ≡ true
      → project_statements (raw ∷ rest) ≡ project_statement raw ∷ project_statements rest
  unfolding project_statements
  projects raw rest object = rw (project_statements, object) refl

  Granting-of_any :
      (raws : List Json)
      → any (is_grant action resource) (project_statements raws) ≡ true
      → Granting action resource raws
  unfolding any project_statements
  Granting-of_any [] h = cc h
  Granting-of_any (raw ∷ rest) h = elim (Bool-cases (is_object raw)) [
    | inr skipped ↦ later raw rest (
        Granting-of_any rest
          (sym (ap (any (is_grant action resource)) (skips raw rest skipped)) ∙ h))
    | inl object ↦ elim (Bool-cases (is_grant action resource (project_statement raw))) [
      | inl grants ↦ record {
        raw = raw;
        listed = inl refl;
        object = object;
        effect = sym (refuses-project_statement raw) ∙ ground (arith, grants);
        applied = ground (arith, grants);
      }
      | inr idle ↦
          let h' : is_grant action resource (project_statement raw)
                || any (is_grant action resource) (project_statements rest)
              ≡ true =
            sym (ap (any (is_grant action resource)) (projects raw rest object)) ∙ h in
          later raw rest (Granting-of_any rest (ground (arith, h', idle)))
    ]
  ]

  -- The two tests of the verdict, and what an allowing one says of them.
  granted_of_allow :
      (denied granted : Bool) (keys : List String)
      → (if denied
          then record { decision = Decision.deny; condition_keys = [] }
          else outcome granted keys).decision
        ≡ Decision.allow
      → granted ≡ true
  granted_of_allow true granted keys h = cc h
  granted_of_allow false true keys h = refl
  granted_of_allow false false keys h = cc h

  -- Where the evaluator allows an action by a document, the document could be read, and has among its
  -- statements an object that applies and whose effect is not the text "Deny".
  pub Granting-of_allow :
      (js : Builtins) (doc : Json)
      → (evaluate (project_policy_document js doc) action resource).decision ≡ Decision.allow
      → Granting action resource (as_array (field "Statement" (parse_policy_doc js doc)))
  unfolding project_policy_document
  Granting-of_allow js doc h =
      let raws = as_array (field "Statement" (parse_policy_doc js doc)) in
      Granting-of_any raws (
        granted_of_allow (any (is_deny action resource) (project_statements raws))
          (any (is_grant action resource) (project_statements raws))
          (flat_map keys_of (keep_if (is_grant action resource) (project_statements raws)))
          (ap (λ r. r.decision) (sym (evaluate-eq action resource (project_statements raws))) ∙ h))
