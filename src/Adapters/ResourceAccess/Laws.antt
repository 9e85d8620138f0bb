-- ===== src/Adapters/ResourceAccess/Laws.antt =====
-- What the pass goes through: the grants of the resource policies.
use kumomiru.Prelude.{
  String, ◌≡◌, refl, inl, inr, true, false, not, ◌||◌, none, some, List, [], or_else, is_some,
  All-members, Member, subst, foldl-keeps, foldl-hits, arith, Bool-cases, Option-cases, ◌==◌,
}
use kumomiru.Adapters.Policy.{PolicyStatement, PolicyPrincipal}
use kumomiru.Adapters.Iam.{AnalyzedPrincipal, Found}
use kumomiru.Adapters.ResourceAccess.{
  AccessResource, permits, granted_action, audience, visit_audience, visit_granted, visit_statement,
  visit_resource, analyze_access,
}

abbrev pub conditions : PolicyStatement → List String
conditions stmt = or_else stmt.condition_keys []

-- A statement of a scanned resource grants the action to the principal.
pub record Grant (resources : List AccessResource) (res : AccessResource) (stmt : PolicyStatement)
    (p : PolicyPrincipal) (action : String) : Type 0 where
  pub scanned : Member res resources
  pub listed : Member stmt res.statements
  pub permitted : permits stmt ≡ true
  pub named : Member p (or_else stmt.principals [])
  pub granted : granted_action res stmt ≡ some action
  pub nonempty : action == "" ≡ false

module _ (principals : List AnalyzedPrincipal) (resources : List AccessResource)
    (self_account parent : String) where
  abbrev pub visit : AccessResource → PolicyStatement → PolicyPrincipal → String → Found → Found
  visit res stmt p action found =
      visit_audience principals self_account parent res action (conditions stmt)
        (audience self_account p) p.value found

  module _ (Inv : Found → Type 0)
      (keep : (res : AccessResource) (stmt : PolicyStatement) (p : PolicyPrincipal)
          (action : String)
        → Grant resources res stmt p action
        → (found : Found) → Inv found
        → Inv (visit res stmt p action found)) where
    visit_statement-keeps :
        (res : AccessResource)
        → Member res resources
        → (found : Found) (stmt : PolicyStatement) → Member stmt res.statements
        → Inv found
        → Inv (visit_statement principals self_account parent res found stmt)
    unfolding visit_statement visit_granted
    visit_statement-keeps res m found stmt n i =
        elim (Bool-cases (not (permits stmt) || not (is_some stmt.principals))) [
          | inl idle ↦ rw (visit_statement, idle) i
          | inr grants ↦ elim (Option-cases (granted_action res stmt)) [
            | inl nothing ↦ rw (visit_statement, grants, nothing) i
            | inr (action, granted) ↦ elim (Bool-cases (action == "")) [
              | inl blank ↦ rw (visit_statement, grants, granted, blank) i
              | inr real ↦
                  rw (visit_statement, grants, granted, real)
                    (foldl-keeps (λ f p. visit res stmt p action f) Inv
                      (λ p. Member p (or_else stmt.principals []))
                      (λ f p named j.
                        keep res stmt p action
                          (record {
                            scanned = m;
                            listed = n;
                            permitted = ground (arith, grants);
                            named = named;
                            granted = granted;
                            nonempty = real;
                          })
                          f j)
                      (or_else stmt.principals []) (All-members (or_else stmt.principals [])) found
                      i)
            ]
          ]
        ]

    -- What every grant keeps, the pass keeps.
    pub analyze_access-keeps :
        Inv (record { nodes = []; edges = []; findings = [] })
        → Inv (analyze_access principals resources self_account parent)
    unfolding analyze_access visit_resource
    analyze_access-keeps =
        foldl-keeps (visit_resource principals self_account parent) Inv
          (λ res. Member res resources)
          (λ f res m.
            foldl-keeps (visit_statement principals self_account parent res) Inv
              (λ stmt. Member stmt res.statements)
              (λ g stmt n. visit_statement-keeps res m g stmt n) res.statements
              (All-members res.statements) f)
          resources (All-members resources) (record { nodes = []; edges = []; findings = [] })

  module _ (Q : Found → Type 0)
      (keep : (res : AccessResource) (stmt : PolicyStatement) (p : PolicyPrincipal)
          (action : String) (found : Found)
        → Q found
        → Q (visit res stmt p action found))
      (res : AccessResource) (stmt : PolicyStatement) (p : PolicyPrincipal) (action : String)
      (grant : Grant resources res stmt p action)
      (hit : (found : Found) → Q (visit res stmt p action found)) where
    keeps_statement :
        (r : AccessResource) (found : Found) (s : PolicyStatement)
        → Q found
        → Q (visit_statement principals self_account parent r found s)
    unfolding visit_statement visit_granted
    keeps_statement r found s q =
        elim (Bool-cases (not (permits s) || not (is_some s.principals))) [
          | inl idle ↦ rw (visit_statement, idle) q
          | inr grants ↦ elim (Option-cases (granted_action r s)) [
            | inl nothing ↦ rw (visit_statement, grants, nothing) q
            | inr (a, granted) ↦ elim (Bool-cases (a == "")) [
              | inl blank ↦ rw (visit_statement, grants, granted, blank) q
              | inr real ↦
                  rw (visit_statement, grants, granted, real)
                    (foldl-keeps (λ f z. visit r s z a f) Q
                      (λ z. Member z (or_else s.principals [])) (λ f z _ k. keep r s z a f k)
                      (or_else s.principals []) (All-members (or_else s.principals [])) found q)
            ]
          ]
        ]

    some_principals : is_some stmt.principals ≡ true
    some_principals = elim (Option-cases stmt.principals) [
      | inl absent ↦ elim (no_member absent) [ ]
      | inr (ps, present) ↦ rw present refl
    ]
      where
        no_member : stmt.principals ≡ none → ⊥
        no_member absent = subst (λ o. Member p (or_else o [])) absent grant.named

    statement_hits :
        (found : Found) → Q (visit_statement principals self_account parent res found stmt)
    unfolding visit_statement visit_granted
    statement_hits found =
        let grants : not (permits stmt) || not (is_some stmt.principals) ≡ false =
          rw (grant.permitted, some_principals) refl in
        rw (visit_statement, grants, grant.granted, grant.nonempty)
          (foldl-hits (λ f z. visit res stmt z action f) Q (λ f z q. keep res stmt z action f q) p
            hit (or_else stmt.principals []) grant.named found)

    -- What a grant brings about and no visit undoes holds after the pass.
    pub analyze_access-hits : Q (analyze_access principals resources self_account parent)
    unfolding analyze_access visit_resource
    analyze_access-hits =
        foldl-hits (visit_resource principals self_account parent) Q
          (λ f r q.
            foldl-keeps (visit_statement principals self_account parent r) Q
              (λ s. Member s r.statements) (λ g s _ k. keeps_statement r g s k) r.statements
              (All-members r.statements) f q)
          res
          (λ f.
            foldl-hits (visit_statement principals self_account parent res) Q
              (λ g s k. keeps_statement res g s k) stmt statement_hits res.statements grant.listed
              f)
          resources grant.scanned (record { nodes = []; edges = []; findings = [] })
