-- ===== src/Adapters/Iam/Laws.antt =====
-- What a `can-assume` edge stands for.
use kumomiru.Prelude.{
  String, ◌≡◌, refl, ◌⊎◌, inl, inr, true, false, ◌&&◌, List, [], ◌++◌, keep_if, or_else, is_some,
  All, All-keep_if, All-members, Member, foldl-keeps, arith, Bool-cases,
}
use kumomiru.JsSet
use kumomiru.JsMap
use kumomiru.Graph.Schema.{Attributes, CloudEdge}
use kumomiru.Adapters.Policy
use kumomiru.Adapters.Policy.{Decision}
use kumomiru.Adapters.Iam.{
  AnalyzedPrincipal, AssumeTrustEntry, Found, assume_action, assume_id, assume_edge, external_id,
  external_attrs, internal_attrs, trust_conditions, is_external_principal, is_named, is_allow,
  grants_nothing, add_edge, visit_source, visit_entry, visit_role, analyze, analyze_assume_role,
}

module _ (principals : List AnalyzedPrincipal) (self_account : String) where
  -- The role has the entry in its trust policy, and the entry is neither a service's nor a refusal.
  pub record Trusts (role : AnalyzedPrincipal) (entry : AssumeTrustEntry) : Type 0 where
    pub scanned : Member role principals
    pub listed : Member entry (or_else role.trust [])
    pub granting : grants_nothing entry ≡ false

  -- A principal outside the account, of whom the trust alone is known.
  pub record FromOutside (source target : String) : Type 0 where
    pub role : AnalyzedPrincipal
    pub entry : AssumeTrustEntry
    pub trusts : Trusts role entry
    pub outside : is_external_principal entry.principal_value self_account ≡ true
    pub from : source ≡ external_id entry.principal_value
    pub to : target ≡ role.id

  -- A scanned principal, with both sides.
  pub record BothSides (source target : String) : Type 0 where
    pub role : AnalyzedPrincipal
    pub entry : AssumeTrustEntry
    pub trusts : Trusts role entry
    pub inside : is_external_principal entry.principal_value self_account ≡ false
    pub principal : AnalyzedPrincipal
    pub known : Member principal principals
    pub named : is_named role entry principal ≡ true
    pub allowed :
        (Policy.evaluate principal.identity assume_action role.id).decision ≡ Decision.allow
    pub from : source ≡ principal.id
    pub to : target ≡ role.id

  abbrev pub CanAssume : String → String → Type 0
  CanAssume source target = FromOutside source target ⊎ BothSides source target

pub is_allow-true : (d : Decision) → is_allow d ≡ true → d ≡ Decision.allow
is_allow-true Decision.allow h = refl
is_allow-true Decision.deny h = cc
is_allow-true Decision.implicit_deny h = cc

All-values-add_edge :
    (P : CloudEdge → Type 0) (s t : String) (a : Attributes) (m : List (String × CloudEdge))
    → P (assume_edge s t a)
    → All P (JsMap.values m)
    → All P (JsMap.values (add_edge s t a m))
unfolding add_edge JsMap.set_new
All-values-add_edge P s t a m p h = elim (Bool-cases (JsMap.has (assume_id s t) m)) [
  | inl old ↦ rw old h
  | inr new ↦ rw new (JsMap.All-values-set P (assume_id s t) (assume_edge s t a) m p h)
]

module _ (principals : List AnalyzedPrincipal) (self_account parent : String) where
  abbrev Sound : Found → Type 0
  Sound found =
      All (λ e. CanAssume principals self_account e.source e.target) (JsMap.values found.edges)

  Sound-visit_source :
      (role : AnalyzedPrincipal) (entry : AssumeTrustEntry)
      → Trusts principals self_account role entry
      → is_external_principal entry.principal_value self_account ≡ false
      → (found : Found) (src : AnalyzedPrincipal) → Member src principals
      → Sound found
      → Sound (visit_source role entry found src)
  unfolding visit_source
  Sound-visit_source role entry t inside found src m h =
      let ev = Policy.evaluate src.identity assume_action role.id in
      elim (Bool-cases (is_named role entry src && is_allow ev.decision)) [
        | inr fails ↦ rw fails h
        | inl holds ↦ rw holds (
            All-values-add_edge (λ e. CanAssume principals self_account e.source e.target) src.id
              role.id (internal_attrs (JsSet.of_list (trust_conditions entry ++ ev.condition_keys)))
              found.edges
              (inr (record {
                role = role;
                entry = entry;
                trusts = t;
                inside = inside;
                principal = src;
                known = m;
                named = ground (arith, holds);
                allowed = is_allow-true ev.decision (ground (arith, holds));
                from = refl;
                to = refl;
              }))
              h)
      ]

  Sound-visit_entry :
      (role : AnalyzedPrincipal)
      → Member role principals
      → (found : Found) (entry : AssumeTrustEntry) → Member entry (or_else role.trust [])
      → Sound found
      → Sound (visit_entry principals self_account parent role found entry)
  unfolding visit_entry
  Sound-visit_entry role r found entry m h = elim (Bool-cases (grants_nothing entry)) [
    | inl idle ↦ rw idle h
    | inr granting ↦
        let t : Trusts principals self_account role entry = record {
          scanned = r;
          listed = m;
          granting = granting;
        } in
        elim (Bool-cases (is_external_principal entry.principal_value self_account)) [
          | inl outside ↦
              rw (granting, outside)
                (All-values-add_edge (λ e. CanAssume principals self_account e.source e.target)
                  (external_id entry.principal_value) role.id
                  (external_attrs (trust_conditions entry)) found.edges
                  (inl (record {
                    role = role;
                    entry = entry;
                    trusts = t;
                    outside = outside;
                    from = refl;
                    to = refl;
                  }))
                  h)
          | inr inside ↦
              rw (granting, inside)
                (foldl-keeps (visit_source role entry) Sound (λ src. Member src principals)
                  (λ s src m i. Sound-visit_source role entry t inside s src m i) principals
                  (All-members principals) found h)
        ]
  ]

  Sound-analyze : Sound (analyze principals self_account parent)
  unfolding analyze visit_role
  Sound-analyze =
      foldl-keeps (visit_role principals self_account parent) Sound (λ role. Member role principals)
        (λ s role m i.
          foldl-keeps (visit_entry principals self_account parent role) Sound
            (λ entry. Member entry (or_else role.trust []))
            (λ t entry n j. Sound-visit_entry role m t entry n j) (or_else role.trust [])
            (All-members (or_else role.trust [])) s i)
        (keep_if (λ p. is_some p.trust) principals)
        (All-keep_if (λ p. Member p principals) (λ p. is_some p.trust) principals
          (All-members principals))
        (record { nodes = []; edges = []; findings = [] }) tt

-- Every edge that the pass emits runs either from the node of a principal outside the account to a
-- role that trusts it, or from a scanned principal to another principal's role whose trust policy
-- names it and whose assumption its own identity policies allow.
pub analyze_assume_role_sound :
    (principals : List AnalyzedPrincipal) (self_account parent : String)
    → All
        (λ e. CanAssume principals self_account e.source e.target)
        (analyze_assume_role principals self_account parent).edges
unfolding analyze_assume_role
analyze_assume_role_sound principals self_account parent =
    Sound-analyze principals self_account parent
