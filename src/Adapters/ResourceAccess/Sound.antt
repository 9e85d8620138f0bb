-- ===== src/Adapters/ResourceAccess/Sound.antt =====
-- What a `can-access` edge stands for.
use mathlib.Core.Option.{some-injective}
use kumomiru.Prelude.{
  String, ◌≡◌, refl, sym, ap, ◌∙◌, ◌⊎◌, inl, inr, true, some, List, [], ◌∷◌, map, All, All-members,
  Member, subst, find_first, find_first-some, foldl-keeps, Option-cases,
}
use kumomiru.JsMap
use kumomiru.JsMap.Index
use kumomiru.Graph.Schema.{CloudEdge, Attributes}
use kumomiru.Adapters.Policy
use kumomiru.Adapters.Policy.{PolicyStatement, PolicyPrincipal, Decision, EvalResult, glob_test}
use kumomiru.Adapters.Iam.{first_of, AnalyzedPrincipal, Found, external_id, is_allow}
use kumomiru.Adapters.Iam.Laws.{is_allow-true}
use kumomiru.Adapters.ResourceAccess.{
  AccessResource, Audience, skipped, everyone, outside, delegated, direct, targets, audience,
  access_id, access_edge, add_access, allowing, visit_everyone, visit_outside, visit_delegate,
  visit_direct, named_principal, visit_audience, analyze_resource_access,
}
use kumomiru.Adapters.ResourceAccess.Laws.{Grant, conditions, analyze_access-keeps}

module _ (principals : List AnalyzedPrincipal) (resources : List AccessResource)
    (self_account : String) where
  -- The identity policies of a scanned principal allow the action on a name of the resource.
  pub record Allowed (res : AccessResource) (action : String) (pr : AnalyzedPrincipal)
      : Type 0 where
    pub known : Member pr principals
    pub target : String
    pub name : Member target (targets res)
    pub allowed : (Policy.evaluate pr.identity action target).decision ≡ Decision.allow

  -- How the source of an edge comes by the access, for each audience.
  pub data Reason (res : AccessResource) (p : PolicyPrincipal) (action : String) (source : String)
      : Audience → Type 0 where
    by_anyone : source ≡ external_id "*" → Reason res p action source everyone
    by_trust : source ≡ external_id p.value → Reason res p action source outside
    by_identity :
        (pr : AnalyzedPrincipal)
        → Allowed res action pr
        → source ≡ pr.id
        → Reason res p action source delegated
    by_name :
        (pr : AnalyzedPrincipal)
        → Member pr principals
        → (pr.id ≡ p.value) ⊎ (glob_test p.value pr.id ≡ true)
        → source ≡ pr.id
        → Reason res p action source direct

  pub record CanAccess (source target : String) : Type 0 where
    pub res : AccessResource
    pub stmt : PolicyStatement
    pub p : PolicyPrincipal
    pub action : String
    pub grant : Grant resources res stmt p action
    pub to : target ≡ res.id
    pub from : Reason res p action source (audience self_account p)

  abbrev pub IsSound : List CloudEdge → Type 0
  IsSound = All (λ e. CanAccess e.source e.target)

  All-add_access :
      (s t a : String) (attributes : Attributes) (m : List (String × CloudEdge))
      → CanAccess s t
      → IsSound (JsMap.values m)
      → IsSound (JsMap.values (add_access s t a attributes m))
  unfolding add_access access_edge
  All-add_access s t a attributes m p h =
      JsMap.All-values-set_new (λ e. CanAccess e.source e.target) (access_id s t)
        (access_edge s t a attributes) m p h

  All-evaluated :
      (pr : AnalyzedPrincipal) (action : String) (ts : List String) (P : EvalResult → Type 0)
      → ((t : String) → Member t ts → P (Policy.evaluate pr.identity action t))
      → All P (map (λ t. Policy.evaluate pr.identity action t) ts)
  All-evaluated pr action [] P h = tt
  All-evaluated pr action (t ∷ ts) P h =
      (h t (inl refl), All-evaluated pr action ts P (λ u m. h u (inr m)))

  -- The principal that is found is scanned, and bears the name.
  named_principal-named :
      (value : String) (pr : AnalyzedPrincipal)
      → named_principal value principals ≡ some pr
      → Member pr principals × ((pr.id ≡ value) ⊎ (glob_test value pr.id ≡ true))
  unfolding named_principal
  named_principal-named value pr found =
      let by_id = Index.index (λ q. q.id) principals in
      let rest = find_first (λ z. glob_test value z.id) (JsMap.values by_id) in
      let stored =
        Index.All-values-index (λ q. q.id) (λ q. Member q principals) principals
          (All-members principals) in
      elim (Option-cases (JsMap.get value by_id)) [
        | inr (q, here) ↦
            let same : q ≡ pr =
              some-injective q pr (sym (ap (λ o. first_of o rest) here) ∙ found) in
            (
              subst (λ z. Member z principals) same
                  (JsMap.All-values-get (λ z. Member z principals) value q by_id stored here),
              inl (
                  ap (λ z. z.id) (sym same)
                  ∙ Index.id-get-index (λ z. z.id) value principals q here),
            )
        | inl absent ↦
            let (known, matching) =
              find_first-some (λ z. glob_test value z.id) (λ z. Member z principals)
                (JsMap.values by_id) pr stored (sym (ap (λ o. first_of o rest) absent) ∙ found) in
            (known, inr matching)
      ]

  allowing-Allowed :
      (pr : AnalyzedPrincipal) (action : String) (res : AccessResource) (e : EvalResult)
      → Member pr principals
      → allowing pr action res ≡ some e
      → Allowed res action pr
  unfolding allowing
  allowing-Allowed pr action res e known found =
      let P : EvalResult → Type 0 =
        λ r. (t : String) × Member t (targets res) × (Policy.evaluate pr.identity action t ≡ r) in
      let ((t, name, same), allows) =
        find_first-some (λ r. is_allow r.decision) P
          (map (λ t. Policy.evaluate pr.identity action t) (targets res)) e
          (All-evaluated pr action (targets res) P (λ t m. (t, m, refl))) found in
      record {
        known = known;
        target = t;
        name = name;
        allowed = ap (λ r. r.decision) same ∙ is_allow-true e.decision allows;
      }

  Sound-visit :
      (res : AccessResource) (stmt : PolicyStatement) (p : PolicyPrincipal) (action : String)
      (parent : String)
      → Grant resources res stmt p action
      → (a : Audience) → audience self_account p ≡ a
      → (found : Found) → IsSound (JsMap.values found.edges)
      → IsSound (
          JsMap.values
            (visit_audience principals self_account parent res action
              (conditions stmt)
              a
              p.value
              found).edges)
  unfolding visit_audience visit_everyone visit_outside visit_delegate visit_direct
  Sound-visit res stmt p action parent g skipped is found h = h
  Sound-visit res stmt p action parent g everyone is found h =
      All-add_access (external_id "*") res.id action _ found.edges
        (record {
          res = res;
          stmt = stmt;
          p = p;
          action = action;
          grant = g;
          to = refl;
          from = subst (Reason res p action (external_id "*")) (sym is) (by_anyone refl);
        })
        h
  Sound-visit res stmt p action parent g outside is found h =
      All-add_access (external_id p.value) res.id action _ found.edges
        (record {
          res = res;
          stmt = stmt;
          p = p;
          action = action;
          grant = g;
          to = refl;
          from = subst (Reason res p action (external_id p.value)) (sym is) (by_trust refl);
        })
        h
  Sound-visit res stmt p action parent g delegated is found h =
      foldl-keeps (visit_delegate res action (conditions stmt))
        (λ f. IsSound (JsMap.values f.edges)) (λ pr. Member pr principals)
        (λ f pr known i. elim (Option-cases (allowing pr action res)) [
          | inl refused ↦ rw (visit_delegate, refused) i
          | inr (e, allowed) ↦
              rw (visit_delegate, allowed)
                (All-add_access pr.id res.id action _ f.edges
                  (record {
                    res = res;
                    stmt = stmt;
                    p = p;
                    action = action;
                    grant = g;
                    to = refl;
                    from =
                        subst (Reason res p action pr.id) (sym is)
                          (by_identity pr (allowing-Allowed pr action res e known allowed) refl);
                  })
                  i)
        ])
        principals (All-members principals) found h
  Sound-visit res stmt p action parent g direct is found h =
      elim (Option-cases (named_principal p.value principals)) [
        | inl unknown ↦ rw (visit_direct, unknown) h
        | inr (pr, found_pr) ↦
            let (known, named) = named_principal-named p.value pr found_pr in
            rw (visit_direct, found_pr)
              (All-add_access pr.id res.id action _ found.edges
                (record {
                  res = res;
                  stmt = stmt;
                  p = p;
                  action = action;
                  grant = g;
                  to = refl;
                  from = subst (Reason res p action pr.id) (sym is) (by_name pr known named refl);
                })
                h)
      ]

  -- Every edge of the pass goes from a principal to a resource of which a statement that is no refusal
  -- grants an action of interest, and for a reason: it is the stranger that the statement names, or
  -- anyone; a scanned principal whose identity policies allow the action on the resource, where the
  -- statement names the account; or the scanned principal that it names, by id or by glob.
  pub analyze_resource_access-CanAccess :
      (parent : String)
      → IsSound (analyze_resource_access principals resources self_account parent).edges
  unfolding analyze_resource_access
  analyze_resource_access-CanAccess parent =
      analyze_access-keeps principals resources self_account parent
        (λ f. IsSound (JsMap.values f.edges))
        (λ res stmt p action g f i.
          Sound-visit res stmt p action parent g (audience self_account p) refl f i)
        tt
