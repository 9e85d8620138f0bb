-- ===== src/Adapters/ResourceAccess/Reports.antt =====
-- The grants to everyone and to strangers that the pass reports.
use mathlib.Core.Option.{some-injective}
use kumomiru.JsMap.Collect.{has-keys}
use kumomiru.Prelude.{
  String, ◌≡◌, refl, sym, ap, ◌∙◌, ◌⊎◌, inl, inr, true, Option, none, some, List, [], ◌∷◌, map,
  foldl, All, subst, arith, Bool-cases, Option-cases, ◌==◌, eq_iff,
}
use kumomiru.JsSet
use kumomiru.JsMap
use kumomiru.Graph.Schema.{Finding}
use kumomiru.Adapters.Policy.{PolicyStatement, PolicyPrincipal}
use kumomiru.Adapters.Iam.{AnalyzedPrincipal, Found}
use kumomiru.Adapters.ResourceAccess.{
  AccessResource, Audience, skipped, everyone, outside, delegated, direct, audience, allowing,
  public_id, public_finding, outside_id, outside_finding, visit_everyone, visit_outside,
  visit_delegate, visit_direct, named_principal, visit_audience, analyze_access,
  analyze_resource_access,
}
use kumomiru.Adapters.ResourceAccess.Laws.{
  Grant, conditions, analyze_access-keeps, analyze_access-hits,
}

abbrev Findings : Type 0
Findings = List (String × Finding)

-- Each finding stands under its id.
abbrev KeyedBy : Findings → Type 0
KeyedBy m = All (λ e. e.1.id ≡ e.0) m

ids_of_keyed : (m : Findings) → KeyedBy m → map (λ f. f.id) (JsMap.values m) ≡ JsMap.keys m
ids_of_keyed [] h = refl
ids_of_keyed (e ∷ m) h = cc (h.0, ids_of_keyed m h.1)

KeyedBy-set : (f : Finding) (m : Findings) → KeyedBy m → KeyedBy (JsMap.set f.id f m)
unfolding JsMap.set
KeyedBy-set f [] h = (refl, tt)
KeyedBy-set f ((j, g) ∷ m) h = elim (Bool-cases (j == f.id)) [
  | inl same ↦ rw same (sym ((eq_iff j f.id).0 same), h.1)
  | inr other ↦ rw other (h.0, KeyedBy-set f m h.1)
]

KeyedBy-set_new : (f : Finding) (m : Findings) → KeyedBy m → KeyedBy (JsMap.set_new f.id f m)
unfolding JsMap.set_new
KeyedBy-set_new f m h = elim (Bool-cases (JsMap.has f.id m)) [
  | inl old ↦ rw old h
  | inr new ↦ rw new (KeyedBy-set f m h)
]

module _ (principals : List AnalyzedPrincipal) (self_account parent : String) (res : AccessResource)
    (action : String) (conds : List String) where
  delegate_findings :
      (ps : List AnalyzedPrincipal) (found : Found)
      → (foldl (visit_delegate res action conds) found ps).findings ≡ found.findings
  unfolding visit_delegate
  delegate_findings [] found = refl
  delegate_findings (pr ∷ ps) found =
      delegate_findings ps (visit_delegate res action conds found pr)
      ∙ elim (Option-cases (allowing pr action res)) [
        | inl refused ↦ rw (visit_delegate, refused) refl
        | inr (e, allowed) ↦ rw (visit_delegate, allowed) refl
      ]

  direct_findings :
      (value : String) (found : Found)
      → (visit_direct res action conds principals value found).findings ≡ found.findings
  unfolding visit_direct
  direct_findings value found = elim (Option-cases (named_principal value principals)) [
    | inl unknown ↦ rw (visit_direct, unknown) refl
    | inr (pr, known) ↦ rw (visit_direct, known) refl
  ]

  -- A visit adds at most one finding, under its id, and takes none away.
  findings_after :
      (a : Audience) (value : String) (found : Found)
      → ((f : Finding) × ((visit_audience principals self_account parent res action conds a value
              found).findings
            ≡ JsMap.set_new f.id f found.findings))
        ⊎ ((visit_audience principals self_account parent res action conds a value found).findings
            ≡ found.findings)
  unfolding visit_audience visit_everyone visit_outside public_finding outside_finding
  findings_after skipped value found = inr refl
  findings_after everyone value found = inl (public_finding res.id action conds, refl)
  findings_after outside value found = inl (outside_finding res.id value action conds, refl)
  findings_after delegated value found = inr (delegate_findings principals found)
  findings_after direct value found = inr (direct_findings value found)

  KeyedBy-visit :
      (a : Audience) (value : String) (found : Found)
      → KeyedBy found.findings
      → KeyedBy
          (visit_audience principals self_account parent res action conds a value found).findings
  KeyedBy-visit a value found h = elim (findings_after a value found) [
    | inl (f, e) ↦ subst KeyedBy (sym e) (KeyedBy-set_new f found.findings h)
    | inr e ↦ subst KeyedBy (sym e) h
  ]

  has-visit :
      (k : String) (a : Audience) (value : String) (found : Found)
      → JsMap.has k found.findings ≡ true
      → JsMap.has k
          (visit_audience principals self_account parent res action conds a value found).findings
        ≡ true
  has-visit k a value found h = elim (findings_after a value found) [
    | inl (f, e) ↦ ap (JsMap.has k) e ∙ JsMap.has-set_new k f.id f found.findings ∙ rw h refl
    | inr e ↦ ap (JsMap.has k) e ∙ h
  ]

-- The id of the finding for a grant to everyone or to a stranger.
abbrev pub reported_id : AccessResource → PolicyPrincipal → Audience → Option String
reported_id res p skipped = none
reported_id res p everyone = some (public_id res.id)
reported_id res p outside = some (outside_id p.value res.id)
reported_id res p delegated = none
reported_id res p direct = none

module _ (principals : List AnalyzedPrincipal) (resources : List AccessResource)
    (self_account parent : String) where
  has-visited :
      (res : AccessResource) (stmt : PolicyStatement) (p : PolicyPrincipal) (action k : String)
      → (a : Audience) → reported_id res p a ≡ some k
      → (found : Found)
      → JsMap.has k
          (visit_audience principals self_account parent res action
            (conditions stmt)
            a
            p.value
            found).findings
        ≡ true
  unfolding visit_audience visit_everyone visit_outside
  has-visited res stmt p action k skipped e found = cc e
  has-visited res stmt p action k everyone e found =
      let here : public_id res.id ≡ k = some-injective (public_id res.id) k e in
      JsMap.has-set_new k (public_id res.id) (public_finding res.id action (conditions stmt))
        found.findings
      ∙ ground (arith, (eq_iff (public_id res.id) k).1 here)
  has-visited res stmt p action k outside e found =
      let here : outside_id p.value res.id ≡ k = some-injective (outside_id p.value res.id) k e in
      JsMap.has-set_new k (outside_id p.value res.id)
        (outside_finding res.id p.value action (conditions stmt)) found.findings
      ∙ ground (arith, (eq_iff (outside_id p.value res.id) k).1 here)
  has-visited res stmt p action k delegated e found = cc e
  has-visited res stmt p action k direct e found = cc e

  KeyedBy-analyze_access :
      KeyedBy (analyze_access principals resources self_account parent).findings
  KeyedBy-analyze_access =
      analyze_access-keeps principals resources self_account parent (λ f. KeyedBy f.findings)
        (λ res stmt p action g f h.
          KeyedBy-visit principals self_account parent res action (conditions stmt)
            (audience self_account p) p.value f h)
        tt

  -- No grant to everyone or to a stranger goes unreported: where a statement of a resource, that is no
  -- refusal, grants an action of interest to a principal that stands for everyone or for one outside
  -- the account, the findings of the pass have one with the id for that resource, or for that principal
  -- and the resource.
  pub analyze_resource_access_reports :
      (res : AccessResource) (stmt : PolicyStatement) (p : PolicyPrincipal) (action k : String)
      → Grant resources res stmt p action
      → reported_id res p (audience self_account p) ≡ some k
      → JsSet.has k (
          map
            (λ f. f.id)
            (analyze_resource_access principals resources self_account parent).findings)
        ≡ true
  unfolding analyze_resource_access
  analyze_resource_access_reports res stmt p action k grant e =
      let found = analyze_access principals resources self_account parent in
      ap (JsSet.has k) (ids_of_keyed found.findings KeyedBy-analyze_access)
      ∙ sym (has-keys k found.findings)
      ∙ analyze_access-hits principals resources self_account parent
          (λ f. JsMap.has k f.findings ≡ true)
          (λ r s q a f h.
            has-visit principals self_account parent r a (conditions s) k (audience self_account q)
              q.value f h)
          res stmt p action grant
          (λ f. has-visited res stmt p action k (audience self_account p) e f)
