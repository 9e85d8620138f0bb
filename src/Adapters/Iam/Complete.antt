-- ===== src/Adapters/Iam/Complete.antt =====
-- The edges that the pass does not miss.
use kumomiru.Prelude.{
  String, ◌≡◌, ap, ◌∙◌, inl, inr, Bool, true, false, ◌&&◌, some, List, [], ◌∷◌, keep_if, or_else,
  is_some, eq_refl, Member, All-members, foldl-keeps, foldl-hits, arith, Bool-cases,
}
use kumomiru.JsMap
use kumomiru.Graph.Schema.{Lens, Attributes, CloudEdge}
use kumomiru.Adapters.Policy
use kumomiru.Adapters.Policy.{Decision}
use kumomiru.Adapters.Iam.{
  AnalyzedPrincipal, AssumeTrustEntry, Found, assume_action, assume_id, is_external_principal,
  is_named, is_allow, grants_nothing, add_edge, visit_source, visit_entry, visit_role, analyze,
}

abbrev HasEdge : String → Found → Type 0
HasEdge k found = JsMap.has k found.edges ≡ true

has-add_edge :
    (k s t : String) (a : Attributes) (m : List (String × CloudEdge))
    → JsMap.has k m ≡ true
    → JsMap.has k (add_edge s t a m) ≡ true
unfolding add_edge JsMap.has
has-add_edge k s t a m h = ground (
  arith,
  h,
  JsMap.get-set_new k (assume_id s t)
      (record {
        id = assume_id s t;
        source = s;
        target = t;
        relationship = "can-assume";
        lens = Lens.iam;
        attributes = a;
      })
      m,
)

has-add_edge_self :
    (s t : String) (a : Attributes) (m : List (String × CloudEdge))
    → JsMap.has (assume_id s t) (add_edge s t a m) ≡ true
unfolding add_edge JsMap.has
has-add_edge_self s t a m = ground (
  arith,
  eq_refl (assume_id s t),
  JsMap.get-set_new (assume_id s t) (assume_id s t)
      (record {
        id = assume_id s t;
        source = s;
        target = t;
        relationship = "can-assume";
        lens = Lens.iam;
        attributes = a;
      })
      m,
)

Member-keep_if :
    {A : Type 0} (p : A → Bool) (x : A) (xs : List A)
    → p x ≡ true
    → Member x xs
    → Member x (keep_if p xs)
unfolding keep_if
Member-keep_if p x [] h m = m
Member-keep_if p x (y ∷ ys) h (inl e) = let kept : p y ≡ true = ap p e ∙ h in rw kept (inl e)
Member-keep_if p x (y ∷ ys) h (inr m) = elim (Bool-cases (p y)) [
  | inl kept ↦ rw kept (inr (Member-keep_if p x ys h m))
  | inr dropped ↦ rw dropped (Member-keep_if p x ys h m)
]

HasEdge-visit_source :
    (k : String) (role : AnalyzedPrincipal) (entry : AssumeTrustEntry) (found : Found)
    (src : AnalyzedPrincipal)
    → HasEdge k found
    → HasEdge k (visit_source role entry found src)
unfolding visit_source
HasEdge-visit_source k role entry found src h =
    elim (Bool-cases (
      is_named role entry src
      && is_allow (Policy.evaluate src.identity assume_action role.id).decision)) [
        | inl holds ↦ rw holds (has-add_edge k src.id role.id _ found.edges h)
        | inr fails ↦ rw fails h
      ]

module _ (principals : List AnalyzedPrincipal) (self_account parent k : String) where
  HasEdge-visit_entry :
      (role : AnalyzedPrincipal) (found : Found) (entry : AssumeTrustEntry)
      → HasEdge k found
      → HasEdge k (visit_entry principals self_account parent role found entry)
  unfolding visit_entry
  HasEdge-visit_entry role found entry h = elim (Bool-cases (grants_nothing entry)) [
    | inl idle ↦ rw idle h
    | inr granting ↦ elim (Bool-cases (is_external_principal entry.principal_value self_account)) [
      | inl outside ↦ rw (granting, outside) (has-add_edge k _ role.id _ found.edges h)
      | inr inside ↦
          rw (granting, inside)
            (foldl-keeps (visit_source role entry) (HasEdge k) (λ src. Member src principals)
              (λ s src m i. HasEdge-visit_source k role entry s src i) principals
              (All-members principals) found h)
    ]
  ]

  HasEdge-visit_role :
      (found : Found) (role : AnalyzedPrincipal)
      → HasEdge k found
      → HasEdge k (visit_role principals self_account parent found role)
  unfolding visit_role
  HasEdge-visit_role found role h =
      foldl-keeps (visit_entry principals self_account parent role) (HasEdge k)
        (λ entry. Member entry (or_else role.trust []))
        (λ t entry n j. HasEdge-visit_entry role t entry j) (or_else role.trust [])
        (All-members (or_else role.trust [])) found h

-- Where a trust entry of a scanned role is no refusal and not for a service, has a value that stands
-- for no external principal, and names another scanned principal, and that principal's identity policies
-- allow it to assume the role, the pass has an edge under the id of the pair.
pub analyze_complete :
    (principals : List AnalyzedPrincipal) (self_account parent : String) (role : AnalyzedPrincipal)
    (entries : List AssumeTrustEntry) (entry : AssumeTrustEntry) (src : AnalyzedPrincipal)
    → Member role principals
    → role.trust ≡ some entries
    → Member entry entries
    → grants_nothing entry ≡ false
    → is_external_principal entry.principal_value self_account ≡ false
    → Member src principals
    → is_named role entry src ≡ true
    → (Policy.evaluate src.identity assume_action role.id).decision ≡ Decision.allow
    → JsMap.has (assume_id src.id role.id) (analyze principals self_account parent).edges ≡ true
unfolding analyze visit_role visit_entry visit_source
analyze_complete principals self_account parent role entries entry src r t e granting inside m named
      allowed =
    let k = assume_id src.id role.id in
    let permitted : is_allow (Policy.evaluate src.identity assume_action role.id).decision ≡ true =
      ap is_allow allowed in
    let by_source : (s : Found) → HasEdge k (visit_source role entry s src) =
      λ s. rw (named, permitted) (has-add_edge_self src.id role.id _ s.edges) in
    let by_entry : (s : Found)
        → HasEdge k (visit_entry principals self_account parent role s entry) =
      λ s.
        rw (granting, inside)
          (foldl-hits (visit_source role entry) (HasEdge k)
            (λ u a h. HasEdge-visit_source k role entry u a h) src by_source principals m s) in
    let by_role : (s : Found) → HasEdge k (visit_role principals self_account parent s role) = λ s.
      rw t (
        foldl-hits (visit_entry principals self_account parent role) (HasEdge k)
          (λ u a h. HasEdge-visit_entry principals self_account parent k role u a h) entry by_entry
          entries e s) in
    foldl-hits (visit_role principals self_account parent) (HasEdge k)
      (λ u a h. HasEdge-visit_role principals self_account parent k u a h) role by_role
      (keep_if (λ p. is_some p.trust) principals)
      (Member-keep_if (λ p. is_some p.trust) role principals (ap is_some t) r)
      (record { nodes = []; edges = []; findings = [] })
