-- ===== src/Adapters/Asff/Mapped.antt =====
-- What the findings of Security Hub come to.
use mathlib.Core.Option.{some-injective}
use kumomiru.Prelude.{
  String, ◌≡◌, refl, sym, ◌∙◌, true, ◌||◌, Option, none, some, List, [], ◌∷◌, ◌++◌, or_else, All,
  All-mono, foldl, if◌then◌else◌, All-append, All-members, Member, foldl-keeps, find_first-some,
  subst, arith, Bool-cases, Option-cases, inl, inr, ◌==◌, eq_iff,
}
use kumomiru.JsSet
use kumomiru.Graph.Schema.{Finding, FindingSource}
use kumomiru.Adapters.Merge.{sort, insert_sorted}
use kumomiru.Adapters.Asff.{
  AsffFinding, filled, controls_of, is_mapped, mapped_finding, map_one, map_asff_findings,
}

module _ (lower : String → String) (known : List String) where
  -- The finding is attributed to Security Hub, its node is known, and its controls are covered.
  pub record IsMapped (covered : List String) (f : Finding) : Type 0 where
    pub source : f.source ≡ some FindingSource.securityhub
    pub node : (i : String) → f.node_id ≡ some i → JsSet.has i known ≡ true
    pub controls : All (λ c. JsSet.has c.id covered ≡ true) (or_else f.controls [])

  filled-some : (o : Option String) (s : String) → filled o ≡ some s → o ≡ some s
  filled-some none s h = cc h
  filled-some (some t) s h = elim (Bool-cases (t == "")) [
    | inl blank ↦ let h' : Path (Option String) none (some s) = ground (arith, h, blank) in cc h'
    | inr real ↦ ground (arith, h, real)
  ]

  controls_covered :
      (o : Option String) (covered : List String)
      → ((c : String) → o ≡ some c → JsSet.has c covered ≡ true)
      → All (λ c. JsSet.has c.id covered ≡ true) (controls_of o)
  controls_covered none covered h = tt
  controls_covered (some c) covered h = (h c refl, tt)

  IsMapped-mapped_finding :
      (f : AsffFinding) (covered : List String)
      → ((c : String) → filled f.security_control_id ≡ some c → JsSet.has c covered ≡ true)
      → IsMapped covered (mapped_finding lower known f)
  unfolding mapped_finding
  IsMapped-mapped_finding f covered h = record {
    source = refl;
    node = λ i e.
        (find_first-some (λ r. JsSet.has r known) (λ r. Member r f.resource_ids) f.resource_ids i
          (All-members f.resource_ids) (filled-some _ i e)).1;
    controls = controls_covered (filled f.security_control_id) covered h;
  }

  IsMapped-mono :
      (s t : List String)
      → ((c : String) → JsSet.has c s ≡ true → JsSet.has c t ≡ true)
      → (f : Finding) → IsMapped s f
      → IsMapped t f
  IsMapped-mono s t h f m = record {
    source = m.source;
    node = m.node;
    controls =
        All-mono (λ c. JsSet.has c.id s ≡ true) (λ c. JsSet.has c.id t ≡ true) (λ c. h c.id)
          (or_else f.controls []) m.controls;
  }

  abbrev AreMapped : List Finding × List String → Type 0
  AreMapped acc = All (IsMapped acc.1) acc.0

  -- The set of the covered controls after a round.
  abbrev noted : Option String → List String → List String
  noted none s = s
  noted (some c) s = JsSet.add c s

  has-noted :
      (o : Option String) (s : List String) (c : String)
      → JsSet.has c s ≡ true
      → JsSet.has c (noted o s) ≡ true
  has-noted none s c h = h
  has-noted (some d) s c h = ground (arith, JsSet.has-add c d s, h)

  has-noted_self :
      (o : Option String) (s : List String) (c : String)
      → o ≡ some c
      → JsSet.has c (noted o s) ≡ true
  has-noted_self none s c h = cc h
  has-noted_self (some d) s c h =
      let same : d ≡ c = some-injective d c h in
      ground (arith, JsSet.has-add c d s, (eq_iff d c).1 same)

  map_one-eq :
      (acc : List Finding × List String) (f : AsffFinding)
      → map_one lower known acc f ≡ (
        if is_mapped f then acc.0 ++ mapped_finding lower known f ∷ [] else acc.0,
        noted (filled f.security_control_id) acc.1,
      )
  unfolding map_one
  map_one-eq acc f = elim (Option-cases (filled f.security_control_id)) [
    | inl absent ↦ rw (map_one, absent) refl
    | inr (c, there) ↦ rw (map_one, there) refl
  ]

  AreMapped-map_one :
      (acc : List Finding × List String) (f : AsffFinding)
      → AreMapped acc
      → AreMapped (map_one lower known acc f)
  AreMapped-map_one acc f h =
      let control = filled f.security_control_id in
      let kept =
        All-mono (IsMapped acc.1) (IsMapped (noted control acc.1))
          (IsMapped-mono acc.1 (noted control acc.1) (has-noted control acc.1)) acc.0 h in
      subst AreMapped (sym (map_one-eq acc f)) (elim (Bool-cases (is_mapped f)) [
        | inr skipped ↦ rw skipped kept
        | inl mapped ↦ rw mapped (
            All-append (IsMapped (noted control acc.1)) acc.0 (mapped_finding lower known f ∷ [])
              kept
              (IsMapped-mapped_finding f (noted control acc.1) (has-noted_self control acc.1), tt))
      ])

  has-insert_sorted :
      (c x : String) (xs : List String)
      → JsSet.has c (insert_sorted x xs) ≡ (x == c || JsSet.has c xs)
  unfolding JsSet.has insert_sorted
  has-insert_sorted c x [] = refl
  has-insert_sorted c x (y ∷ ys) = ground (arith, has-insert_sorted c x ys)

  has-sort : (c : String) (xs : List String) → JsSet.has c (sort xs) ≡ JsSet.has c xs
  unfolding JsSet.has sort
  has-sort c [] = refl
  has-sort c (x ∷ xs) = ground (arith, has-sort c xs, has-insert_sorted c x (sort xs))

  -- Every finding that the mapping gives is attributed to Security Hub; it is of no node or of one of
  -- the known nodes; and each of its controls is among the controls that the mapping reports as covered.
  pub map_asff_findings-IsMapped :
      (raw : List AsffFinding)
      → All
          (IsMapped (map_asff_findings lower known raw).covered_controls)
          (map_asff_findings lower known raw).findings
  unfolding map_asff_findings
  map_asff_findings-IsMapped raw =
      let acc = foldl (map_one lower known) ([], []) raw in
      All-mono (IsMapped acc.1) (IsMapped (sort acc.1))
        (IsMapped-mono acc.1 (sort acc.1) (λ c h. has-sort c acc.1 ∙ h)) acc.0
        (foldl-keeps (map_one lower known) AreMapped (λ f. Member f raw)
          (λ s f _ h. AreMapped-map_one s f h) raw (All-members raw) ([], []) tt)
