-- ===== src/Rules/Checks/Ingress/Ports.antt =====
-- The two tests of the ports of an ingress rule against each other.
use kumomiru.Prelude.{
  ◌↔◌, ap₂, sym, ◌∙◌, Option, is_some, or_else, ℕ, zero, suc, ◌+◌, ◌≤◌, ◌<◌, ◌-◌, ◌&&◌, ◌||◌, Bool,
  true, false, not, ◌≡◌, refl, List, some, none, arith, any, Bool-cases, if◌then◌else◌, inl, inr,
  leb, subst,
}
use kumomiru.Graph.Schema.{Number}
use kumomiru.Rules.Checks.{number_le, number_is}
use kumomiru.Rules.Checks.Ingress.{
  IngressRule, covers_port, covers_port_outside, reaches_outside, has_port, all_rounds,
  is_all_protocols, has_ports, starts_at_zero, is_end, is_end_or_zero, from_of, to_of,
}

-- A port within the rounds that is not allowed is found.
reaches_outside-of_pos :
    (allowed : List ℕ) (rounds p k b : ℕ)
    → k < rounds
    → p + k ≤ b
    → has_port allowed (Number.pos (p + k)) ≡ false
    → reaches_outside allowed rounds (Number.pos p) (Number.pos b) ≡ true
unfolding reaches_outside any
reaches_outside-of_pos allowed zero p k b h t o = ground arith
reaches_outside-of_pos allowed (suc rounds) p zero b h t o =
    let start : p + 0 ≡ p = omega arith in
    let here : has_port allowed (Number.pos p) ≡ false =
      subst (λ q. has_port allowed (Number.pos q) ≡ false) start o in
    ground (arith, here, t)
reaches_outside-of_pos allowed (suc rounds) p (suc k) b h t o =
    let shift : p + suc k ≡ suc p + k = omega arith in
    let later =
      reaches_outside-of_pos allowed rounds (suc p) k b (omega (arith, h)) (omega (arith, t))
        (subst (λ q. has_port allowed (Number.pos q) ≡ false) shift o) in
    elim (Bool-cases (has_port allowed (Number.pos p))) [
      | inl known ↦ ground (arith, later, known)
      | inr new ↦ ground (arith, new)
    ]

-- A negative port is not allowed, so the loop ends with the first.
reaches_outside-of_negsuc :
    (allowed : List ℕ) (rounds a : ℕ) (to : Number)
    → number_le (Number.negsuc a) to ≡ true
    → reaches_outside allowed (suc rounds) (Number.negsuc a) to ≡ true
unfolding reaches_outside any
reaches_outside-of_negsuc allowed rounds a to h = rw h refl

reaches_outside-of_covered :
    (allowed : List ℕ) (from to : Number) (port : ℕ)
    → port ≤ 70001
    → has_port allowed (Number.pos port) ≡ false
    → number_le from (Number.pos port) ≡ true
    → number_le (Number.pos port) to ≡ true
    → reaches_outside allowed all_rounds from to ≡ true
reaches_outside-of_covered allowed (Number.negsuc a) (Number.pos b) port small other low high =
    reaches_outside-of_negsuc allowed 70001 a (Number.pos b) refl
reaches_outside-of_covered allowed (Number.negsuc a) (Number.negsuc b) port small other low high =
    cc high
reaches_outside-of_covered allowed (Number.pos a) (Number.negsuc b) port small other low high =
    cc high
reaches_outside-of_covered allowed (Number.pos a) (Number.pos b) port small other low high =
    let above : a ≤ port = ground (arith, low) in
    let shift : port ≡ a + (port - a) = omega (arith, above) in
    reaches_outside-of_pos allowed all_rounds a (port - a) b (omega (arith, small))
      (ground (arith, high, above))
      (subst (λ q. has_port allowed (Number.pos q) ≡ false) shift other)

outside_if :
    (at_once known rest : Bool)
    → (at_once ≡ false → (known ≡ true) × (rest ≡ true))
    → (if at_once then true else if not known then false else rest) ≡ true
outside_if true known rest h = refl
outside_if false known rest h = let (k, r) = h refl in rw (k, r) refl

zero-le :
    (from : Number) (port : ℕ) → number_is 0 from ≡ true → number_le from (Number.pos port) ≡ true
zero-le (Number.pos a) port h = ground (arith, h)
zero-le (Number.negsuc a) port h = refl

-- What the ports `f` and `t` cover is in their range, unless they stand for all ports.
ports_in_range :
    (every known : Bool) (f t : Option Number) (port : ℕ)
    → port ≤ 65535
    → (if not (every || known)
        then false
        else if every && not (is_some f) && not (is_some t)
        then true
        else if number_is 0 (or_else f (Number.pos 0))
            && is_end (or_else t (Number.pos 65535))
            && every
        then true
        else number_le (or_else f (Number.pos 0)) (Number.pos port)
          && number_le (Number.pos port) (or_else t (Number.pos 65535)))
      ≡ true
    → every && (elim f [ none ↦ true | some from ↦ number_is 0 from && is_end_or_zero t ]) ≡ false
    → (every || known ≡ true)
      × (number_le (or_else f (Number.pos 0)) (Number.pos port) ≡ true)
      × (number_le (Number.pos port) (or_else t (Number.pos 65535)) ≡ true)
ports_in_range true known none t port small covered bounded = cc bounded
ports_in_range true known (some from) none port small covered bounded =
    elim (Bool-cases (number_is 0 from)) [
      | inl zero_from ↦ (refl, zero-le from port zero_from, ground (arith, small))
      | inr other ↦ (refl, ground (arith, covered, other), ground (arith, small))
    ]
ports_in_range true known (some from) (some to) port small covered bounded =
    (refl, ground (arith, covered, bounded), ground (arith, covered, bounded))
ports_in_range false true f t port small covered bounded =
    (refl, ground (arith, covered), ground (arith, covered))
ports_in_range false false f t port small covered bounded = cc covered

in_range :
    (r : IngressRule) (port : ℕ)
    → port ≤ 65535
    → covers_port r port ≡ true
    → is_all_protocols r && starts_at_zero r ≡ false
    → (is_all_protocols r || has_ports r ≡ true)
      × (number_le (from_of r) (Number.pos port) ≡ true)
      × (number_le (Number.pos port) (to_of r) ≡ true)
unfolding covers_port
in_range r = ports_in_range (is_all_protocols r) (has_ports r) r.from_port r.to_port

-- If a rule covers a port that is not among the allowed ones, the test for ports outside the allowed
-- ones finds that out, whatever else the rule covers. The port is one of TCP or UDP.
pub covers_port_outside-of_covers_port :
    (r : IngressRule) (allowed : List ℕ) (port : ℕ)
    → port ≤ 65535
    → has_port allowed (Number.pos port) ≡ false
    → covers_port r port ≡ true
    → covers_port_outside r allowed ≡ true
unfolding covers_port_outside
covers_port_outside-of_covers_port r allowed port small other covered =
    outside_if (is_all_protocols r && starts_at_zero r) (is_all_protocols r || has_ports r)
      (reaches_outside allowed all_rounds (from_of r) (to_of r))
      (λ bounded.
        let (known, low, high) = in_range r port small covered bounded in
        (
          known,
          reaches_outside-of_covered allowed (from_of r) (to_of r) port (omega (arith, small)) other
              low high,
        ))

-- What the loop finds is a port of the range that is not allowed.
outside-of-reaches :
    (allowed : List ℕ) (rounds a b : ℕ)
    → reaches_outside allowed rounds (Number.pos a) (Number.pos b) ≡ true
    → (q : ℕ) × (a ≤ q) × (q ≤ b) × (has_port allowed (Number.pos q) ≡ false)
unfolding reaches_outside any
outside-of-reaches allowed zero a b h = cc h
outside-of-reaches allowed (suc rounds) a b h = elim (Bool-cases (leb a b)) [
  | inr beyond ↦ cc (h, beyond)
  | inl within ↦ elim (Bool-cases (has_port allowed (Number.pos a))) [
    | inr new ↦ (a, omega arith, ground (arith, within), new)
    | inl known ↦
        let later : reaches_outside allowed rounds (Number.pos (suc a)) (Number.pos b) ≡ true =
          ground (arith, h, within, known) in
        let (q, low, high, other) = outside-of-reaches allowed rounds (suc a) b later in
        (q, omega (arith, low), high, other)
  ]
]

if_reached :
    (every zero_from known rest : Bool)
    → every ≡ false
    → known ≡ true
    → (if every && zero_from then true else if not (every || known) then false else rest) ≡ rest
if_reached every zero_from known rest e k = ground (arith, e, k)

covers_port_outside-reaches :
    (r : IngressRule) (allowed : List ℕ)
    → is_all_protocols r ≡ false
    → has_ports r ≡ true
    → covers_port_outside r allowed ≡ reaches_outside allowed all_rounds (from_of r) (to_of r)
unfolding covers_port_outside
covers_port_outside-reaches r allowed =
    if_reached (is_all_protocols r) (starts_at_zero r) (has_ports r)
      (reaches_outside allowed all_rounds (from_of r) (to_of r))

-- For a protocol with ports and a range from `a` to `b` of at most 70002 ports, the test for ports
-- outside the allowed ones is exact, so that the limit on the rounds of the loop hides no port.
pub covers_port_outside_iff :
    (r : IngressRule) (allowed : List ℕ) (a b : ℕ)
    → is_all_protocols r ≡ false
    → has_ports r ≡ true
    → from_of r ≡ Number.pos a
    → to_of r ≡ Number.pos b
    → b ≤ a + 70001
    → (covers_port_outside r allowed ≡ true)
      ↔ ((q : ℕ) × (a ≤ q) × (q ≤ b) × (has_port allowed (Number.pos q) ≡ false))
covers_port_outside_iff r allowed a b special known low high short =
    let same : covers_port_outside r allowed
        ≡ reaches_outside allowed all_rounds (Number.pos a) (Number.pos b) =
      covers_port_outside-reaches r allowed special known
      ∙ ap₂ (reaches_outside allowed all_rounds) low high in
    (
      λ h. outside-of-reaches allowed all_rounds a b (sym same ∙ h),
      λ (q, above, below, other).
          let shift : q ≡ a + (q - a) = omega (arith, above) in
          same
          ∙ reaches_outside-of_pos allowed all_rounds a (q - a) b (omega (arith, below, short))
              (omega (arith, above, below))
              (subst (λ p. has_port allowed (Number.pos p) ≡ false) shift other),
    )
