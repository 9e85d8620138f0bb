-- ===== src/Rules/Checks/Ec2/Exposure.antt =====
-- The four rules on the ports of a security group, against each other.
use kumomiru.Prelude.{
  ◌⊎◌, sym, ◌∙◌, ℕ, Bool, true, false, not, ◌&&◌, ◌||◌, ◌≡◌, refl, List, [], ◌∷◌, String, any,
  keep_if, arith, leb, Bool-cases, inl, inr,
}
use kumomiru.Graph.Schema.{CloudNode, Number}
use kumomiru.Rules.{RuleContext, RuleOutcome}
use kumomiru.Rules.Checks.{fails, is_cons}
use kumomiru.Rules.Checks.Ingress.{
  IngressRule, ingress_of, is_public_rule, covers_port, covers_port_outside, has_port,
}
use kumomiru.Rules.Checks.Ingress.Ports.{covers_port_outside-of_covers_port}
use kumomiru.Rules.Checks.Ec2.{
  sg_failure, public_rules_covering, high_risk_rules, high_risk_ports, high_risk_check, with_ports,
  authorized_public_ports, sg_unrestricted_ssh, sg_unrestricted_rdp,
  sg_unrestricted_high_risk_ports, sg_unrestricted_unauthorized_ports,
}

is_cons-keep_if :
    {A : Type 0} (p q : A → Bool)
    → ((x : A) → p x ≡ true → q x ≡ true)
    → (xs : List A) → is_cons (keep_if p xs) ≡ true
    → is_cons (keep_if q xs) ≡ true
unfolding keep_if
is_cons-keep_if p q h [] k = k
is_cons-keep_if p q h (x ∷ xs) k = ground (arith, is_cons-keep_if p q h xs, h x)

fails-sg_failure : (ms : List IngressRule) (what : String) → fails (sg_failure ms what) ≡ is_cons ms
unfolding sg_failure
fails-sg_failure [] what = refl
fails-sg_failure (m ∷ ms) what = refl

fails-with_ports : (ps : List ℕ) (o : RuleOutcome) → fails (with_ports ps o) ≡ fails o
fails-with_ports ps RuleOutcome.pass = refl
fails-with_ports ps RuleOutcome.not_applicable = refl
fails-with_ports ps (RuleOutcome.fail d e s) = refl

any-split :
    {A : Type 0} (p q : A → Bool) (xs : List A)
    → any p xs ≡ true
    → any q xs ≡ false
    → (x : A) × (p x ≡ true) × (q x ≡ false)
unfolding any
any-split p q [] h k = cc h
any-split p q (x ∷ xs) h k = elim (Bool-cases (p x)) [
  | inl here ↦ (x, here, ground arith)
  | inr later ↦ any-split p q xs (ground arith) (ground arith)
]

one_of : (a b c : Bool) → a || b || c ≡ true → (a ≡ true) ⊎ ((b ≡ true) ⊎ (c ≡ true))
one_of true b c h = inl refl
one_of false true c h = inr (inl refl)
one_of false false c h = inr (inr h)

-- A port that the rules know and that is not authorized for all.
abbrev is_unauthorized : ℕ → Bool
is_unauthorized p = leb p 65535 && not (has_port authorized_public_ports (Number.pos p))

is_unauthorized-ssh : is_unauthorized 22 ≡ true
unfolding any
is_unauthorized-ssh = refl

is_unauthorized-rdp : is_unauthorized 3389 ≡ true
unfolding any
is_unauthorized-rdp = refl

is_unauthorized-high_risk_ports : any (λ p. not (is_unauthorized p)) high_risk_ports ≡ false
unfolding any
is_unauthorized-high_risk_ports = refl

outside-of_unauthorized :
    (r : IngressRule) (p : ℕ)
    → is_unauthorized p ≡ true
    → covers_port r p ≡ true
    → covers_port_outside r authorized_public_ports ≡ true
outside-of_unauthorized r p u =
    covers_port_outside-of_covers_port r authorized_public_ports p (ground (arith, u))
      (ground (arith, u))

module _ (n : CloudNode) (ctx : RuleContext) where
  abbrev unauthorized_rules : List IngressRule
  unauthorized_rules =
      keep_if (λ r. is_public_rule r && covers_port_outside r authorized_public_ports)
        (ingress_of n)

  fails-of_port :
      (p : ℕ) (what : String)
      → is_unauthorized p ≡ true
      → fails (sg_failure (public_rules_covering n p) what) ≡ true
      → fails (sg_unrestricted_unauthorized_ports.check n ctx) ≡ true
  unfolding public_rules_covering
  fails-of_port p what u h =
      fails-sg_failure unauthorized_rules "unrestricted ingress beyond 80/443"
      ∙ is_cons-keep_if (λ r. is_public_rule r && covers_port r p) _
          (λ r k. ground (arith, k, outside-of_unauthorized r p u)) (ingress_of n)
          (sym (fails-sg_failure (public_rules_covering n p) what) ∙ h)

  fails-of_high_risk :
      fails (high_risk_check n) ≡ true
      → fails (sg_unrestricted_unauthorized_ports.check n ctx) ≡ true
  unfolding high_risk_check high_risk_rules
  fails-of_high_risk h =
      fails-sg_failure unauthorized_rules "unrestricted ingress beyond 80/443"
      ∙ is_cons-keep_if (λ r. is_public_rule r && any (λ p. covers_port r p) high_risk_ports) _
          (λ r k.
            let (p, covered, risky) =
              any-split (λ p. covers_port r p) (λ p. not (is_unauthorized p)) high_risk_ports
                (ground (arith, k)) is_unauthorized-high_risk_ports in
            ground (arith, k, outside-of_unauthorized r p (ground (arith, risky)) covered))
          (ingress_of n)
          (sym (
              fails-with_ports
                (keep_if (λ p. any (λ r. covers_port r p) (high_risk_rules n)) high_risk_ports)
                (sg_failure (high_risk_rules n) "high-risk ports open to the internet")
              ∙ fails-sg_failure (high_risk_rules n) "high-risk ports open to the internet")
            ∙ h)

  -- Where the rule on SSH, on RDP or on the high-risk ports fails a security group, the rule that
  -- only ports 80 and 443 are open to the internet fails it too.
  pub unauthorized_fails :
      fails (sg_unrestricted_ssh.check n ctx)
          || fails (sg_unrestricted_rdp.check n ctx)
          || fails (sg_unrestricted_high_risk_ports.check n ctx)
        ≡ true
      → fails (sg_unrestricted_unauthorized_ports.check n ctx) ≡ true
  unauthorized_fails h =
      elim (one_of (fails (sg_unrestricted_ssh.check n ctx))
        (fails (sg_unrestricted_rdp.check n ctx))
        (fails (sg_unrestricted_high_risk_ports.check n ctx)) h) [
          | inl ssh ↦ fails-of_port 22 "port 22 open to the internet" is_unauthorized-ssh ssh
          | inr (inl rdp) ↦
              fails-of_port 3389 "port 3389 open to the internet" is_unauthorized-rdp rdp
          | inr (inr risky) ↦ fails-of_high_risk risky
        ]
