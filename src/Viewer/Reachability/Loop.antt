-- ===== src/Viewer/Reachability/Loop.antt =====
-- The outer loop empties its queue within the fuel, and keeps what every step keeps.
use kumomiru.Prelude.{
  ℕ, zero, suc, ◌≤◌, String, ◌≡◌, refl, ap, true, some, List, [], ◌∷◌, length, nil_or_cons, inl,
  inr, All, arith,
}
use kumomiru.JsSet
use kumomiru.Viewer.Reachability.{Walk, scan, Adjacency, entries_at, loop}
use kumomiru.Viewer.Reachability.Scan.{work, work-scan}

-- The walk after the node at the head of the queue.
abbrev pub after : Adjacency → Walk → String → List String → Walk
after adj w cur rest = scan (record w { queue = rest }) (entries_at adj cur)

module _ (adj : Adjacency) (cs : List String)
    (known : (v : String) → All (λ x. JsSet.has x.other cs ≡ true) (entries_at adj v))
    (P : Walk → Type 0)
    (keeps : (w : Walk) (cur : String) (rest : List String)
      → w.queue ≡ cur ∷ rest
      → P w
      → P (after adj w cur rest)) where
  work-after :
      (w : Walk) (cur : String) (rest : List String)
      → w.queue ≡ cur ∷ rest
      → suc (work cs (after adj w cur rest)) ≤ work cs w
  work-after w cur rest q =
      let l : length w.queue ≡ suc (length rest) = ap length q in
      omega (arith, l, work-scan cs (record w { queue = rest }) (entries_at adj cur) (known cur))

  pub loop-ends :
      (fuel : ℕ) (w : Walk)
      → work cs w ≤ fuel
      → P w
      → (v : Walk) × (loop adj fuel w ≡ some v) × (v.queue ≡ []) × P v
  unfolding loop
  loop-ends zero w m p = elim (nil_or_cons w.queue) [
    | inl q ↦ (w, rw q refl, q, p)
    | inr (cur, rest, q) ↦
        let l : length w.queue ≡ suc (length rest) = ap length q in ground (arith, l, m)
  ]
  loop-ends (suc fuel) w m p = elim (nil_or_cons w.queue) [
    | inl q ↦ (w, rw q refl, q, p)
    | inr (cur, rest, q) ↦ rw q (
        loop-ends fuel (after adj w cur rest) (omega (arith, work-after w cur rest q, m))
          (keeps w cur rest q p))
  ]
