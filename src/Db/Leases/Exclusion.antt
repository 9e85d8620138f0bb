-- ===== src/Db/Leases/Exclusion.antt =====
-- A lease has one holder until it expires or is released.
use kumomiru.Prelude.{
  ℕ, ◌+◌, ◌≤◌, ◌<◌, String, ◌≡◌, refl, ap, ◌∙◌, ◌≢◌, Bool, true, false, some, List, [], ◌∷◌, ◌==◌,
  eq_iff, eq_refl, keep_if, arith, Bool-cases, inl, inr,
}
use kumomiru.JsMap
use kumomiru.Db.Leases.{Lease, held_by_other, acquire, release}

abbrev pub Leases : Type 0
Leases = List (String × Lease)

-- At the time `now` the holder has the lease, at least until `until`.
abbrev pub Holds : Leases → String → String → ℕ → Type 0
Holds t name holder until =
    (l : Lease) × (JsMap.get name t ≡ some l) × (l.holder ≡ holder) × (until ≤ l.expires_at)

-- What the workers do with the leases while the clock goes from the first time to the second:
-- they acquire and release, and each call takes its time from the clock.
pub data Run : ℕ → Leases → ℕ → Leases → Type 0 where
  start : (now : ℕ) (t : Leases) → Run now t now t
  acquired :
      {a b : ℕ} {t u : Leases} (now : ℕ) (name holder : String) (ttl : ℕ)
      → Run a t b u
      → b ≤ now
      → Run a t now (acquire now name holder ttl u).0
  released :
      {a b : ℕ} {t u : Leases} (name holder : String)
      → Run a t b u
      → Run a t b (release name holder u)

-- Only others act on the lease: its holder neither releases it nor takes it anew.
abbrev pub OthersOnly : {a b : ℕ} {t u : Leases} → String → String → Run a t b u → Type 0
OthersOnly name holder (start now t) = Unit
OthersOnly name holder (acquired now n h ttl r p) =
    ((n ≡ name) → h ≢ holder) × OthersOnly name holder r
OthersOnly name holder (released n h r) = ((n ≡ name) → h ≢ holder) × OthersOnly name holder r

get-keep_if :
    (p : String × Lease → Bool) (name : String) (l : Lease) (t : Leases)
    → JsMap.get name t ≡ some l
    → p (name, l) ≡ true
    → JsMap.get name (keep_if p t) ≡ some l
unfolding JsMap.get keep_if
get-keep_if p name l [] h k = cc
get-keep_if p name l ((n, m) ∷ t) h k = elim (Bool-cases (n == name)) [
  | inl same ↦
      let e = (eq_iff n name).0 same in
      let here : m ≡ l = ground arith in
      let kept : p (n, m) ≡ true = rw (e, here) k in rw (kept, same) (ap some here)
  | inr other ↦
      let rest = get-keep_if p name l t (ground arith) k in
      elim (Bool-cases (p (n, m))) [
        | inl kept ↦ rw (kept, other) rest
        | inr dropped ↦ rw dropped rest
      ]
]

Holds-acquire :
    (now ttl until : ℕ) (name holder n h : String) (t : Leases)
    → Holds t name holder until
    → now < until
    → ((n ≡ name) → h ≢ holder)
    → Holds (acquire now n h ttl t).0 name holder until
unfolding acquire
Holds-acquire now ttl until name holder n h t (l, e, mine, later) live other =
    elim (Bool-cases (n == name)) [
      | inl same ↦
          let at = (eq_iff n name).0 same in
          let blocked : held_by_other (JsMap.get n t) h now ≡ true =
            rw (at, e) (ground (arith, eq_iff l.holder h, other at)) in
          rw blocked (l, e, mine, later)
      | inr elsewhere ↦ elim (Bool-cases (held_by_other (JsMap.get n t) h now)) [
        | inl blocked ↦ rw blocked (l, e, mine, later)
        | inr free ↦ rw free (l, JsMap.get-set name n _ t ∙ rw elsewhere e, mine, later)
      ]
    ]

Holds-release :
    (until : ℕ) (name holder n h : String) (t : Leases)
    → Holds t name holder until
    → ((n ≡ name) → h ≢ holder)
    → Holds (release n h t) name holder until
unfolding release
Holds-release until name holder n h t (l, e, mine, later) other = (
  l,
  get-keep_if _ name l t e (ground (arith, eq_iff name n, eq_iff l.holder h, other)),
  mine,
  later,
)

le-Run : {a b : ℕ} {t u : Leases} → Run a t b u → a ≤ b
le-Run (start now t) = omega arith
le-Run (acquired now n h ttl r p) = omega (arith, le-Run r)
le-Run (released n h r) = le-Run r

Holds-Run :
    {a b : ℕ} {t u : Leases} (until : ℕ) (name holder : String) (r : Run a t b u)
    → OthersOnly name holder r
    → b < until
    → Holds t name holder until
    → Holds u name holder until
Holds-Run until name holder (start now t) o live h = h
Holds-Run until name holder (acquired {u = u} now n k ttl r p) o live h =
    Holds-acquire now ttl until name holder n k u
      (Holds-Run until name holder r o.1 (omega arith) h) live o.0
Holds-Run until name holder (released {u = u} n k r) o live h =
    Holds-release until name holder n k u (Holds-Run until name holder r o.1 live h) o.0

Holds-acquire_self :
    (now ttl : ℕ) (name holder : String) (t : Leases)
    → (acquire now name holder ttl t).1 ≡ true
    → Holds (acquire now name holder ttl t).0 name holder (now + ttl)
unfolding acquire
Holds-acquire_self now ttl name holder t h =
    elim (Bool-cases (held_by_other (JsMap.get name t) holder now)) [
      | inl blocked ↦ cc (h, blocked)
      | inr free ↦ rw free (
        record { holder = holder; expires_at = now + ttl },
        JsMap.get-set name name _ t ∙ rw (eq_refl name) refl,
        refl,
        omega arith,
      )
    ]

-- A worker that acquired a lease has it for the time that it asked for: whatever the other workers
-- acquire and release after that, as long as the clock has not passed the time and the worker
-- itself neither releases nor renews the lease, another worker that tries to acquire it is refused.
pub acquire-exclusive :
    (now ttl : ℕ) (name holder : String) (t : Leases)
    → (acquire now name holder ttl t).1 ≡ true
    → {later : ℕ} {u : Leases} (r : Run now (acquire now name holder ttl t).0 later u)
    → OthersOnly name holder r
    → (at other_ttl : ℕ) (other : String) → later ≤ at
    → at < now + ttl
    → other ≢ holder
    → (acquire at name other other_ttl u).1 ≡ false
unfolding acquire
acquire-exclusive now ttl name holder t ok {u = u} r o at other_ttl other after live different =
    let (l, e, mine, until) =
      Holds-Run (now + ttl) name holder r o (omega arith)
        (Holds-acquire_self now ttl name holder t ok) in
    let blocked : held_by_other (JsMap.get name u) other at ≡ true =
      rw e (ground (arith, eq_iff l.holder other)) in
    rw blocked refl
