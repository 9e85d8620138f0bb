-- ===== src/Worker/Scheduler/Laws.antt =====
-- Which accounts have a scan after the loop.
use kumomiru.Prelude.{
  ℕ, suc, ◌+◌, String, ◌≡◌, refl, sym, ◌∙◌, inl, inr, ◌⊎◌, Bool, true, false, ◌&&◌, ◌||◌, Option,
  none, some, List, [], ◌∷◌, ◌++◌, is_some, length, length-append, any, Any, keep_if, ◌==◌, eq_iff,
  arith, Bool-cases, Option-cases, subst,
}
use kumomiru.Db.Table
use kumomiru.Db.Accounts.{AccountRow}
use kumomiru.Db.Scans.{
  ScanRow, ScanTrigger, active, active_of, new_scan, enqueue, was_started, last_started_at,
}
use kumomiru.Worker.Schedule.{Cron, is_due}
use kumomiru.Worker.Scheduler.{is_enabled, visit_account, enqueue_due}

is_some-first_by :
    (p : ScanRow → Bool) (t : List ScanRow)
    → is_some (Table.first_by (λ s. s.created_at) (keep_if p t)) ≡ any p t
unfolding any keep_if Table.first_by
is_some-first_by p [] = refl
is_some-first_by p (s ∷ t) = ground (arith, is_some-first_by p t)

is_some-active : (a : String) (t : List ScanRow) → is_some (active a t) ≡ any (active_of a) t
unfolding active
is_some-active a t = is_some-first_by (active_of a) t

any-append_one :
    (p : ScanRow → Bool) (t : List ScanRow) (r : ScanRow) → any p (t ++ r ∷ []) ≡ (any p t || p r)
unfolding any
any-append_one p [] r = ground arith
any-append_one p (s ∷ t) r = ground (arith, any-append_one p t r)

keep_if-append_one :
    (p : ScanRow → Bool) (t : List ScanRow) (r : ScanRow)
    → p r ≡ false
    → keep_if p (t ++ r ∷ []) ≡ keep_if p t
unfolding keep_if
keep_if-append_one p [] r h = rw h refl
keep_if-append_one p (s ∷ t) r h = ground (arith, keep_if-append_one p t r h)

-- Queueing a scan where the account has none.
enqueue-free :
    (id now a : String) (t : List ScanRow)
    → is_some (active a t) ≡ false
    → (enqueue id now a ScanTrigger.schedule t).1 ≡ t ++ new_scan id now a ScanTrigger.schedule ∷ []
unfolding enqueue
enqueue-free id now a t h = elim (Option-cases (active a t)) [
  | inl free ↦ rw free refl
  | inr (s, busy) ↦ cc (h, busy)
]

last_started_at-append :
    (a b id now : String) (t : List ScanRow)
    → last_started_at b (t ++ new_scan id now a ScanTrigger.schedule ∷ []) ≡ last_started_at b t
unfolding last_started_at
last_started_at-append a b id now t =
    rw
      (keep_if-append_one (λ s. s.account_id == b && was_started s) t
        (new_scan id now a ScanTrigger.schedule) (ground arith))
      refl

is_due-none :
    (cron : Cron) (expr : String) (last : Option String) (now : ℕ)
    → is_due cron expr last now ≡ none
    → cron.accepts expr ≡ false
unfolding is_due
is_due-none cron expr none now h = cc h
is_due-none cron expr (some last) now h = ground (arith, h)

module _ (cron : Cron) (now : ℕ) (fresh stamp : List ScanRow → String) where
  -- The account is active, and its schedule is due by the scans of the table.
  abbrev pub is_wanted : List ScanRow → AccountRow → Bool
  is_wanted t a = is_enabled a && elim (is_due cron a.schedule_cron (last_started_at a.id t) now) [
    | some true ↦ true
    | _ ↦ false
  ]

  record Round (a : AccountRow) (n : ℕ) (t : List ScanRow) (m : ℕ) (u : List ScanRow) : Type 0 where
    busy : (b : String) → any (active_of b) u ≡ (any (active_of b) t || a.id == b && is_wanted t a)
    same : (c : AccountRow) → is_wanted u c ≡ is_wanted t c
    grown : m + length t ≡ n + length u

  Round-queued :
      (a : AccountRow) (n : ℕ) (t : List ScanRow)
      → is_some (active a.id t) ≡ false
      → is_wanted t a ≡ true
      → Round a n t (suc n) (t ++ new_scan (fresh t) (stamp t) a.id ScanTrigger.schedule ∷ [])
  Round-queued a n t free wanted = record {
    busy = λ b. ground (
      arith,
      wanted,
      any-append_one (active_of b) t (new_scan (fresh t) (stamp t) a.id ScanTrigger.schedule),
    );
    same = λ c. rw (last_started_at-append a.id c.id (fresh t) (stamp t) t) refl;
    grown =
        omega
          (arith, length-append t (new_scan (fresh t) (stamp t) a.id ScanTrigger.schedule ∷ []));
  }

  Round-idle :
      (a : AccountRow) (n : ℕ) (t : List ScanRow)
      → (is_wanted t a ≡ true → any (active_of a.id) t ≡ true)
      → Round a n t n t
  Round-idle a n t h = record {
    busy = λ b. elim (Bool-cases (a.id == b)) [
      | inl own ↦
          let at = (eq_iff a.id b).0 own in
          let k : is_wanted t a ≡ true → any (active_of b) t ≡ true =
            subst (λ i. is_wanted t a ≡ true → any (active_of i) t ≡ true) at h in
          elim (Bool-cases (is_wanted t a)) [
            | inl wanted ↦ ground (arith, k wanted)
            | inr unwanted ↦ ground (arith, unwanted)
          ]
      | inr other ↦ ground (arith, other)
    ];
    same = λ c. refl;
    grown = omega arith;
  }

  Rounded : AccountRow → ℕ → List ScanRow → Option (ℕ × List ScanRow) → Type 0
  Rounded a n t none = cron.accepts a.schedule_cron ≡ false
  Rounded a n t (some p) = Round a n t p.0 p.1

  Rounded-visit_account :
      (a : AccountRow) (n : ℕ) (t : List ScanRow)
      → Rounded a n t (visit_account cron now fresh stamp a n t)
  unfolding visit_account Rounded
  Rounded-visit_account a n t = elim (Bool-cases (is_enabled a)) [
    | inr off ↦ rw off (Round-idle a n t (λ w. ground (arith, w, off)))
    | inl on ↦ elim (Bool-cases (is_some (active a.id t))) [
      | inl busy ↦ rw (on, busy) (Round-idle a n t (λ w. sym (is_some-active a.id t) ∙ busy))
      | inr free ↦ elim (Option-cases (is_due cron a.schedule_cron (last_started_at a.id t) now)) [
        | inl threw ↦
            rw (on, free, threw)
              (is_due-none cron a.schedule_cron (last_started_at a.id t) now threw)
        | inr (due, d) ↦ elim (Bool-cases due) [
          | inr later ↦
              rw (on, free, d, later) (Round-idle a n t (λ w. ground (arith, w, d, later)))
          | inl due_now ↦
              rw (on, free, d, due_now, enqueue-free (fresh t) (stamp t) a.id t free)
                (Round-queued a n t free (ground (arith, on, d, due_now)))
        ]
      ]
    ]
  ]

  Round-visit_account :
      (a : AccountRow) (n : ℕ) (t : List ScanRow) (p : ℕ × List ScanRow)
      → visit_account cron now fresh stamp a n t ≡ some p
      → Round a n t p.0 p.1
  unfolding Rounded
  Round-visit_account a n t p e = subst (Rounded a n t) e (Rounded-visit_account a n t)

  rejected :
      (a : AccountRow) (n : ℕ) (t : List ScanRow)
      → visit_account cron now fresh stamp a n t ≡ none
      → cron.accepts a.schedule_cron ≡ false
  unfolding Rounded
  rejected a n t e = subst (Rounded a n t) e (Rounded-visit_account a n t)

  any-wanted :
      (b : String) (t u : List ScanRow)
      → ((c : AccountRow) → is_wanted u c ≡ is_wanted t c)
      → (more : List AccountRow)
      → any (λ c. c.id == b && is_wanted u c) more ≡ any (λ c. c.id == b && is_wanted t c) more
  unfolding any
  any-wanted b t u h [] = refl
  any-wanted b t u h (c ∷ more) = rw (h c, any-wanted b t u h more) refl

  -- What a loop that comes to its end leaves.
  pub record Queued (accounts : List AccountRow) (n : ℕ) (t : List ScanRow) (m : ℕ)
      (u : List ScanRow) : Type 0 where
    pub busy :
        (b : String)
        → any (active_of b) u
          ≡ (any (active_of b) t || any (λ a. a.id == b && is_wanted t a) accounts)
    pub grown : m + length t ≡ n + length u

  -- The loop either ends early with an exception, for an account whose cron
  -- expression the library rejects, or ends with an account having a
  -- queued or running scan exactly if it had one before or is an active account in the list whose
  -- schedule is due; and the number that it returns counts the scans that it added.
  pub enqueue_due-Queued :
      (accounts : List AccountRow) (n : ℕ) (t : List ScanRow)
      → (((enqueue_due cron now fresh stamp accounts n t).1 ≡ none)
          × Any (λ a. cron.accepts a.schedule_cron ≡ false) accounts)
        ⊎ ((m : ℕ) × (u : List ScanRow) × (enqueue_due cron now fresh stamp accounts n t
              ≡ (u, some m))
            × Queued accounts n t m u)
  unfolding enqueue_due any
  enqueue_due-Queued [] n t =
      inr (n, t, refl, record { busy = λ b. ground arith; grown = omega arith })
  enqueue_due-Queued (a ∷ more) n t =
      elim (Option-cases (visit_account cron now fresh stamp a n t)) [
        | inl threw ↦ inl (rw (enqueue_due, threw) refl, inl (rejected a n t threw))
        | inr (p, went) ↦
            let r = Round-visit_account a n t p went in
            elim (enqueue_due-Queued more p.0 p.1) [
              | inl threw ↦ inl (rw (enqueue_due, went) threw.0, inr threw.1)
              | inr (m, u, e, q) ↦ inr (
                m,
                u,
                rw (enqueue_due, went) e,
                record {
                  busy = λ b. ground (arith, q.busy b, r.busy b, any-wanted b t p.1 r.same more);
                  grown = omega (arith, q.grown, r.grown);
                },
              )
            ]
      ]
