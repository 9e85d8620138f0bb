-- ===== src/Rules/Checks/TrancheB/FirstMatch.antt =====
-- The entry of a network ACL that decides about a port.
use kumomiru.Prelude.{
  ℕ, ◌≡◌, refl, ap, ◌⊎◌, inl, inr, Bool, true, false, some, List, [], ◌∷◌, All, All-mono, Member,
  All-members, All-kept, arith, keep_if, find_first, find_first-some, find_first-none,
  All-of_keep_if, subst, Bool-cases, Option-cases, ◌==◌,
}
use kumomiru.Graph.Schema.{Number}
use kumomiru.Rules.Checks.{number_le}
use kumomiru.Rules.Checks.TrancheB.Network.{
  NaclEntry, insert_entry, by_number, inbound, admits, is_open, is_inbound, allows,
}

abbrev pub Le : NaclEntry → NaclEntry → Type 0
Le e f = number_le e.rule_number f.rule_number ≡ true

number_le_trans :
    (a b c : Number) → number_le a b ≡ true → number_le b c ≡ true → number_le a c ≡ true
number_le_trans (Number.pos a) (Number.pos b) (Number.pos c) h k = ground (arith, h, k)
number_le_trans (Number.pos a) (Number.pos b) (Number.negsuc c) h k = cc k
number_le_trans (Number.pos a) (Number.negsuc b) c h k = cc h
number_le_trans (Number.negsuc a) b (Number.pos c) h k = refl
number_le_trans (Number.negsuc a) (Number.pos b) (Number.negsuc c) h k = cc k
number_le_trans (Number.negsuc a) (Number.negsuc b) (Number.negsuc c) h k = ground (arith, h, k)

number_le-total : (a b : Number) → number_le a b ≡ false → number_le b a ≡ true
number_le-total (Number.pos a) (Number.pos b) h = ground (arith, h)
number_le-total (Number.pos a) (Number.negsuc b) h = refl
number_le-total (Number.negsuc a) (Number.pos b) h = cc h
number_le-total (Number.negsuc a) (Number.negsuc b) h = ground (arith, h)

number_le_refl : (a : Number) → number_le a a ≡ true
number_le_refl (Number.pos a) = ground arith
number_le_refl (Number.negsuc a) = ground arith

abbrev Sorted : List NaclEntry → Type 0
Sorted [] = Unit
Sorted (e ∷ es) = All (Le e) es × Sorted es

All-insert_entry :
    (P : NaclEntry → Type 0) (e : NaclEntry) (es : List NaclEntry)
    → P e
    → All P es
    → All P (insert_entry e es)
unfolding insert_entry
All-insert_entry P e [] p h = (p, tt)
All-insert_entry P e (f ∷ fs) p h = elim (Bool-cases (number_le e.rule_number f.rule_number)) [
  | inl first ↦ rw first (p, h)
  | inr later ↦ rw later (h.0, All-insert_entry P e fs p h.1)
]

All-of_insert_entry :
    (P : NaclEntry → Type 0) (e : NaclEntry) (es : List NaclEntry)
    → All P (insert_entry e es)
    → P e × All P es
unfolding insert_entry
All-of_insert_entry P e [] = λ h. h
All-of_insert_entry P e (f ∷ fs) = elim (Bool-cases (number_le e.rule_number f.rule_number)) [
  | inl first ↦ rw first (λ h. h)
  | inr later ↦ rw later (λ h. let (p, rest) = All-of_insert_entry P e fs h.1 in (p, (h.0, rest)))
]

Sorted-insert_entry : (e : NaclEntry) (es : List NaclEntry) → Sorted es → Sorted (insert_entry e es)
unfolding insert_entry
Sorted-insert_entry e [] s = (tt, tt)
Sorted-insert_entry e (f ∷ fs) s = elim (Bool-cases (number_le e.rule_number f.rule_number)) [
  | inl first ↦ rw first (
    (
      first,
      All-mono (Le f) (Le e) (λ g. number_le_trans e.rule_number f.rule_number g.rule_number first)
          fs s.0,
    ),
    s,
  )
  | inr later ↦ rw later (
    All-insert_entry (Le f) e fs (number_le-total e.rule_number f.rule_number later) s.0,
    Sorted-insert_entry e fs s.1,
  )
]

module _ (P : NaclEntry → Type 0) where
  All-by_number : (es : List NaclEntry) → All P es → All P (by_number es)
  unfolding by_number
  All-by_number [] h = tt
  All-by_number (e ∷ es) h = All-insert_entry P e (by_number es) h.0 (All-by_number es h.1)

  All-of_by_number : (es : List NaclEntry) → All P (by_number es) → All P es
  unfolding by_number
  All-of_by_number [] h = tt
  All-of_by_number (e ∷ es) h =
      let (p, rest) = All-of_insert_entry P e (by_number es) h in (p, All-of_by_number es rest)

Sorted-by_number : (es : List NaclEntry) → Sorted (by_number es)
unfolding by_number
Sorted-by_number [] = tt
Sorted-by_number (e ∷ es) = Sorted-insert_entry e (by_number es) (Sorted-by_number es)

-- In a sorted list no match comes before the first.
find_first-least :
    (p : NaclEntry → Bool) (es : List NaclEntry) (e : NaclEntry)
    → Sorted es
    → find_first p es ≡ some e
    → All (λ f. p f ≡ true → Le e f) es
unfolding find_first
find_first-least p [] e s h = tt
find_first-least p (x ∷ xs) e s h = elim (Bool-cases (p x)) [
  | inl hit ↦
      let same : x ≡ e = ground arith in
      subst (λ z. All (λ f. p f ≡ true → Le z f) (x ∷ xs)) same
        ((λ _. number_le_refl x.rule_number), All-mono (Le x) _ (λ f l _. l) xs s.0)
  | inr miss ↦ ((λ k. cc (k, miss)), find_first-least p xs e s.1 (ground arith))
]

-- The entry `e` of the list is inbound from everywhere, takes in the port, and no other such entry has
-- a smaller number.
pub record Decides (es : List NaclEntry) (port : ℕ) (e : NaclEntry) : Type 0 where
  pub listed : Member e es
  pub from_all : is_inbound e ≡ true
  pub matches : admits port e ≡ true
  pub least : All (λ f. is_inbound f ≡ true → admits port f ≡ true → Le e f) es

-- The check holds a port for open exactly by the action of an entry of the least number among those
-- that are inbound from everywhere and take in the port, wherever it stands in the list; and for not
-- open if there is no such entry.
pub is_open-inbound :
    (es : List NaclEntry) (port : ℕ)
    → ((e : NaclEntry) × Decides es port e × (is_open (inbound es) port ≡ (e.action == "allow")))
      ⊎ (All (λ f. is_inbound f ≡ true → admits port f ≡ false) es
          × (is_open (inbound es) port ≡ false))
unfolding is_open inbound
is_open-inbound es port =
    let kept = keep_if is_inbound es in
    elim (Option-cases (find_first (admits port) (by_number kept))) [
      | inl absent ↦ inr (
        All-of_keep_if (λ f. admits port f ≡ false) is_inbound es
            (All-of_by_number (λ f. admits port f ≡ false) kept
              (find_first-none (admits port) (by_number kept) absent)),
        ap allows absent,
      )
      | inr (e, found) ↦
          let ((listed, from_all), matches) =
            find_first-some (admits port) (λ f. Member f es × (is_inbound f ≡ true))
              (by_number kept) e
              (All-by_number (λ f. Member f es × (is_inbound f ≡ true)) kept
                (All-kept (λ f. Member f es) is_inbound es (All-members es)))
              found in
          inl (
            e,
            record {
              listed = listed;
              from_all = from_all;
              matches = matches;
              least =
                  All-of_keep_if (λ f. admits port f ≡ true → Le e f) is_inbound es
                    (All-of_by_number (λ f. admits port f ≡ true → Le e f) kept
                      (find_first-least (admits port) (by_number kept) e (Sorted-by_number kept)
                        found));
            },
            ap allows found,
          )
    ]
