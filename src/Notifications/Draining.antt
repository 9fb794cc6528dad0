-- ===== src/Notifications/Draining.antt =====
-- The rounds of src/ace_service/notifications.py come to an end: a delivery is tried a bounded number of
-- times, and an outbox that is left alone is emptied.
use audio_ventura.Base.{
  ℕ, zero, suc, ◌+◌, ◌<◌, ◌≤◌, ◌≡◌, ◌⊎◌, inl, inr, refl, ap, sym, subst, ◌∙◌, true, false, Option,
  none, some, List, [], ◌∷◌, String, nat_eq, string_eq, option_eq, Table, lookup, unique, find_row,
  find_row-lookup, find_row-holds, unique-update, AllRows, AllRows-map, AllRows-lookup,
  AllRows-update, sum_rows, sum_rows-update, arith, Bool-cases, Option-cases,
}
use audio_ventura.Notifications.{EventFields, NotificationDelivery, Outbox}
use audio_ventura.Notifications.Dispatch.{Send, dispatch_once}
use audio_ventura.Notifications.Claims.{is_pending, is_held, is_due, at_or_before, claim_due}
use audio_ventura.Notifications.Rounds.{
  rounds_left, IsOpen, later, Advanced, round, round-cases, dispatch-Advanced, is_due-pending,
}

-- How many times the pending deliveries may still be tried, all together.
abbrev pub weight : Outbox → ℕ
weight o = sum_rows rounds_left o.deliveries

Advanced-lookup :
    {now : ℕ} {o : Outbox} {r : ℕ × Outbox} (a : Advanced now o r)
    → unique o.deliveries ≡ true
    → lookup a.id o.deliveries ≡ some a.row
Advanced-lookup {now} {o} a u = find_row-lookup (is_due now) o.deliveries a.id a.row u a.found

Advanced-unique :
    {now : ℕ} {o : Outbox} {r : ℕ × Outbox} (a : Advanced now o r)
    → unique o.deliveries ≡ true
    → unique r.1.deliveries ≡ true
Advanced-unique {o = o} a u = ap unique a.written ∙ unique-update a.id a.change o.deliveries ∙ u

Advanced-weight :
    {now : ℕ} {o : Outbox} {r : ℕ × Outbox} (a : Advanced now o r)
    → unique o.deliveries ≡ true
    → weight r.1 < weight o
Advanced-weight {o = o} a u = omega (
  arith,
  a.fewer,
  ap (sum_rows rounds_left) a.written,
  sum_rows-update rounds_left a.id a.change o.deliveries u (Advanced-lookup a u),
)

module _ (payload_size : EventFields → ℕ) (owner : String) where
  -- Rounds at any times, each with what its sender answers: how many deliveries they dealt with.
  unfoldable pub run_rounds : List (ℕ × (Send → Option ℕ)) → Outbox → ℕ × Outbox
  run_rounds [] o = (0, o)
  run_rounds ((now, sender) ∷ rs) o =
      let (n, o') = round payload_size owner now sender o in
      let (m, o'') = run_rounds rs o' in (n + m, o'')

  -- Whatever the senders answer and whenever the rounds are made, with no other process at work they
  -- deal with at most as many deliveries as the pending ones have tries left, twelve for a new one.
  pub retries_end :
      (rs : List (ℕ × (Send → Option ℕ))) (o : Outbox)
      → unique o.deliveries ≡ true
      → (run_rounds rs o).0 + weight (run_rounds rs o).1 ≤ weight o
  unfolding run_rounds
  retries_end [] o u = omega arith
  retries_end ((now, sender) ∷ rs) o u = elim (round-cases payload_size owner now sender o u) [
    | inl e ↦ rw e (omega (arith, retries_end rs o u))
    | inr a ↦ omega (
      arith,
      a.counted,
      Advanced-weight a u,
      retries_end rs (round payload_size owner now sender o).1 (Advanced-unique a u),
    )
  ]

abbrev pub IsSettled : NotificationDelivery → Type 0
IsSettled d = is_pending d.status ≡ false

at_or_before-later :
    (now at : ℕ) (e : Option ℕ) → now ≤ at → at_or_before now e ≡ true → at_or_before at e ≡ true
at_or_before-later now at none l h = refl
at_or_before-later now at (some t) l h = ground arith

is_held-later :
    (now at : ℕ) (d : NotificationDelivery)
    → now ≤ at
    → is_held now d ≡ false
    → is_held at d ≡ false
is_held-later now at d l h = elim (Bool-cases (at_or_before now d.claim_expires_at)) [
  | inl b ↦ rw (at_or_before-later now at d.claim_expires_at l b) (ground arith)
  | inr b ↦ ground (arith, h, b)
]

IsOpen-later : (now : ℕ) (d : NotificationDelivery) → IsOpen now d → IsOpen (later now) d
IsOpen-later now d p = record {
  due = λ h. omega (arith, p.due h);
  unclaimed = λ h. is_held-later now (later now) d (omega arith) (p.unclaimed h);
}

IsSettled-unless_due :
    (now : ℕ) (d : NotificationDelivery) → is_due now d ≡ false → IsOpen now d → IsSettled d
IsSettled-unless_due now d b p = elim (Bool-cases (is_pending d.status)) [
  | inl h ↦ ground (arith, p.due h, b, h)
  | inr h ↦ h
]

none_pending :
    (now : ℕ) (t : Table ℕ NotificationDelivery)
    → find_row (is_due now) t ≡ none
    → AllRows (IsOpen now) t
    → AllRows IsSettled t
unfolding find_row
none_pending now [] n p = tt
none_pending now ((id, d) ∷ t) n p = elim (Bool-cases (is_due now d)) [
  | inl b ↦ cc (rw b at n)
  | inr b ↦ (IsSettled-unless_due now d b p.0, none_pending now t (rw b at n) p.1)
]

nothing_due :
    (now : ℕ) (t : Table ℕ NotificationDelivery)
    → AllRows IsSettled t
    → find_row (is_due now) t ≡ none
unfolding find_row
nothing_due now [] p = refl
nothing_due now ((id, d) ∷ t) p = rw (p.0, nothing_due now t p.1) refl

Advanced-IsOpen :
    {now : ℕ} {o : Outbox} {r : ℕ × Outbox} (a : Advanced now o r)
    → unique o.deliveries ≡ true
    → AllRows (IsOpen now) o.deliveries
    → AllRows (IsOpen (later now)) r.1.deliveries
Advanced-IsOpen {now} {o} {r} a u p = subst (AllRows (IsOpen (later now))) (sym a.written) (
    AllRows-update (IsOpen (later now)) a.id a.change o.deliveries u (Advanced-lookup a u)
      a.open_later
      (AllRows-map (IsOpen now) (IsOpen (later now)) o.deliveries (IsOpen-later now) p))

module _ (payload_size : EventFields → ℕ) (owner : String) (sender : ℕ → Send → Option ℕ) where
  -- Rounds that keep the longest delay of a retry apart, each with what its sender answers.
  unfoldable pub spaced_rounds : ℕ → ℕ → Outbox → Outbox
  spaced_rounds zero now o = o
  spaced_rounds (suc n) now o =
      spaced_rounds n (later now) (round payload_size owner now (sender now) o).1

  idle :
      (now : ℕ) (o : Outbox)
      → find_row (is_due now) o.deliveries ≡ none
      → round payload_size owner now (sender now) o ≡ (0, o)
  unfolding dispatch_once claim_due
  idle now o n = rw n refl

  open-cases :
      (now : ℕ) (o : Outbox)
      → unique o.deliveries ≡ true
      → AllRows (IsOpen now) o.deliveries
      → (find_row (is_due now) o.deliveries ≡ none)
        ⊎ Advanced now o (round payload_size owner now (sender now) o)
  open-cases now o u p = elim (Option-cases (find_row (is_due now) o.deliveries)) [
    | inl n ↦ inl n
    | inr ((id, row), found) ↦
        let pend = is_due-pending now row (find_row-holds (is_due now) o.deliveries id row found) in
        let l = find_row-lookup (is_due now) o.deliveries id row u found in
        inr (
          dispatch-Advanced now owner id row o payload_size (sender now) u found
            ((AllRows-lookup (IsOpen now) id o.deliveries l p).unclaimed pend) pend)
  ]

  behind_idle :
      (n now : ℕ) (o : Outbox)
      → find_row (is_due now) o.deliveries ≡ none
      → AllRows IsSettled (spaced_rounds n (later now) o).deliveries
      → AllRows IsSettled (spaced_rounds (suc n) now o).deliveries
  unfolding spaced_rounds
  behind_idle n now o e q =
      subst (λ r. AllRows IsSettled (spaced_rounds n (later now) r.1).deliveries)
        (sym (idle now o e)) q

  still-IsSettled :
      (n now : ℕ) (o : Outbox)
      → AllRows IsSettled o.deliveries
      → AllRows IsSettled (spaced_rounds n now o).deliveries
  unfolding spaced_rounds
  still-IsSettled zero now o p = p
  still-IsSettled (suc n) now o p =
      behind_idle n now o (nothing_due now o.deliveries p) (still-IsSettled n (later now) o p)

  -- If nothing keeps the pending deliveries back at the first round, no other process is at work, and
  -- each round comes 900 seconds, the longest delay of a retry, after the one before, then after as many
  -- rounds as the pending deliveries have tries left none is pending, whatever the sender answers.
  pub outbox_drains :
      (n now : ℕ) (o : Outbox)
      → unique o.deliveries ≡ true
      → AllRows (IsOpen now) o.deliveries
      → weight o ≤ n
      → AllRows IsSettled (spaced_rounds n now o).deliveries
  unfolding spaced_rounds
  outbox_drains zero now o u p w = elim (open-cases now o u p) [
    | inl n ↦ none_pending now o.deliveries n p
    | inr a ↦ absurd (omega (arith, Advanced-weight a u))
  ]
  outbox_drains (suc n) now o u p w = elim (open-cases now o u p) [
    | inl none_due ↦
        behind_idle n now o none_due
          (still-IsSettled n (later now) o (none_pending now o.deliveries none_due p))
    | inr a ↦
        outbox_drains n (later now) (round payload_size owner now (sender now) o).1
          (Advanced-unique a u) (Advanced-IsOpen a u p) (omega (arith, Advanced-weight a u))
  ]
