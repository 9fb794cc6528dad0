-- ===== src/Notifications/Rounds.antt =====
-- A round of src/ace_service/notifications.py with no other process at work: what it does to the
-- delivery that is due first.
use audio_ventura.Base.{
  ℕ, suc, ◌+◌, ◌-◌, ◌*◌, ◌<◌, ◌≤◌, ◌≡◌, ◌⊎◌, inl, inr, refl, sym, subst, true, false, Option, none,
  some, String, nat_eq, string_eq, option_eq, ==_refl, leb, if◌then◌else◌, lookup, update, unique,
  find_row, find_row-lookup, find_row-holds, lookup-update_self, update-update, arith, Bool-cases,
  Option-cases,
}
use audio_ventura.Notifications.{
  EventFields, NotificationEvent, PushSubscription, NotificationDelivery, Outbox,
}
use audio_ventura.Notifications.Dispatch.{
  abandoned_row, released_row, settled_row, settle, retry_delay, Send, Prepared, prepare,
  prepare_send, sent, claimed, dispatch_once, is_success, is_gone, is_transient, event_of,
  active_subscription, is_sendable,
}
use audio_ventura.Notifications.Claims.{
  is_pending, is_held, is_due, write, claim_row, claim_due, owns, max_attempts, max_retry_seconds,
  second,
}

-- How often a delivery may still be tried.
abbrev pub rounds_left : NotificationDelivery → ℕ
rounds_left d = if is_pending d.status then suc (11 - d.attempt_count) else 0

abbrev pub alone : Outbox → Outbox
alone o = o

-- After a time nothing keeps a pending delivery back.
pub record IsOpen (at : ℕ) (d : NotificationDelivery) : Type 0 where
  pub due : is_pending d.status ≡ true → d.next_attempt_at ≤ at
  pub unclaimed : is_pending d.status ≡ true → is_held at d ≡ false

abbrev pub later : ℕ → ℕ
later now = now + max_retry_seconds * second

retry_delay-le : (attempt : ℕ) → retry_delay attempt ≤ max_retry_seconds
unfolding retry_delay
retry_delay-le attempt = ground arith

-- What a round came to: the row that was due first, and what was written to it.
pub record Advanced (now : ℕ) (o : Outbox) (r : ℕ × Outbox) : Type 0 where
  pub counted : r.0 ≡ 1
  pub id : ℕ
  pub row : NotificationDelivery
  pub change : NotificationDelivery → NotificationDelivery
  pub found : find_row (is_due now) o.deliveries ≡ some (id, row)
  pub written : r.1.deliveries ≡ update id change o.deliveries
  pub fewer : rounds_left (change row) < rounds_left row
  pub open_later : IsOpen (later now) (change row)

settled-fewer :
    (code : Option ℕ) (now : ℕ) (owner : String) (d : NotificationDelivery)
    → is_pending d.status ≡ true
    → rounds_left (settled_row code (d.attempt_count + 1) now (claim_row owner now d))
      < rounds_left d
unfolding settled_row
settled-fewer code now owner d p = elim (Bool-cases (is_success code)) [
  | inl s ↦ rw (s, p) (omega arith)
  | inr f ↦ elim (Bool-cases (is_gone code)) [
    | inl s ↦ rw (f, s, p) (omega arith)
    | inr g ↦ elim (Bool-cases (is_transient code)) [
      | inr s ↦ rw (f, g, s, p) (omega arith)
      | inl s ↦ elim (Bool-cases (leb max_attempts (d.attempt_count + 1))) [
        | inl l ↦ rw (f, g, s, l, p) (omega arith)
        | inr l ↦ rw (f, g, s, l, p) (ground arith)
      ]
    ]
  ]
]

settled-IsOpen :
    (code : Option ℕ) (now attempt : ℕ) (d : NotificationDelivery)
    → is_pending d.status ≡ true
    → IsOpen (later now) (settled_row code attempt now d)
unfolding settled_row
settled-IsOpen code now attempt d p = elim (Bool-cases (is_success code)) [
  | inl s ↦ rw s (record { due = λ h. cc; unclaimed = λ h. cc })
  | inr f ↦ elim (Bool-cases (is_gone code)) [
    | inl s ↦ rw (f, s) (record { due = λ h. cc; unclaimed = λ h. cc })
    | inr g ↦ elim (Bool-cases (is_transient code)) [
      | inr s ↦ rw (f, g, s) (record { due = λ h. cc; unclaimed = λ h. cc })
      | inl s ↦ elim (Bool-cases (leb max_attempts attempt)) [
        | inl l ↦ rw (f, g, s, l) (record { due = λ h. cc; unclaimed = λ h. cc })
        | inr l ↦
            rw (f, g, s, l)
              (record { due = λ h. omega (arith, retry_delay-le attempt); unclaimed = λ h. refl })
      ]
    ]
  ]
]

pub is_due-pending :
    (now : ℕ) (d : NotificationDelivery) → is_due now d ≡ true → is_pending d.status ≡ true
is_due-pending now d h = ground arith

-- A write of an outbox whose first due row is given.
module _ (now : ℕ) (owner : String) (id : ℕ) (row : NotificationDelivery) (o : Outbox) where
  abbrev taken : Outbox
  taken = write id (claim_row owner now) o

  claim_due-some :
      find_row (is_due now) o.deliveries ≡ some (id, row)
      → is_held now row ≡ false
      → claim_due owner now o ≡ (some (id, row.fencing_token + 1), taken)
  unfolding claim_due
  claim_due-some found free = rw (found, free) refl

  lookup-taken :
      unique o.deliveries ≡ true
      → find_row (is_due now) o.deliveries ≡ some (id, row)
      → lookup id taken.deliveries ≡ some (claim_row owner now row)
  lookup-taken u found =
      lookup-update_self id (claim_row owner now) o.deliveries
        (find_row-lookup (is_due now) o.deliveries id row u found)

  owns-taken : owns owner (row.fencing_token + 1) (claim_row owner now row) ≡ true
  owns-taken = rw (==_refl owner, ==_refl (row.fencing_token + 1)) refl

  settle-taken :
      (attempt : ℕ) (code : Option ℕ)
      → lookup id taken.deliveries ≡ some (claim_row owner now row)
      → (settle owner id (row.fencing_token + 1) attempt code now taken).deliveries
        ≡ update id (λ d. settled_row code attempt now (claim_row owner now d)) o.deliveries
  unfolding settle
  settle-taken attempt code l =
      rw (l, owns-taken)
        (update-update id (claim_row owner now) (settled_row code attempt now) o.deliveries)

  -- The delivery is given up.
  given_up :
      (g : NotificationDelivery → NotificationDelivery)
      → ((d : NotificationDelivery) → is_pending (g d).status ≡ false)
      → is_pending row.status ≡ true
      → find_row (is_due now) o.deliveries ≡ some (id, row)
      → Advanced now o (1, write id g taken)
  given_up g ends p found = record {
    counted = refl;
    id = id;
    row = row;
    change = λ d. g (claim_row owner now d);
    found = found;
    written = update-update id (claim_row owner now) g o.deliveries;
    fewer = rw (ends (claim_row owner now row), p) (omega arith);
    open_later = record {
      due = λ h. cc (ends (claim_row owner now row));
      unclaimed = λ h. cc (ends (claim_row owner now row));
    };
  }

  answer_came :
      (code : Option ℕ)
      → is_pending row.status ≡ true
      → find_row (is_due now) o.deliveries ≡ some (id, row)
      → lookup id taken.deliveries ≡ some (claim_row owner now row)
      → Advanced now o
          (1, settle owner id (row.fencing_token + 1) (row.attempt_count + 1) code now taken)
  answer_came code p found l = record {
    counted = refl;
    id = id;
    row = row;
    change = λ d. settled_row code (row.attempt_count + 1) now (claim_row owner now d);
    found = found;
    written = settle-taken (row.attempt_count + 1) code l;
    fewer = settled-fewer code now owner row p;
    open_later = settled-IsOpen code now (row.attempt_count + 1) (claim_row owner now row) p;
  }

  module _ (payload_size : EventFields → ℕ) (sender : Send → Option ℕ) where
    abbrev round_after : Prepared × Outbox → ℕ × Outbox
    round_after = sent payload_size owner id (row.fencing_token + 1) now alone sender

    prepared-Advanced :
        (event : Option NotificationEvent) (subscription : Option PushSubscription)
        → is_pending row.status ≡ true
        → find_row (is_due now) o.deliveries ≡ some (id, row)
        → lookup id taken.deliveries ≡ some (claim_row owner now row)
        → Advanced now o (
            round_after
              (prepare_send payload_size id (claim_row owner now row) event subscription taken))
    prepared-Advanced none subscription p found l = given_up abandoned_row (λ d. refl) p found
    prepared-Advanced (some event) none p found l = given_up abandoned_row (λ d. refl) p found
    prepared-Advanced (some event) (some subscription) p found l =
        elim (Bool-cases (is_sendable payload_size event.fields)) [
          | inl b ↦ rw b (answer_came _ p found l)
          | inr b ↦ rw b (given_up released_row (λ d. refl) p found)
        ]

    prepare-taken :
        lookup id taken.deliveries ≡ some (claim_row owner now row)
        → prepare payload_size owner id (row.fencing_token + 1) taken
          ≡ prepare_send payload_size id
              (claim_row owner now row)
              (event_of row.event_id o.events)
              (active_subscription (lookup row.subscription_id o.subscriptions))
              taken
    unfolding prepare
    prepare-taken l = rw (l, owns-taken) refl

    pub dispatch-Advanced :
        unique o.deliveries ≡ true
        → find_row (is_due now) o.deliveries ≡ some (id, row)
        → is_held now row ≡ false
        → is_pending row.status ≡ true
        → Advanced now o (dispatch_once payload_size owner now alone alone sender o)
    unfolding dispatch_once
    dispatch-Advanced u found free p =
        let l = lookup-taken u found in
        subst (λ c. Advanced now o (claimed payload_size owner now alone alone sender c))
          (sym (claim_due-some found free))
          (subst (λ c. Advanced now o (round_after c)) (sym (prepare-taken l))
            (prepared-Advanced (event_of row.event_id o.events)
              (active_subscription (lookup row.subscription_id o.subscriptions)) p found l))

module _ (payload_size : EventFields → ℕ) (owner : String) (now : ℕ)
    (sender : Send → Option ℕ) where
  abbrev pub round : Outbox → ℕ × Outbox
  round = dispatch_once payload_size owner now alone alone sender

  -- A round with no other process at work returns 0 and writes nothing, or advances a delivery.
  pub round-cases :
      (o : Outbox) → unique o.deliveries ≡ true → (round o ≡ (0, o)) ⊎ Advanced now o (round o)
  unfolding dispatch_once claim_due
  round-cases o u = elim (Option-cases (find_row (is_due now) o.deliveries)) [
    | inl n ↦ inl (rw n refl)
    | inr ((id, row), found) ↦ elim (Bool-cases (is_held now row)) [
      | inl held ↦ inl (rw (found, held) refl)
      | inr free ↦ inr (
          dispatch-Advanced now owner id row o payload_size sender u found free
            (is_due-pending now row (find_row-holds (is_due now) o.deliveries id row found)))
    ]
  ]
