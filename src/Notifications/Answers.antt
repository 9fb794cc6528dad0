-- ===== src/Notifications/Answers.antt =====
-- What the third session of src/ace_service/notifications.py writes, among other dispatchers.
use audio_ventura.Base.{
  ℕ, ◌+◌, ◌≡◌, ◌⊎◌, ◌&&◌, Bool, false, leb, update, inl, inr, refl, ap, sym, subst, ◌∙◌, true,
  Option, none, some, List, String, nat_eq, string_eq, option_eq, Result, lookup, unique, find_row,
  find_row-lookup, find_row-holds, lookup-update_self, arith, Bool-cases, Option-cases,
}
use audio_ventura.Errors.{Failure}
use audio_ventura.Notifications.{
  EventFields, NotificationDelivery, NotificationEvent, PushSubscription, Outbox,
}
use audio_ventura.Notifications.Subscriptions.{Url}
use audio_ventura.Notifications.Dispatch.{
  settle, settled_row, Send, Prepared, lost, gone, sending, prepare, prepare_send, event_of,
  active_subscription, is_sendable,
}
use audio_ventura.Notifications.Claims.{
  is_pending, is_held, is_due, claim_row, claim_due, owns, max_attempts,
}
use audio_ventura.Notifications.Rounds.{is_due-pending}
use audio_ventura.Notifications.Undisturbed.{OutboxCall, are_by_others, run_calls}
use audio_ventura.Notifications.Others.{Holds, Holds-calls}

-- A claim that was made: what stood in the row, and what stands there now.
record Claimed (owner : String) (now : ℕ) (id token : ℕ) (o : Outbox) : Type 0 where
  before : NotificationDelivery
  stored : lookup id o.deliveries ≡ some (claim_row owner now before)
  numbered : token ≡ before.fencing_token + 1
  waiting : is_pending before.status ≡ true

abbrev ClaimOf : String → ℕ → Option (ℕ × ℕ) × Outbox → Type 0
ClaimOf owner now (none, o) = Unit
ClaimOf owner now (some (id, token), o) = Claimed owner now id token o

claim_due-ClaimOf :
    (owner : String) (now : ℕ) (o : Outbox)
    → unique o.deliveries ≡ true
    → ClaimOf owner now (claim_due owner now o)
unfolding claim_due
claim_due-ClaimOf owner now o u = elim (Option-cases (find_row (is_due now) o.deliveries)) [
  | inl n ↦ rw n tt
  | inr ((k, d), found) ↦ elim (Bool-cases (is_held now d)) [
    | inl b ↦ rw (found, b) tt
    | inr b ↦
        rw (found, b)
          (record {
            before = d;
            stored =
                lookup-update_self k (claim_row owner now) o.deliveries
                  (find_row-lookup (is_due now) o.deliveries k d u found);
            numbered = refl;
            waiting = is_due-pending now d (find_row-holds (is_due now) o.deliveries k d found);
          })
  ]
]

-- What was handed to the sender: the row is held, nothing was written, and the try is the next one.
record Readied (owner : String) (id token : ℕ) (o o' : Outbox) (s : Send) : Type 0 where
  unwritten : o' ≡ o
  row : NotificationDelivery
  stored : lookup id o.deliveries ≡ some row
  held : owns owner token row ≡ true
  next : s.attempt ≡ row.attempt_count + 1

abbrev ReadyOf : String → ℕ → ℕ → Outbox → Prepared × Outbox → Type 0
ReadyOf owner id token o (lost, o') = Unit
ReadyOf owner id token o (gone, o') = Unit
ReadyOf owner id token o (sending s, o') = Readied owner id token o o' s

module _ (payload_size : EventFields → ℕ) (owner : String) (id token : ℕ) (o : Outbox) where
  prepare_send-ReadyOf :
      (d : NotificationDelivery) (event : Option NotificationEvent)
      (subscription : Option PushSubscription)
      → lookup id o.deliveries ≡ some d
      → owns owner token d ≡ true
      → ReadyOf owner id token o (prepare_send payload_size id d event subscription o)
  prepare_send-ReadyOf d none subscription l h = tt
  prepare_send-ReadyOf d (some event) none l h = tt
  prepare_send-ReadyOf d (some event) (some subscription) l h =
      elim (Bool-cases (is_sendable payload_size event.fields)) [
        | inl b ↦ rw b (record { unwritten = refl; row = d; stored = l; held = h; next = refl })
        | inr b ↦ rw b tt
      ]

  prepare-ReadyOf : ReadyOf owner id token o (prepare payload_size owner id token o)
  unfolding prepare
  prepare-ReadyOf = elim (Option-cases (lookup id o.deliveries)) [
    | inl n ↦ rw n tt
    | inr (d, l) ↦ elim (Bool-cases (owns owner token d)) [
      | inr b ↦ rw (l, b) tt
      | inl b ↦
          rw (l, b)
            (prepare_send-ReadyOf d (event_of d.event_id o.events)
              (active_subscription (lookup d.subscription_id o.subscriptions)) l b)
    ]
  ]

some-row : {a b : NotificationDelivery} → some a ≡ some b → a ≡ b
some-row h = cc

counted :
    {owner : String} {id token count : ℕ} {o o' : Outbox} {s : Send}
    (h : Holds owner token count id o) (r : Readied owner id token o o' s)
    → r.row.attempt_count ≡ count
counted {owner} {id} {token} {count} h r =
    let same : h.row ≡ r.row = some-row (sym h.stored ∙ r.stored) in
    subst (λ d. d.attempt_count ≡ count) same
      (h.mine.as_claimed (subst (λ d. owns owner token d ≡ true) (sym same) r.held)).1

Claimed-Holds :
    (owner : String) (now id token : ℕ) (o : Outbox) (c : Claimed owner now id token o)
    → Holds owner token c.before.attempt_count id o
Claimed-Holds owner now id token o c = record {
  row = claim_row owner now c.before;
  stored = c.stored;
  mine = record { not_before = omega (arith, c.numbered); as_claimed = λ h. (c.waiting, refl) };
}

settled_row-attempt_count :
    (code : Option ℕ) (attempt at : ℕ) (d : NotificationDelivery)
    → (settled_row code attempt at d).attempt_count ≡ attempt
unfolding settled_row
settled_row-attempt_count code attempt at d = ground arith

settled_row-claimed_by :
    (code : Option ℕ) (attempt at : ℕ) (d : NotificationDelivery)
    → (settled_row code attempt at d).claimed_by ≡ none
unfolding settled_row
settled_row-claimed_by code attempt at d = ground arith

-- A row with no try left is not left pending.
abbrev pub is_overdrawn : NotificationDelivery → Bool
is_overdrawn d = is_pending d.status && leb max_attempts d.attempt_count

settled_row-is_overdrawn :
    (code : Option ℕ) (attempt at : ℕ) (d : NotificationDelivery)
    → is_overdrawn (settled_row code attempt at d) ≡ false
unfolding settled_row
settled_row-is_overdrawn code attempt at d = ground arith

-- The write of an answer: the row that it finds is pending, and it alone is written, with its try
-- counted, its claim given back, and no longer pending when its tries are used up.
pub record CountsTry (owner : String) (id token attempt : ℕ) (o o' : Outbox) : Type 0 where
  pub row : NotificationDelivery
  pub change : NotificationDelivery → NotificationDelivery
  pub stored : lookup id o.deliveries ≡ some row
  pub held : owns owner token row ≡ true
  pub waiting : is_pending row.status ≡ true
  pub written : o'.deliveries ≡ update id change o.deliveries
  pub next : attempt ≡ row.attempt_count + 1
  pub counted_up : (change row).attempt_count ≡ row.attempt_count + 1
  pub given_back : (change row).claimed_by ≡ none
  pub ended : is_overdrawn (change row) ≡ false
  pub same_events : o'.events ≡ o.events

-- An answer whose claim is no longer the delivery's writes nothing.
pub record Overtaken (owner : String) (id token : ℕ) (o o' : Outbox) : Type 0 where
  pub row : NotificationDelivery
  pub stored : lookup id o.deliveries ≡ some row
  pub lost : owns owner token row ≡ false
  pub same : o' ≡ o

-- The third session writes nothing, or counts the try of a pending delivery.
abbrev pub WritesOnce : String → ℕ → ℕ → ℕ → Outbox → Outbox → Type 0
WritesOnce owner id token attempt o o' =
    Overtaken owner id token o o' ⊎ CountsTry owner id token attempt o o'

settle-WritesOnce :
    (owner : String) (id token count attempt : ℕ) (code : Option ℕ) (at : ℕ) (o : Outbox)
    → Holds owner token count id o
    → attempt ≡ count + 1
    → WritesOnce owner id token attempt o (settle owner id token attempt code at o)
unfolding settle
settle-WritesOnce owner id token count attempt code at o h e =
    elim (Bool-cases (owns owner token h.row)) [
      | inr b ↦
          inl (record { row = h.row; stored = h.stored; lost = b; same = rw (h.stored, b) refl })
      | inl b ↦
          let next : attempt ≡ h.row.attempt_count + 1 =
            omega (arith, e, (h.mine.as_claimed b).1) in
          inr (record {
            row = h.row;
            change = settled_row code attempt at;
            stored = h.stored;
            held = b;
            waiting = (h.mine.as_claimed b).0;
            written = rw (h.stored, b) refl;
            next = next;
            counted_up = settled_row-attempt_count code attempt at h.row ∙ next;
            given_back = settled_row-claimed_by code attempt at h.row;
            ended = settled_row-is_overdrawn code attempt at h.row;
            same_events = rw (h.stored, b) refl;
          })
    ]

module _ (payload_size : EventFields → ℕ) (urlsplit : String → Result Failure Url)
    (lower : String → String) (decoded_length : String → Option ℕ) where
  abbrev others : List OutboxCall → Outbox → Outbox
  others = run_calls payload_size urlsplit lower decoded_length

  -- However the calls of other dispatchers, and new events and subscriptions, come between the three
  -- sessions of a dispatcher, its answer leaves the outbox as it is, and then the delivery no longer bears
  -- its claim, or the delivery bears it, is still pending, and is the only one that is written: its count
  -- of tries goes up by one, its claim is given back, and it is not left pending with twelve tries or
  -- more. So a delivery that was settled while the dispatcher was sending is never changed.
  pub answer-WritesOnce :
      (owner : String) (now id token : ℕ) (cs cs' : List OutboxCall) (o o' o'' : Outbox) (s : Send)
      (code : Option ℕ) (at : ℕ)
      → unique o.deliveries ≡ true
      → are_by_others owner cs ≡ true
      → are_by_others owner cs' ≡ true
      → claim_due owner now o ≡ (some (id, token), o')
      → prepare payload_size owner id token (others cs o') ≡ (sending s, o'')
      → WritesOnce owner id token s.attempt
          (others cs' o'')
          (settle owner id token s.attempt code at (others cs' o''))
  answer-WritesOnce owner now id token cs cs' o o' o'' s code at u b b' e e' =
      let c = subst (ClaimOf owner now) e (claim_due-ClaimOf owner now o u) in
      let h =
        Holds-calls owner token c.before.attempt_count id payload_size urlsplit lower decoded_length
          cs o' b (Claimed-Holds owner now id token o' c) in
      let r =
        subst (ReadyOf owner id token (others cs o')) e'
          (prepare-ReadyOf payload_size owner id token (others cs o')) in
      let h' =
        Holds-calls owner token c.before.attempt_count id payload_size urlsplit lower decoded_length
          cs' o'' b' (subst (Holds owner token c.before.attempt_count id) (sym r.unwritten) h) in
      settle-WritesOnce owner id token c.before.attempt_count s.attempt code at (others cs' o'') h'
        (r.next ∙ ap (λ n. n + 1) (counted h r))
