-- ===== src/Notifications/Dispatch.antt =====
-- One round of `NotificationDispatcher` in src/ace_service/notifications.py. The length of an encoded
-- payload is an argument, since `json` makes it. A round is three sessions, of which Claims has the
-- first; what other processes do between two of them is an argument, and so is the status code that the
-- sender came to, nothing where it raised without one.
use text.Mathlib.Text.{starts_with}
use audio_ventura.Base.{
  ℕ, ◌+◌, ◌*◌, ◌^◌, Bool, true, false, not, ◌&&◌, ◌||◌, Option, none, some, List, [], ◌∷◌, String,
  ◌==◌, nat_eq, string_eq, option_eq, is_none, ltb, leb, if◌then◌else◌, Table, lookup, update,
}
use audio_ventura.Notifications.{
  NotificationKind, generation_completed, managed_generation_started, EventFields,
  NotificationEvent, PushSubscription, NotificationDelivery, delivered, abandoned, Outbox,
}
use audio_ventura.Notifications.Claims.{
  claim_due, max_attempts, max_payload_bytes, max_retry_seconds, owns, second, write,
}

unfoldable pub event_of : ℕ → List NotificationEvent → Option NotificationEvent
event_of id [] = none
event_of id (e ∷ es) = if e.id == id then some e else event_of id es

abbrev pub active_subscription : Option PushSubscription → Option PushSubscription
active_subscription none = none
active_subscription (some s) = if is_none s.disabled_at then some s else none

abbrev pub abandoned_row : NotificationDelivery → NotificationDelivery
abandoned_row d = record d { status = abandoned }

abbrev pub released_row : NotificationDelivery → NotificationDelivery
released_row d = record d { status = abandoned; claimed_by = none; claim_expires_at = none }

abbrev pub is_long_lived : NotificationKind → Bool
is_long_lived generation_completed = true
is_long_lived managed_generation_started = true
is_long_lived _ = false

-- What is handed to the sender.
pub record Send : Type 0 where
  pub subscription : PushSubscription
  pub event : EventFields
  pub ttl : ℕ
  pub attempt : ℕ

-- How the second session ends: with nothing done, with the delivery given up, or with a payload.
pub data Prepared : Type 0 where
  lost gone : Prepared
  sending : Send → Prepared

abbrev pub is_success : Option ℕ → Bool
is_success none = false
is_success (some code) = leb 200 code && ltb code 300

abbrev pub is_gone : Option ℕ → Bool
is_gone none = false
is_gone (some code) = code == 404 || code == 410

abbrev pub is_transient : Option ℕ → Bool
is_transient none = true
is_transient (some code) = code == 408 || code == 429 || leb 500 code

abbrev pub min : ℕ → ℕ → ℕ
min a b = if leb a b then a else b

unfoldable pub retry_delay : ℕ → ℕ
retry_delay attempt = min max_retry_seconds (2 ^ min attempt 10)

-- What every answer writes.
abbrev pub answered : Option ℕ → ℕ → NotificationDelivery → NotificationDelivery
answered code attempt d = record d {
  last_status_code = code;
  attempt_count = attempt;
  claimed_by = none;
  claim_expires_at = none;
}

abbrev pub postponed : ℕ → ℕ → NotificationDelivery → NotificationDelivery
postponed attempt now d =
    if leb max_attempts attempt
    then abandoned_row d
    else record d { next_attempt_at = now + retry_delay attempt * second }

unfoldable pub settled_row : Option ℕ → ℕ → ℕ → NotificationDelivery → NotificationDelivery
unfolding retry_delay
settled_row code attempt now d =
    if is_success code
    then record (answered code attempt d) { status = delivered; delivered_at = some now }
    else if is_gone code
    then abandoned_row (answered code attempt d)
    else if is_transient code
    then postponed attempt now (answered code attempt d)
    else abandoned_row (answered code attempt d)

abbrev pub succeeded_subscription : ℕ → PushSubscription → PushSubscription
succeeded_subscription now s = record s { last_success_at = some now; updated_at = now }

abbrev pub disabled_subscription : ℕ → PushSubscription → PushSubscription
disabled_subscription now s = record s { disabled_at = some now; updated_at = now }

abbrev pub settled_subscriptions :
    Option ℕ → ℕ → String → Table String PushSubscription → Table String PushSubscription
settled_subscriptions code now id ss =
    if is_success code
    then update id (succeeded_subscription now) ss
    else if is_gone code
    then update id (disabled_subscription now) ss
    else ss

abbrev pub settle_found :
    String → ℕ → ℕ → ℕ → Option ℕ → ℕ → Option NotificationDelivery → Outbox → Outbox
settle_found owner id token attempt code now none o = o
settle_found owner id token attempt code now (some d) o =
    if owns owner token d
    then record o {
      deliveries = update id (settled_row code attempt now) o.deliveries;
      subscriptions = settled_subscriptions code now d.subscription_id o.subscriptions;
    }
    else o

-- The third session.
unfoldable pub settle : String → ℕ → ℕ → ℕ → Option ℕ → ℕ → Outbox → Outbox
settle owner id token attempt code now o =
    settle_found owner id token attempt code now (lookup id o.deliveries) o

module _ (payload_size : EventFields → ℕ) where
  -- Whether `event_payload` returns; every kind of event is an allowed one.
  abbrev pub is_sendable : EventFields → Bool
  is_sendable f =
      starts_with f.target_path "/"
      && not (starts_with f.target_path "//")
      && ltb (payload_size f) max_payload_bytes

  abbrev pub prepare_send :
      ℕ
      → NotificationDelivery
      → Option NotificationEvent
      → Option PushSubscription
      → Outbox
      → Prepared × Outbox
  prepare_send id d none _ o = (gone, write id abandoned_row o)
  prepare_send id d (some event) none o = (gone, write id abandoned_row o)
  prepare_send id d (some event) (some subscription) o =
      if is_sendable event.fields
      then (
        sending (record {
          subscription = subscription;
          event = event.fields;
          ttl = if is_long_lived event.fields.kind then 86400 else 600;
          attempt = d.attempt_count + 1;
        }),
        o,
      )
      else (gone, write id released_row o)

  abbrev pub prepare_found :
      String → ℕ → ℕ → Option NotificationDelivery → Outbox → Prepared × Outbox
  prepare_found owner id token none o = (lost, o)
  prepare_found owner id token (some d) o =
      if owns owner token d
      then prepare_send id d (event_of d.event_id o.events)
          (active_subscription (lookup d.subscription_id o.subscriptions)) o
      else (lost, o)

  -- The second session.
  unfoldable pub prepare : String → ℕ → ℕ → Outbox → Prepared × Outbox
  unfolding event_of
  prepare owner id token o = prepare_found owner id token (lookup id o.deliveries) o

  abbrev pub sent :
      String → ℕ → ℕ → ℕ → (Outbox → Outbox) → (Send → Option ℕ) → Prepared × Outbox → ℕ × Outbox
  sent owner id token now during sender (lost, o) = (0, o)
  sent owner id token now during sender (gone, o) = (1, o)
  sent owner id token now during sender (sending s, o) =
      (1, settle owner id token s.attempt (sender s) now (during o))

  abbrev pub claimed :
      String
      → ℕ
      → (Outbox → Outbox)
      → (Outbox → Outbox)
      → (Send → Option ℕ)
      → Option (ℕ × ℕ) × Outbox
      → ℕ × Outbox
  claimed owner now between during sender (none, o) = (0, o)
  claimed owner now between during sender (some (id, token), o) =
      sent owner id token now during sender (prepare owner id token (between o))

  -- One round: the number that it returns, and the outbox behind it.
  unfoldable pub dispatch_once :
      String → ℕ → (Outbox → Outbox) → (Outbox → Outbox) → (Send → Option ℕ) → Outbox → ℕ × Outbox
  unfolding claim_due
  dispatch_once owner now between during sender o =
      claimed owner now between during sender (claim_due owner now o)
