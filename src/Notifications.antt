-- ===== src/Notifications.antt =====
-- `insert_notification_event` of src/ace_service/repository.py: the durable events and their
-- fan-out to the push subscriptions that are active when the event is created.
pub mod Laws
pub mod Subscriptions
pub mod Claims
pub mod Dispatch
pub mod Rounds
pub mod Draining
pub mod Undisturbed
pub mod Others
pub mod Answers
mod Tests
mod RoundTests
use text.Mathlib.Text.{starts_with, find?}
use audio_ventura.Base.{
  ℕ, suc, ◌+◌, Bool, true, false, not, ◌||◌, Option, none, some, List, [], ◌∷◌, ◌++◌, String, ◌==◌,
  string_eq, is_some, is_none, is_empty, longer_than, if◌then◌else◌, Result, ok, err, Exec, Table,
}
use audio_ventura.Errors.{Failure, value_error}
use audio_ventura.Providers.{ProviderName}

-- `NOTIFICATION_EVENT_KINDS`
pub data NotificationKind : Type 0 where
  generation_completed managed_generation_started capacity_retained_reminder : NotificationKind
  capacity_release_warning capacity_released capacity_release_overdue : NotificationKind

-- The arguments of a call: what the row of an event holds, but its id.
pub record EventFields : Type 0 where
  pub event_key : String
  pub kind : NotificationKind
  pub title : String
  pub body : String
  pub target_path : String
  pub job_id : Option String
  pub provider : Option ProviderName
  pub capacity_key : Option String
  pub created_at : ℕ

pub record NotificationEvent : Type 0 where
  pub id : ℕ
  pub fields : EventFields

-- A browser's subscription, behind its id.
pub record PushSubscription : Type 0 where
  pub endpoint : String
  pub endpoint_origin : String
  pub p256dh : String
  pub auth : String
  pub created_at : ℕ
  pub updated_at : ℕ
  pub last_success_at : Option ℕ
  pub disabled_at : Option ℕ

pub data DeliveryStatus : Type 0 where
  pending delivered abandoned : DeliveryStatus

pub record NotificationDelivery : Type 0 where
  pub event_id : ℕ
  pub subscription_id : String
  pub status : DeliveryStatus
  pub attempt_count : ℕ
  pub next_attempt_at : ℕ
  pub last_status_code : Option ℕ
  pub delivered_at : Option ℕ
  pub claimed_by : Option String
  pub claim_expires_at : Option ℕ
  pub fencing_token : ℕ

-- The three tables, and the next primary keys that the database gives out.
pub record Outbox : Type 0 where
  pub events : List NotificationEvent
  pub next_event_id : ℕ
  pub subscriptions : Table String PushSubscription
  pub deliveries : Table ℕ NotificationDelivery
  pub next_delivery_id : ℕ

unfoldable pub find_event : String → List NotificationEvent → Option NotificationEvent
find_event key [] = none
find_event key (e ∷ es) = if e.fields.event_key == key then some e else find_event key es

abbrev pub new_delivery : ℕ → ℕ → String → NotificationDelivery
new_delivery event_id at subscription_id = record {
  event_id = event_id;
  subscription_id = subscription_id;
  status = pending;
  attempt_count = 0;
  next_attempt_at = at;
  last_status_code = none;
  delivered_at = none;
  claimed_by = none;
  claim_expires_at = none;
  fencing_token = 0;
}

abbrev pub is_active : PushSubscription → Bool
is_active s = is_none s.disabled_at

unfoldable pub count_active : Table String PushSubscription → ℕ
count_active [] = 0
count_active ((id, s) ∷ ss) = (if is_active s then 1 else 0) + count_active ss

-- The deliveries of an event, behind the ids from the first one given.
unfoldable pub fan_out : ℕ → ℕ → ℕ → Table String PushSubscription → Table ℕ NotificationDelivery
fan_out next event_id at [] = []
fan_out next event_id at ((id, s) ∷ ss) =
    let rest = fan_out (if is_active s then suc next else next) event_id at ss in
    if is_active s then (next, new_delivery event_id at id) ∷ rest else rest

abbrev bad_target_path : String → Bool
bad_target_path path =
    is_empty path
    || not (starts_with path "/")
    || starts_with path "//"
    || is_some (find? path "://")
    || longer_than path 1024

unfoldable pub add_event : EventFields → Outbox → NotificationEvent × Outbox
unfolding fan_out count_active
add_event f o =
    let event : NotificationEvent = record { id = o.next_event_id; fields = f } in
    (
      event,
      record {
        events = o.events ++ event ∷ [];
        next_event_id = suc o.next_event_id;
        subscriptions = o.subscriptions;
        deliveries =
            o.deliveries ++ fan_out o.next_delivery_id event.id f.created_at o.subscriptions;
        next_delivery_id = o.next_delivery_id + count_active o.subscriptions;
      },
    )

existing_or_new : EventFields → Option NotificationEvent → Exec Outbox Failure NotificationEvent
existing_or_new f (some existing) o = (ok existing, o)
existing_or_new f none o = let (event, o') = add_event f o in (ok event, o')

-- The three guards, in order: the message of the `ValueError` that is raised.
unfoldable pub event_problem : EventFields → Option String
event_problem f =
    if is_empty f.event_key || longer_than f.event_key 256
    then some "notification event identity is invalid"
    else if is_empty f.title || longer_than f.title 128 || is_empty f.body || longer_than f.body 512
    then some "notification copy is invalid"
    else if bad_target_path f.target_path
    then some "notification target path is invalid"
    else none

checked_insert : Option String → EventFields → Exec Outbox Failure NotificationEvent
unfolding existing_or_new
checked_insert (some message) f o = (err (value_error message), o)
checked_insert none f o = existing_or_new f (find_event f.event_key o.events) o

unfoldable pub insert_notification_event : EventFields → Exec Outbox Failure NotificationEvent
unfolding checked_insert
insert_notification_event f = checked_insert (event_problem f) f
