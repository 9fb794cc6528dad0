-- ===== src/Notifications/Tests.antt =====
-- `insert_notification_event` of src/ace_service/repository.py on concrete tables.
use audio_ventura.Base.{ℕ, String, Option, ◌≡◌, refl, none, some, [], ◌∷◌, ok, arith}
use audio_ventura.Notifications.{
  EventFields, capacity_released, Outbox, find_event, event_problem, add_event, fan_out,
  count_active, new_delivery, PushSubscription, insert_notification_event,
}
use audio_ventura.Notifications.Laws.{
  insert_notification_event_twice, keyed, KeysAreUnique, insert_notification_event-KeysAreUnique,
  owed, live, insert_notification_event-deliveries,
}

abbrev pub released : EventFields
released = record {
  event_key = "released:salad:1";
  kind = capacity_released;
  title = "GPU released";
  body = "The warm worker has been released.";
  target_path = "/";
  job_id = none;
  provider = none;
  capacity_key = some "salad";
  created_at = 7;
}

abbrev pub subscription : String → Option ℕ → PushSubscription
subscription endpoint disabled_at = record {
  endpoint = endpoint;
  endpoint_origin = "https://push";
  p256dh = "key";
  auth = "auth";
  created_at = 1;
  updated_at = 1;
  last_success_at = none;
  disabled_at = disabled_at;
}

abbrev pub two_subscribers : Outbox
two_subscribers = record {
  events = [];
  next_event_id = 1;
  subscriptions =
      ("s1", subscription "https://push/1" none)
      ∷ ("s2", subscription "https://push/2" (some 3))
      ∷ [];
  deliveries = [];
  next_delivery_id = 1;
}

released_fine : event_problem released ≡ none
unfolding event_problem
released_fine = refl

inserted : insert_notification_event released two_subscribers ≡ (
  ok (record { id = 1; fields = released }),
  record {
    events = record { id = 1; fields = released } ∷ [];
    next_event_id = 2;
    subscriptions = two_subscribers.subscriptions;
    deliveries = (1, new_delivery 1 7 "s1") ∷ [];
    next_delivery_id = 2;
  },
)
unfolding insert_notification_event event_problem find_event add_event fan_out count_active
inserted = refl

insert_notification_event_twice_example :
    insert_notification_event released (insert_notification_event released two_subscribers).1
    ≡ insert_notification_event released two_subscribers
insert_notification_event_twice_example = insert_notification_event_twice released two_subscribers

two_subscribers-KeysAreUnique : KeysAreUnique two_subscribers
unfolding keyed
two_subscribers-KeysAreUnique k = omega arith

insert_notification_event-KeysAreUnique_example :
    KeysAreUnique (insert_notification_event released two_subscribers).1
insert_notification_event-KeysAreUnique_example =
    insert_notification_event-KeysAreUnique released two_subscribers two_subscribers-KeysAreUnique

insert_notification_event-deliveries_example :
    owed "s1" (insert_notification_event released two_subscribers).1.deliveries ≡ 1
unfolding live find_event owed
insert_notification_event-deliveries_example =
    insert_notification_event-deliveries "s1" released two_subscribers released_fine
