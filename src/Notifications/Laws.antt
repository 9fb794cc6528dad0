-- ===== src/Notifications/Laws.antt =====
-- `insert_notification_event` of src/ace_service/repository.py: keys of events, and deliveries.
use Prim.Native.Nat.{ℕ, ◌+◌, ◌≤◌}
use text.Mathlib.TextEquality.{eq_iff}
use audio_ventura.Base.{
  ◌≡◌, refl, inl, inr, ◌&&◌, none, some, is_none, List, [], ◌∷◌, ◌++◌, String, ◌==◌, string_eq,
  ==_refl, nat_eq, if◌then◌else◌, Result, ok, err, arith, suc, Table, Option-cases,
}
use audio_ventura.Errors.{Failure}
use audio_ventura.Notifications.{
  NotificationEvent, EventFields, PushSubscription, NotificationDelivery, Outbox, find_event,
  fan_out, event_problem, add_event, insert_notification_event,
}

find_event-append :
    (k : String) (es : List NotificationEvent) (e : NotificationEvent)
    → find_event k es ≡ none
    → e.fields.event_key ≡ k
    → find_event k (es ++ e ∷ []) ≡ some e
unfolding find_event
find_event-append k [] e h p = rw p (rw (==_refl k) refl)
find_event-append k (x ∷ es) e h p = ground (arith, find_event-append k es e)

-- What a call may do: refuse the copy, return the event that is there, or add one.
pub data Inserted (f : EventFields) (o : Outbox)
    : Result Failure NotificationEvent × Outbox → Type 0 where
  refused : (x : Failure) → Inserted f o (err x, o)
  found :
      (e : NotificationEvent)
      → event_problem f ≡ none
      → find_event f.event_key o.events ≡ some e
      → Inserted f o (ok e, o)
  added :
      event_problem f ≡ none
      → find_event f.event_key o.events ≡ none
      → Inserted f o (ok (add_event f o).0, (add_event f o).1)

pub insert_notification_event-Inserted :
    (f : EventFields) (o : Outbox) → Inserted f o (insert_notification_event f o)
unfolding insert_notification_event
insert_notification_event-Inserted f o = elim (Option-cases (event_problem f)) [
  | inl fine ↦ rw fine (elim (Option-cases (find_event f.event_key o.events)) [
    | inl new ↦ rw new (added fine new)
    | inr (e, old) ↦ rw old (found e fine old)
  ])
  | inr (m, bad) ↦ rw bad (refused _)
]

add_event-find :
    (f : EventFields) (o : Outbox)
    → find_event f.event_key o.events ≡ none
    → find_event f.event_key (add_event f o).1.events ≡ some (add_event f o).0
unfolding add_event
add_event-find f o h = find_event-append f.event_key o.events _ h refl

again :
    (f : EventFields) (o : Outbox) {e : NotificationEvent}
    → event_problem f ≡ none
    → find_event f.event_key o.events ≡ some e
    → insert_notification_event f o ≡ (ok e, o)
unfolding insert_notification_event
again f o fine old = rw (fine, old) refl

twice :
    (f : EventFields) (o : Outbox) {r : Result Failure NotificationEvent × Outbox}
    → Inserted f o r
    → insert_notification_event f o ≡ r
    → insert_notification_event f r.1 ≡ r
twice f o (refused x) p = p
twice f o (found e fine old) p = p
twice f o (added fine new) p = again f (add_event f o).1 fine (add_event-find f o new)

-- A second call with the same fields returns what the first returned, its error included, and
-- changes no table.
pub insert_notification_event_twice :
    (f : EventFields) (o : Outbox)
    → insert_notification_event f (insert_notification_event f o).1 ≡ insert_notification_event f o
insert_notification_event_twice f o = twice f o (insert_notification_event-Inserted f o) refl

-- How many events hold a key.
unfoldable pub keyed : String → List NotificationEvent → ℕ
keyed k [] = 0
keyed k (e ∷ es) = (if e.fields.event_key == k then 1 else 0) + keyed k es

abbrev pub KeysAreUnique : Outbox → Type 0
KeysAreUnique o = (k : String) → keyed k o.events ≤ 1

keyed-append :
    (k : String) (es : List NotificationEvent) (e : NotificationEvent)
    → keyed k (es ++ e ∷ []) ≡ keyed k es + (if e.fields.event_key == k then 1 else 0)
unfolding keyed
keyed-append k [] e = omega arith
keyed-append k (x ∷ es) e = omega (arith, keyed-append k es e)

keyed-none : (k : String) (es : List NotificationEvent) → find_event k es ≡ none → keyed k es ≡ 0
unfolding find_event keyed
keyed-none k [] h = refl
keyed-none k (x ∷ es) h = ground (arith, keyed-none k es)

unique_added :
    (k : String) (f : EventFields) (o : Outbox)
    → find_event f.event_key o.events ≡ none
    → keyed k o.events ≤ 1
    → keyed k (add_event f o).1.events ≤ 1
unfolding add_event
unique_added k f o new h = ground (
  arith,
  keyed-append k o.events (add_event f o).0,
  keyed-none f.event_key o.events,
  eq_iff f.event_key k,
)

unique_after :
    (f : EventFields) (o : Outbox) {r : Result Failure NotificationEvent × Outbox}
    → Inserted f o r
    → KeysAreUnique o
    → KeysAreUnique r.1
unfolding add_event
unique_after f o (refused x) h = h
unique_after f o (found e fine old) h = h
unique_after f o (added fine new) h = λ k. unique_added k f o new (h k)

-- No call gives two events one key.
pub insert_notification_event-KeysAreUnique :
    (f : EventFields) (o : Outbox)
    → KeysAreUnique o
    → KeysAreUnique (insert_notification_event f o).1
insert_notification_event-KeysAreUnique f o h =
    unique_after f o (insert_notification_event-Inserted f o) h

-- How many deliveries a subscription has, and how many times it is active.
unfoldable pub owed : String → Table ℕ NotificationDelivery → ℕ
owed s [] = 0
owed s ((id, d) ∷ ds) = (if d.subscription_id == s then 1 else 0) + owed s ds

unfoldable pub live : String → Table String PushSubscription → ℕ
live s [] = 0
live s ((id, x) ∷ xs) = (if id == s && is_none x.disabled_at then 1 else 0) + live s xs

owed-append :
    (s : String) (ds es : Table ℕ NotificationDelivery) → owed s (ds ++ es) ≡ owed s ds + owed s es
unfolding owed
owed-append s [] es = omega arith
owed-append s ((id, d) ∷ ds) es = omega (arith, owed-append s ds es)

owed-fan_out :
    (s : String) (next event at : ℕ) (xs : Table String PushSubscription)
    → owed s (fan_out next event at xs) ≡ live s xs
unfolding owed live fan_out
owed-fan_out s next event at [] = refl
owed-fan_out s next event at ((id, x) ∷ xs) = elim (Option-cases x.disabled_at) [
  | inl e ↦ rw e (ground (arith, owed-fan_out s (suc next) event at xs))
  | inr (t, e) ↦ rw e (ground (arith, owed-fan_out s next event at xs))
]

owed-add_event :
    (s : String) (f : EventFields) (o : Outbox)
    → owed s (add_event f o).1.deliveries ≡ owed s o.deliveries + live s o.subscriptions
unfolding add_event
owed-add_event s f o = omega (
  arith,
  owed-append s o.deliveries
      (fan_out o.next_delivery_id o.next_event_id f.created_at o.subscriptions),
  owed-fan_out s o.next_delivery_id o.next_event_id f.created_at o.subscriptions,
)

-- An event that is accepted under a key that no event holds gives each subscription one more
-- delivery if it is active and none if it is disabled; under a key that is held, none is added.
pub insert_notification_event-deliveries :
    (s : String) (f : EventFields) (o : Outbox)
    → event_problem f ≡ none
    → owed s (insert_notification_event f o).1.deliveries
      ≡ owed s o.deliveries
        + (if is_none (find_event f.event_key o.events) then live s o.subscriptions else 0)
unfolding insert_notification_event
insert_notification_event-deliveries s f o fine =
    elim (Option-cases (find_event f.event_key o.events)) [
      | inl new ↦ rw (fine, new) (owed-add_event s f o)
      | inr (e, old) ↦ rw (fine, old) (omega arith)
    ]
