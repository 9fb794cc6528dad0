-- ===== src/Notifications/Others.antt =====
-- The calls of other dispatchers, and of those who publish and subscribe, leave a claimed row of
-- src/ace_service/notifications.py to its claim.
use audio_ventura.Base.{
  ℕ, ◌≡◌, inl, inr, refl, ap, subst, ◌∙◌, true, false, Option, none, some, List, [], ◌∷◌, String,
  ◌==◌, nat_eq, string_eq, option_eq, is_none, is_some, Result, lookup, update, find_row,
  lookup-update, Bool-cases, Option-cases, Result-cases, ◌>>=◌,
}
use audio_ventura.Errors.{Failure}
use audio_ventura.Notifications.{
  EventFields, NotificationEvent, PushSubscription, NotificationDelivery, Outbox, add_event,
  fan_out,
}
use audio_ventura.Notifications.Subscriptions.{
  Url, create_or_replace_subscription, disable_subscription, validate_subscription,
  record_subscription, new_subscription, has_endpoint,
}
use audio_ventura.Notifications.Dispatch.{
  abandoned_row, released_row, settled_row, settle, prepare, prepare_send, event_of,
  active_subscription, is_sendable,
}
use audio_ventura.Notifications.Claims.{is_held, is_due, write, claim_row, claim_due, owns}
use audio_ventura.Notifications.Laws.{
  Inserted, refused, found, added, insert_notification_event-Inserted,
}
use audio_ventura.Notifications.Undisturbed.{
  IsMine, IsMine-claim, IsMine-given_up, IsMine-released, OutboxCall, answer, are_by_others, claim,
  disable, first_holds, is_by_other, lookup_in_longer, not-true, one_row, publish, ready, run_call,
  run_calls, second_holds, settled_row-claim, subscribe,
}

module _ (owner : String) (token count : ℕ) where
  module _ (id : ℕ) where
    pub record Holds (o : Outbox) : Type 0 where
      pub row : NotificationDelivery
      pub stored : lookup id o.deliveries ≡ some row
      pub mine : IsMine owner token count row

    Holds-same : (o o' : Outbox) → o'.deliveries ≡ o.deliveries → Holds o → Holds o'
    Holds-same o o' e h = record {
      row = h.row;
      stored = ap (lookup id) e ∙ h.stored;
      mine = h.mine;
    }

    Holds-write :
        (k : ℕ) (f : NotificationDelivery → NotificationDelivery) (o o' : Outbox)
        → ((d : NotificationDelivery)
            → lookup k o.deliveries ≡ some d
            → IsMine owner token count d
            → IsMine owner token count (f d))
        → o'.deliveries ≡ update k f o.deliveries
        → Holds o
        → Holds o'
    Holds-write k f o o' g e h = elim (Bool-cases (id == k)) [
      | inl b ↦ record {
        row = f h.row;
        stored = ap (lookup id) e ∙ lookup-update k id f o.deliveries ∙ rw (b, h.stored) refl;
        mine =
            g h.row
              (subst (λ j. lookup j o.deliveries ≡ some h.row) ((nat_eq.same_iff id k).0 b)
                h.stored)
              h.mine;
      }
      | inr b ↦ record {
        row = h.row;
        stored = ap (lookup id) e ∙ lookup-update k id f o.deliveries ∙ rw b h.stored;
        mine = h.mine;
      }
    ]

    Holds-claim :
        (other : String) (now : ℕ) (o : Outbox) → Holds o → Holds (claim_due other now o).1
    unfolding claim_due
    Holds-claim other now o h = elim (Option-cases (find_row (is_due now) o.deliveries)) [
      | inl n ↦ rw n h
      | inr ((k, d), first) ↦ elim (Bool-cases (is_held now d)) [
        | inl b ↦ rw (first, b) h
        | inr b ↦
            rw (first, b)
              (Holds-write k (claim_row other now) o (write k (claim_row other now) o)
                (λ x _ m. IsMine-claim owner token count other now x m) refl h)
      ]
    ]

    module _ (other : String) (apart : (other == owner) ≡ false) (k t : ℕ) (o : Outbox)
        (d : NotificationDelivery) (same : lookup k o.deliveries ≡ some d)
        (held : owns other t d ≡ true) where
      held_by_other :
          (x : NotificationDelivery) → lookup k o.deliveries ≡ some x → owns other t x ≡ true
      held_by_other x e = subst (λ y. owns other t y ≡ true) (one_row same e) held

      Holds-prepare_send :
          (payload_size : EventFields → ℕ) (event : Option NotificationEvent)
          (subscription : Option PushSubscription)
          → Holds o
          → Holds (prepare_send payload_size k d event subscription o).1
      Holds-prepare_send payload_size none subscription h =
          Holds-write k abandoned_row o (write k abandoned_row o)
            (λ x e m. IsMine-given_up owner token count other t x apart (held_by_other x e) m) refl
            h
      Holds-prepare_send payload_size (some event) none h =
          Holds-write k abandoned_row o (write k abandoned_row o)
            (λ x e m. IsMine-given_up owner token count other t x apart (held_by_other x e) m) refl
            h
      Holds-prepare_send payload_size (some event) (some subscription) h =
          elim (Bool-cases (is_sendable payload_size event.fields)) [
            | inl b ↦ rw b h
            | inr b ↦ rw b (
                Holds-write k released_row o (write k released_row o)
                  (λ x e m. IsMine-released owner token count x (released_row x) refl refl m) refl
                  h)
          ]

    Holds-prepare :
        (payload_size : EventFields → ℕ) (other : String) (k t : ℕ) (o : Outbox)
        → (other == owner) ≡ false
        → Holds o
        → Holds (prepare payload_size other k t o).1
    unfolding prepare
    Holds-prepare payload_size other k t o apart h = elim (Option-cases (lookup k o.deliveries)) [
      | inl n ↦ rw n h
      | inr (d, same) ↦ elim (Bool-cases (owns other t d)) [
        | inr b ↦ rw (same, b) h
        | inl b ↦
            rw (same, b)
              (Holds-prepare_send other apart k t o d same b payload_size
                (event_of d.event_id o.events)
                (active_subscription (lookup d.subscription_id o.subscriptions)) h)
      ]
    ]

    Holds-settle :
        (other : String) (k t attempt : ℕ) (code : Option ℕ) (now : ℕ) (o : Outbox)
        → Holds o
        → Holds (settle other k t attempt code now o)
    unfolding settle
    Holds-settle other k t attempt code now o h = elim (Option-cases (lookup k o.deliveries)) [
      | inl n ↦ rw n h
      | inr (d, same) ↦ elim (Bool-cases (owns other t d)) [
        | inr b ↦ rw (same, b) h
        | inl b ↦
            rw (same, b)
              (Holds-write k (settled_row code attempt now) o _
                (λ x e m.
                  IsMine-released owner token count x (settled_row code attempt now x)
                    (settled_row-claim code attempt now x).0
                    (settled_row-claim code attempt now x).1 m)
                refl h)
      ]
    ]

    Holds-Inserted :
        (f : EventFields) (o : Outbox) {r : Result Failure NotificationEvent × Outbox}
        → Inserted f o r
        → Holds o
        → Holds r.1
    unfolding add_event
    Holds-Inserted f o (refused x) h = h
    Holds-Inserted f o (found e fine old) h = h
    Holds-Inserted f o (added fine new) h = record {
      row = h.row;
      stored =
          lookup_in_longer id o.deliveries
            (fan_out o.next_delivery_id o.next_event_id f.created_at o.subscriptions) h.stored;
      mine = h.mine;
    }

    Holds-disable :
        (s : String) (now : ℕ) (o : Outbox) → Holds o → Holds (disable_subscription s now o).1
    unfolding disable_subscription
    Holds-disable s now o h = elim (Bool-cases (is_none (lookup s o.subscriptions))) [
      | inl b ↦ rw b h
      | inr b ↦ rw b (Holds-same o _ refl h)
    ]

    Holds-record :
        (new_id : String) (s : PushSubscription) (old : Option (String × PushSubscription))
        (o : Outbox)
        → Holds o
        → Holds (record_subscription new_id s old o).1
    unfolding record_subscription
    Holds-record new_id s (some (k, x)) o h = Holds-same o _ refl h
    Holds-record new_id s none o h = elim (Bool-cases (is_some (lookup new_id o.subscriptions))) [
      | inl b ↦ rw b h
      | inr b ↦ rw b (Holds-same o _ refl h)
    ]

    module _ (payload_size : EventFields → ℕ) (urlsplit : String → Result Failure Url)
        (lower : String → String) (decoded_length : String → Option ℕ) where
      Holds-subscribe :
          (endpoint p256dh auth : String) (allowed : List String) (new_id : String) (now : ℕ)
          (o : Outbox)
          → Holds o
          → Holds
              (create_or_replace_subscription urlsplit lower decoded_length endpoint p256dh auth
                allowed new_id now o).1
      unfolding create_or_replace_subscription
      Holds-subscribe endpoint p256dh auth allowed new_id now o h =
          elim (Result-cases
            (validate_subscription urlsplit lower decoded_length endpoint p256dh auth allowed)) [
              | inl (origin, e) ↦
                  rw (e, ◌>>=◌)
                    (Holds-record new_id (new_subscription endpoint origin p256dh auth now)
                      (find_row (has_endpoint endpoint) o.subscriptions) o h)
              | inr (x, e) ↦ rw (e, ◌>>=◌) h
            ]

      Holds-call :
          (c : OutboxCall) (o : Outbox)
          → is_by_other owner c ≡ true
          → Holds o
          → Holds (run_call payload_size urlsplit lower decoded_length c o)
      unfolding run_call
      Holds-call (publish f) o b h = Holds-Inserted f o (insert_notification_event-Inserted f o) h
      Holds-call (subscribe endpoint p256dh auth allowed k now) o b h =
          Holds-subscribe endpoint p256dh auth allowed k now o h
      Holds-call (disable k now) o b h = Holds-disable k now o h
      Holds-call (claim other now) o b h = Holds-claim other now o h
      Holds-call (ready other k t) o b h = Holds-prepare payload_size other k t o (not-true b) h
      Holds-call (answer other k t attempt code now) o b h =
          Holds-settle other k t attempt code now o h

      pub Holds-calls :
          (cs : List OutboxCall) (o : Outbox)
          → are_by_others owner cs ≡ true
          → Holds o
          → Holds (run_calls payload_size urlsplit lower decoded_length cs o)
      unfolding run_calls are_by_others
      Holds-calls [] o b h = h
      Holds-calls (c ∷ cs) o b h =
          Holds-calls cs (run_call payload_size urlsplit lower decoded_length c o)
            (second_holds (is_by_other owner c) (are_by_others owner cs) b)
            (Holds-call c o (first_holds (is_by_other owner c) (are_by_others owner cs) b) h)
