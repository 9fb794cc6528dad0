-- ===== src/Notifications/RoundTests.antt =====
-- Rounds of src/ace_service/notifications.py on a concrete outbox.
use audio_ventura.Base.{
  ℕ, String, List, [], ◌∷◌, ◌+◌, ◌≤◌, ◌≡◌, refl, none, some, Result, err, arith, unique, lookup,
  update, find_row, nat_eq, string_eq, AllRows,
}
use audio_ventura.Errors.{Failure, value_error}
use audio_ventura.Notifications.{EventFields, delivered, Outbox, new_delivery}
use audio_ventura.Notifications.Subscriptions.{Url}
use audio_ventura.Notifications.Dispatch.{
  settle, settled_row, retry_delay, Send, prepare, event_of, dispatch_once,
}
use audio_ventura.Notifications.Claims.{claim_due}
use audio_ventura.Notifications.Rounds.{alone}
use audio_ventura.Notifications.Draining.{
  weight, IsSettled, run_rounds, retries_end, spaced_rounds, outbox_drains,
}
use audio_ventura.Notifications.Undisturbed.{
  OutboxCall, claim, ready, answer, run_calls, are_by_others,
}
use audio_ventura.Notifications.Answers.{WritesOnce, answer-WritesOnce}
use audio_ventura.Notifications.Tests.{released, subscription}

abbrev size : EventFields → ℕ
size f = 200

abbrev one_pending : Outbox
one_pending = record {
  events = record { id = 1; fields = released } ∷ [];
  next_event_id = 2;
  subscriptions = ("s1", subscription "https://push/1" none) ∷ [];
  deliveries = (1, new_delivery 1 7 "s1") ∷ [];
  next_delivery_id = 2;
}

abbrev a_send : Send
a_send = record {
  subscription = subscription "https://push/1" none;
  event = released;
  ttl = 600;
  attempt = 1;
}

-- The delay doubles, and stops at fifteen minutes.
delays : (retry_delay 3 ≡ 8) × (retry_delay 11 ≡ 900)
unfolding retry_delay
delays = (refl, refl)

-- A success is stored, and an endpoint that is gone is disabled.
sent_once : (dispatch_once size "a" 10 alone alone (λ s. some 201) one_pending).1.deliveries ≡ (
    (
      1,
      record (new_delivery 1 7 "s1") {
        status = delivered;
        attempt_count = 1;
        last_status_code = some 201;
        delivered_at = some 10;
        fencing_token = 1;
      },
    )
    ∷ [])
unfolding dispatch_once prepare event_of settle settled_row find_row lookup update
sent_once = refl

endpoint_gone :
    (dispatch_once size "a" 10 alone alone (λ s. some 410) one_pending).1.subscriptions
    ≡ ("s1", record (subscription "https://push/1" none) { disabled_at = some 10; updated_at = 10 })
      ∷ []
unfolding dispatch_once prepare event_of settle settled_row find_row lookup update
endpoint_gone = refl

retries_end_example :
    (run_rounds size "a" ((10, λ s. none) ∷ (3000000, λ s. some 429) ∷ []) one_pending).0
      + weight (run_rounds size "a" ((10, λ s. none) ∷ (3000000, λ s. some 429) ∷ []) one_pending).1
    ≤ weight one_pending
unfolding unique lookup
retries_end_example =
    retries_end size "a" ((10, λ s. none) ∷ (3000000, λ s. some 429) ∷ []) one_pending refl

outbox_drains_example :
    AllRows IsSettled (spaced_rounds size "a" (λ now s. some 503) 12 10 one_pending).deliveries
unfolding unique lookup
outbox_drains_example =
    outbox_drains size "a" (λ now s. some 503) 12 10 one_pending refl
      (record { due = λ h. omega arith; unclaimed = λ h. refl }, tt) (omega arith)

-- While "a" sends, its claim runs out, and "b" delivers.
abbrev meanwhile : List OutboxCall
meanwhile = claim "b" 40000000 ∷ ready "b" 1 2 ∷ answer "b" 1 2 1 (some 201) 41000000 ∷ []

abbrev no_url : String → Result Failure Url
no_url s = err (value_error "no address")

abbrev after_claim : Outbox
after_claim = (claim_due "a" 10 one_pending).1

abbrev after_others : Outbox
after_others = run_calls size no_url (λ s. s) (λ s. none) meanwhile after_claim

answer-WritesOnce_example :
    WritesOnce "a" 1 1 1 after_others (settle "a" 1 1 1 (some 500) 50000000 after_others)
unfolding claim_due prepare event_of find_row lookup update unique are_by_others run_calls
answer-WritesOnce_example =
    answer-WritesOnce size no_url (λ s. s) (λ s. none) "a" 10 1 1 [] meanwhile one_pending
      after_claim after_claim a_send (some 500) 50000000 refl refl refl refl refl
