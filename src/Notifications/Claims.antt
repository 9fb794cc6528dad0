-- ===== src/Notifications/Claims.antt =====
-- Which delivery a round of `NotificationDispatcher` in src/ace_service/notifications.py takes, the
-- claim that it writes, and the constants of that file. The deliveries stand in the order of their ids,
-- which the database gives out.
use audio_ventura.Base.{
  ℕ, ◌+◌, ◌*◌, Bool, true, false, not, ◌&&◌, Option, none, some, String, ◌==◌, nat_eq, string_eq,
  option_eq, is_none, leb, if◌then◌else◌, Table, update, find_row,
}
use audio_ventura.Notifications.{NotificationDelivery, DeliveryStatus, pending, Outbox}

abbrev pub max_payload_bytes : ℕ
max_payload_bytes = 4096

abbrev pub max_attempts : ℕ
max_attempts = 12

abbrev pub max_retry_seconds : ℕ
max_retry_seconds = 900

-- A second, in the unit of time.
abbrev pub second : ℕ
second = 1000000

abbrev pub is_pending : DeliveryStatus → Bool
is_pending pending = true
is_pending _ = false

abbrev pub at_or_before : ℕ → Option ℕ → Bool
at_or_before now none = true
at_or_before now (some at) = leb at now

-- The claim of a worker that has a name and has not expired.
abbrev pub is_held : ℕ → NotificationDelivery → Bool
is_held now d =
    not (is_none d.claimed_by)
    && not (d.claimed_by == some "")
    && not (at_or_before now d.claim_expires_at)

abbrev pub is_due : ℕ → NotificationDelivery → Bool
is_due now d = is_pending d.status && leb d.next_attempt_at now

abbrev pub set_deliveries : Table ℕ NotificationDelivery → Outbox → Outbox
set_deliveries ds o = record o { deliveries = ds }

-- A write of one delivery.
abbrev pub write : ℕ → (NotificationDelivery → NotificationDelivery) → Outbox → Outbox
write id f o = set_deliveries (update id f o.deliveries) o

abbrev pub claim_row : String → ℕ → NotificationDelivery → NotificationDelivery
claim_row owner now d = record d {
  claimed_by = some owner;
  claim_expires_at = some (now + 30 * second);
  fencing_token = d.fencing_token + 1;
}

-- The first session: the id of the delivery that was claimed, and the token of the claim.
abbrev pub claim_found :
    String → ℕ → Option (ℕ × NotificationDelivery) → Outbox → Option (ℕ × ℕ) × Outbox
claim_found owner now none o = (none, o)
claim_found owner now (some (id, d)) o =
    if is_held now d
    then (none, o)
    else (some (id, d.fencing_token + 1), write id (claim_row owner now) o)

unfoldable pub claim_due : String → ℕ → Outbox → Option (ℕ × ℕ) × Outbox
claim_due owner now o = claim_found owner now (find_row (is_due now) o.deliveries) o

abbrev pub owns : String → ℕ → NotificationDelivery → Bool
owns owner token d = d.claimed_by == some owner && d.fencing_token == token
