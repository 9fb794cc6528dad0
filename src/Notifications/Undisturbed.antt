-- ===== src/Notifications/Undisturbed.antt =====
-- One dispatcher of src/ace_service/notifications.py among others: between its sessions the others may
-- publish, subscribe, claim, prepare and settle in any order.
use audio_ventura.Base.{
  ℕ, ◌≤◌, ◌≡◌, inl, inr, refl, sym, ◌∙◌, Bool, true, false, not, ◌&&◌, Option, none, some, List, [],
  ◌∷◌, ◌++◌, String, ◌==◌, nat_eq, string_eq, option_eq, leb, Result, Table, lookup, arith,
  Bool-cases,
}
use audio_ventura.Errors.{Failure}
use audio_ventura.Notifications.{
  EventFields, NotificationDelivery, Outbox, insert_notification_event,
}
use audio_ventura.Notifications.Subscriptions.{
  Url, create_or_replace_subscription, disable_subscription,
}
use audio_ventura.Notifications.Dispatch.{
  abandoned_row, settled_row, is_success, is_gone, is_transient, settle, prepare,
}
use audio_ventura.Notifications.Claims.{is_pending, claim_row, claim_due, owns, max_attempts}

pub data OutboxCall : Type 0 where
  publish : EventFields → OutboxCall
  subscribe : String → String → String → List String → String → ℕ → OutboxCall
  disable : String → ℕ → OutboxCall
  claim : String → ℕ → OutboxCall
  ready : String → ℕ → ℕ → OutboxCall
  answer : String → ℕ → ℕ → ℕ → Option ℕ → ℕ → OutboxCall

-- No call is made in this dispatcher's name.
abbrev pub is_by_other : String → OutboxCall → Bool
is_by_other owner (claim other now) = not (other == owner)
is_by_other owner (ready other id token) = not (other == owner)
is_by_other owner (answer other id token attempt code now) = not (other == owner)
is_by_other owner _ = true

unfoldable pub are_by_others : String → List OutboxCall → Bool
are_by_others owner [] = true
are_by_others owner (c ∷ cs) = is_by_other owner c && are_by_others owner cs

module _ (payload_size : EventFields → ℕ) (urlsplit : String → Result Failure Url)
    (lower : String → String) (decoded_length : String → Option ℕ) where
  unfoldable pub run_call : OutboxCall → Outbox → Outbox
  run_call (publish f) o = (insert_notification_event f o).1
  run_call (subscribe endpoint p256dh auth allowed id now) o =
      (create_or_replace_subscription urlsplit lower decoded_length endpoint p256dh auth allowed id
        now o).1
  run_call (disable id now) o = (disable_subscription id now o).1
  run_call (claim owner now) o = (claim_due owner now o).1
  run_call (ready owner id token) o = (prepare payload_size owner id token o).1
  run_call (answer owner id token attempt code now) o = settle owner id token attempt code now o

  unfoldable pub run_calls : List OutboxCall → Outbox → Outbox
  run_calls [] o = o
  run_calls (c ∷ cs) o = run_calls cs (run_call c o)

pub first_holds : (a b : Bool) → (a && b) ≡ true → a ≡ true
first_holds a b h = ground arith

pub second_holds : (a b : Bool) → (a && b) ≡ true → b ≡ true
second_holds a b h = ground arith

pub not-true : {a : Bool} → not a ≡ true → a ≡ false
not-true h = ground arith

pub lookup_in_longer :
    (k : ℕ) (t u : Table ℕ NotificationDelivery) {d : NotificationDelivery}
    → lookup k t ≡ some d
    → lookup k (t ++ u) ≡ some d
unfolding lookup
lookup_in_longer k [] u h = cc
lookup_in_longer k ((j, x) ∷ t) u h = elim (Bool-cases (j == k)) [
  | inl b ↦ rw b (rw b at h)
  | inr b ↦ rw b (lookup_in_longer k t u (rw b at h))
]

owns-claimed_by :
    (owner : String) (t : ℕ) (d : NotificationDelivery)
    → owns owner t d ≡ true
    → d.claimed_by ≡ some owner
owns-claimed_by owner t d h =
    (option_eq.same_iff d.claimed_by (some owner)).0
      (first_holds (d.claimed_by == some owner) (d.fencing_token == t) h)

some-injective : {a b : String} → some a ≡ some b → a ≡ b
some-injective h = cc

two_owners :
    (other owner : String) (s t : ℕ) (d : NotificationDelivery)
    → owns other s d ≡ true
    → owns owner t d ≡ true
    → (other == owner) ≡ true
two_owners other owner s t d h k =
    (string_eq.same_iff other owner).1
      (some-injective (sym (owns-claimed_by other s d h) ∙ owns-claimed_by owner t d k))

pub one_row :
    {o : Option NotificationDelivery} {d x : NotificationDelivery} → o ≡ some d → o ≡ some x → d ≡ x
one_row h k = cc

-- Every answer keeps the token and ends the claim.
pub settled_row-claim :
    (code : Option ℕ) (attempt now : ℕ) (d : NotificationDelivery)
    → ((settled_row code attempt now d).claimed_by ≡ none)
      × ((settled_row code attempt now d).fencing_token ≡ d.fencing_token)
unfolding settled_row
settled_row-claim code attempt now d = elim (Bool-cases (is_success code)) [
  | inl s ↦ rw s (refl, refl)
  | inr f ↦ elim (Bool-cases (is_gone code)) [
    | inl s ↦ rw (f, s) (refl, refl)
    | inr g ↦ elim (Bool-cases (is_transient code)) [
      | inr s ↦ rw (f, g, s) (refl, refl)
      | inl s ↦ elim (Bool-cases (leb max_attempts attempt)) [
        | inl l ↦ rw (f, g, s, l) (refl, refl)
        | inr l ↦ rw (f, g, s, l) (refl, refl)
      ]
    ]
  ]
]

-- The row of a claim: it was not claimed again, and is then as the claim left it, or it was.
module _ (owner : String) (token count : ℕ) where
  pub record IsMine (d : NotificationDelivery) : Type 0 where
    pub not_before : token ≤ d.fencing_token
    pub as_claimed :
        owns owner token d ≡ true → (is_pending d.status ≡ true) × (d.attempt_count ≡ count)

  pub IsMine-claim :
      (other : String) (now : ℕ) (d : NotificationDelivery)
      → IsMine d
      → IsMine (claim_row other now d)
  IsMine-claim other now d m = record {
    not_before = omega (arith, m.not_before);
    as_claimed = λ h. absurd (ground (arith, h, m.not_before));
  }

  -- A write for another owner that holds the row and keeps its token.
  pub IsMine-given_up :
      (other : String) (t : ℕ) (d : NotificationDelivery)
      → (other == owner) ≡ false
      → owns other t d ≡ true
      → IsMine d
      → IsMine (abandoned_row d)
  IsMine-given_up other t d n h m = record {
    not_before = m.not_before;
    as_claimed = λ k. cc (two_owners other owner t token d h k);
  }

  -- A write that ends the claim.
  pub IsMine-released :
      (d d' : NotificationDelivery)
      → d'.claimed_by ≡ none
      → d'.fencing_token ≡ d.fencing_token
      → IsMine d
      → IsMine d'
  IsMine-released d d' e f m = record {
    not_before = omega (arith, m.not_before, f);
    as_claimed = λ k. cc (rw e at k);
  }
