-- ===== src/Notifications/Subscriptions.antt =====
-- The push subscriptions of src/ace_service/notifications.py. `urlsplit` raises or gives the parts of an
-- address (it also raises where the port of its result does), `lower` is the method of `str`, and
-- `decoded_length` is the number of bytes that the padded text decodes to in `base64`, nothing where it
-- raises.
use Prim.Native.Char.{code}
use audio_ventura.Base.{
  ℕ, Bool, true, false, not, ◌&&◌, ◌||◌, Option, none, some, List, [], ◌∷◌, String, ◌+++◌, ◌==◌,
  nat_eq, string_eq, option_eq, is_some, is_none, is_empty, longer_than, leb, if◌then◌else◌, Result,
  ok, err, Exec, gets, ◌>>=◌, Table, lookup, update, insert, find_row,
}
use audio_ventura.Errors.{Failure, value_error, integrity_error}
use audio_ventura.Notifications.{PushSubscription, Outbox}

-- What `urlsplit` gives.
pub record Url : Type 0 where
  pub scheme : String
  pub netloc : String
  pub hostname : Option String
  pub port : Option ℕ
  pub username : Option String
  pub password : Option String
  pub path : String
  pub query : String
  pub fragment : String

abbrev has_text : Option String → Bool
has_text none = false
has_text (some s) = not (is_empty s)

abbrev is_https_port : Option ℕ → Bool
is_https_port none = true
is_https_port (some p) = p == 443

unfoldable pub is_plain_endpoint : Url → Bool
is_plain_endpoint u =
    u.scheme == "https"
    && has_text u.hostname
    && is_https_port u.port
    && not (has_text u.username)
    && not (has_text u.password)
    && is_empty u.query
    && is_empty u.fragment
    && not (is_empty u.path)
    && not (u.path == "/")

is_key_code : ℕ → Bool
is_key_code k =
    (leb 65 k && leb k 90)
    || (leb 97 k && leb k 122)
    || (leb 48 k && leb k 57)
    || k == 45
    || k == 95

unfoldable pub is_key_text : String → Bool
unfolding is_key_code
is_key_text String.[] = true
is_key_text (String.◌∷◌ c s) = is_key_code (code c) && is_key_text s

abbrev pub is_in : String → List String → Bool
is_in x [] = false
is_in x (y ∷ ys) = x == y || is_in x ys

abbrev pub write_subscriptions :
    (Table String PushSubscription → Table String PushSubscription) → Outbox → Outbox
write_subscriptions f o = record o { subscriptions = f o.subscriptions }

abbrev pub has_endpoint : String → PushSubscription → Bool
has_endpoint endpoint s = s.endpoint == endpoint

abbrev pub new_subscription : String → String → String → String → ℕ → PushSubscription
new_subscription endpoint origin p256dh auth now = record {
  endpoint = endpoint;
  endpoint_origin = origin;
  p256dh = p256dh;
  auth = auth;
  created_at = now;
  updated_at = now;
  last_success_at = none;
  disabled_at = none;
}

abbrev pub replaced : String → String → String → ℕ → PushSubscription → PushSubscription
replaced origin p256dh auth now s = record s {
  endpoint_origin = origin;
  p256dh = p256dh;
  auth = auth;
  updated_at = now;
  disabled_at = none;
}

-- The id of the subscription that is returned.
unfoldable pub record_subscription :
    String → PushSubscription → Option (String × PushSubscription) → Exec Outbox Failure String
record_subscription new_id s (some (id, old)) o = (
  ok id,
  write_subscriptions (update id (replaced s.endpoint_origin s.p256dh s.auth s.updated_at)) o,
)
record_subscription new_id s none o =
    if is_some (lookup new_id o.subscriptions)
    then (err integrity_error, o)
    else (ok new_id, write_subscriptions (insert new_id s) o)

abbrev pub disabled_row : ℕ → PushSubscription → PushSubscription
disabled_row now s = record s { disabled_at = some now; updated_at = now }

unfoldable pub disable_subscription : String → ℕ → Outbox → Bool × Outbox
disable_subscription id now o =
    if is_none (lookup id o.subscriptions)
    then (false, o)
    else (true, write_subscriptions (update id (disabled_row now)) o)

module _ (urlsplit : String → Result Failure Url) (lower : String → String)
    (decoded_length : String → Option ℕ) where
  abbrev origin_of : Result Failure Url → Result Failure String
  origin_of (err e) = err e
  origin_of (ok u) =
      if is_plain_endpoint u
      then ok ("https://" +++ lower u.netloc)
      else err (value_error "push endpoint is invalid")

  abbrev endpoint_origin_of : String → Result Failure String
  endpoint_origin_of endpoint =
      if longer_than endpoint 2048
      then err (value_error "push endpoint is invalid")
      else origin_of (urlsplit endpoint)

  abbrev pub is_key : ℕ → String → Bool
  is_key length value =
      not (longer_than value 256)
      && not (is_empty value)
      && is_key_text value
      && decoded_length value == some length

  abbrev check_keys : String → String → List String → Result Failure String → Result Failure String
  check_keys p256dh auth allowed (err e) = err e
  check_keys p256dh auth allowed (ok origin) =
      if not (is_in origin allowed)
      then err (value_error "push endpoint origin is not allowed")
      else if not (is_key 65 p256dh)
      then err (value_error "push p256dh key is invalid")
      else if not (is_key 16 auth)
      then err (value_error "push auth key is invalid")
      else ok origin

  -- The origin, where the address and both keys pass.
  unfoldable pub validate_subscription :
      String → String → String → List String → Result Failure String
  unfolding is_key_text is_plain_endpoint
  validate_subscription endpoint p256dh auth allowed =
      check_keys p256dh auth allowed (endpoint_origin_of endpoint)

  unfoldable pub create_or_replace_subscription :
      String → String → String → List String → String → ℕ → Exec Outbox Failure String
  unfolding validate_subscription record_subscription
  create_or_replace_subscription endpoint p256dh auth allowed new_id now = do
    origin ← λ o. (validate_subscription endpoint p256dh auth allowed, o)
    existing ← gets (λ o. find_row (has_endpoint endpoint) o.subscriptions)
    record_subscription new_id (new_subscription endpoint origin p256dh auth now) existing
