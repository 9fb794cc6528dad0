-- ===== src/Capacity/Leases.antt =====
-- The capacity leases of src/ace_service/repository.py over the rows of `CapacityLease` in
-- src/ace_service/models.py. A time is a number of microseconds, a session or epoch id a text.
use audio_ventura.Base.{
  ℕ, ◌+◌, ◌*◌, Bool, true, false, not, ◌||◌, ◌&&◌, Option, none, some, List, [], ◌∷◌, String, Eq,
  ◌==◌, nat_eq, string_eq, option_eq, leb, is_empty, longer_than, has_blank, or_else, if◌then◌else◌,
  ok, err, Exec, Table, lookup, update, insert, arith, nat_beq, ◌≡◌, ◌↔◌,
}
use audio_ventura.Errors.{Failure, value_error, key_error}
use audio_ventura.Providers.{ProviderName, provider_eq}

abbrev pub seconds : ℕ → ℕ
seconds n = n * 1000000

pub data LeaseState : Type 0 where
  cold warming retained idle releasing release_overdue : LeaseState

abbrev pub lease_state_index : LeaseState → ℕ
lease_state_index cold = 0
lease_state_index warming = 1
lease_state_index retained = 2
lease_state_index idle = 3
lease_state_index releasing = 4
lease_state_index release_overdue = 5

pub lease_state_index_iff :
    (a b : LeaseState) → (nat_beq (lease_state_index a) (lease_state_index b) ≡ true) ↔ (a ≡ b)
lease_state_index_iff a b = (λ h. ground arith, λ h. ground arith)

instance abbrev pub lease_state_eq : Eq LeaseState
lease_state_eq = record {
  same = λ a b. nat_beq (lease_state_index a) (lease_state_index b);
  same_iff = lease_state_index_iff;
}

pub record CapacityLease : Type 0 where
  pub provider : ProviderName
  pub state : LeaseState
  pub session_id : Option String
  pub idle_epoch_id : Option String
  pub last_activity_at : Option ℕ
  pub release_due_at : Option ℕ
  pub warmed_at : Option ℕ
  pub next_reminder_at : Option ℕ
  pub release_requested_at : Option ℕ
  pub released_at : Option ℕ
  pub last_reconciled_at : Option ℕ
  pub last_error_code : Option String
  pub action_owner : Option String
  pub action_lease_expires_at : Option ℕ
  pub fencing_token : ℕ
  pub updated_at : ℕ

-- The table, by `capacity_key`.
abbrev pub Leases : Type 0
Leases = Table String CapacityLease

abbrev pub cold_lease : ProviderName → ℕ → CapacityLease
cold_lease provider now = record {
  provider = provider;
  state = cold;
  session_id = none;
  idle_epoch_id = none;
  last_activity_at = none;
  release_due_at = none;
  warmed_at = none;
  next_reminder_at = none;
  release_requested_at = none;
  released_at = none;
  last_reconciled_at = none;
  last_error_code = none;
  action_owner = none;
  action_lease_expires_at = none;
  fencing_token = 0;
  updated_at = now;
}

abbrev bad_capacity_key : String → Bool
bad_capacity_key key = is_empty key || longer_than key 256 || has_blank key

ensure_row : String → ProviderName → ℕ → Option CapacityLease → Exec Leases Failure CapacityLease
ensure_row key provider now none t =
    (ok (cold_lease provider now), insert key (cold_lease provider now) t)
ensure_row key provider now (some lease) t =
    if not (lease.provider == provider)
    then (err (value_error "capacity key is already owned by another provider"), t)
    else (ok lease, t)

unfoldable pub ensure_capacity_lease : String → ProviderName → ℕ → Exec Leases Failure CapacityLease
unfolding ensure_row
ensure_capacity_lease key provider now t =
    if bad_capacity_key key
    then (err (value_error "capacity key is invalid"), t)
    else ensure_row key provider now (lookup key t) t

-- `expires <= current` in SQL, where a null compares as false.
abbrev pub expired_by : ℕ → Option ℕ → Bool
expired_by current none = false
expired_by current (some expires) = leb expires current

-- The `where` of the acquiring update.
abbrev pub may_acquire : String → ℕ → CapacityLease → Bool
may_acquire owner current lease =
    lease.action_owner == none
    || expired_by current lease.action_lease_expires_at
    || lease.action_owner == some owner

abbrev pub acquired : String → ℕ → ℕ → CapacityLease → CapacityLease
acquired owner current ttl lease = record lease {
  action_owner = some owner;
  action_lease_expires_at = some (current + seconds ttl);
  fencing_token = lease.fencing_token + 1;
  updated_at = current;
}

acquire_row : String → String → ℕ → ℕ → Option CapacityLease → Exec Leases Failure (Option ℕ)
acquire_row key owner current ttl none t = (err key_error, t)
acquire_row key owner current ttl (some lease) t =
    if may_acquire owner current lease
    then (ok (some (lease.fencing_token + 1)), update key (acquired owner current ttl) t)
    else (ok none, t)

unfoldable pub acquire_capacity_action_lease :
    String → String → ℕ → ℕ → Exec Leases Failure (Option ℕ)
unfolding acquire_row
acquire_capacity_action_lease key owner current ttl t =
    if is_empty owner || longer_than owner 128 || ttl == 0
    then (err (value_error "capacity action lease arguments are invalid"), t)
    else acquire_row key owner current ttl (lookup key t) t

-- `lease.action_owner == owner and lease.fencing_token == fencing_token`
abbrev pub holds : String → ℕ → CapacityLease → Bool
holds owner token lease = lease.action_owner == some owner && lease.fencing_token == token

abbrev pub marked : ℕ → CapacityLease → CapacityLease
marked now lease = record lease {
  state = releasing;
  release_requested_at = some (or_else lease.release_requested_at now);
  updated_at = now;
}

mark_row :
    String → String → ℕ → ℕ → Option CapacityLease → Exec Leases Failure (Option CapacityLease)
mark_row key owner token now none t = (ok none, t)
mark_row key owner token now (some lease) t =
    if holds owner token lease
    then (ok (some (marked now lease)), update key (marked now) t)
    else (ok none, t)

unfoldable pub mark_capacity_action_started :
    String → String → ℕ → String → ℕ → Exec Leases Failure (Option CapacityLease)
unfolding mark_row
mark_capacity_action_started key owner token operation now t =
    if not (operation == "release")
    then (err (value_error "only release actions have a durable pre-call marker"), t)
    else mark_row key owner token now (lookup key t) t

-- The columns that the keyword arguments of an update may name; the others are refused.
pub data LeaseChange : Type 0 where
  set_state : LeaseState → LeaseChange
  set_session_id set_idle_epoch_id set_last_error_code : Option String → LeaseChange
  set_last_activity_at set_release_due_at set_warmed_at set_next_reminder_at :
      Option ℕ → LeaseChange
  set_release_requested_at set_released_at set_last_reconciled_at : Option ℕ → LeaseChange

abbrev pub apply_change : LeaseChange → CapacityLease → CapacityLease
apply_change (set_state s) l = record l { state = s }
apply_change (set_session_id v) l = record l { session_id = v }
apply_change (set_idle_epoch_id v) l = record l { idle_epoch_id = v }
apply_change (set_last_error_code v) l = record l { last_error_code = v }
apply_change (set_last_activity_at v) l = record l { last_activity_at = v }
apply_change (set_release_due_at v) l = record l { release_due_at = v }
apply_change (set_warmed_at v) l = record l { warmed_at = v }
apply_change (set_next_reminder_at v) l = record l { next_reminder_at = v }
apply_change (set_release_requested_at v) l = record l { release_requested_at = v }
apply_change (set_released_at v) l = record l { released_at = v }
apply_change (set_last_reconciled_at v) l = record l { last_reconciled_at = v }

unfoldable pub apply_changes : List LeaseChange → CapacityLease → CapacityLease
apply_changes [] l = l
apply_changes (c ∷ cs) l = apply_changes cs (apply_change c l)

-- The changes, and the columns that every update writes: the action lease is given back.
abbrev pub settled : List LeaseChange → ℕ → CapacityLease → CapacityLease
settled changes now lease =
    let changed = apply_changes changes lease in
    record changed { action_owner = none; action_lease_expires_at = none; updated_at = now }

update_row :
    String
    → String
    → ℕ
    → ℕ
    → List LeaseChange
    → Option CapacityLease
    → Exec Leases Failure (Option CapacityLease)
update_row key owner token now changes none t = (ok none, t)
update_row key owner token now changes (some lease) t =
    if holds owner token lease
    then (ok (some (settled changes now lease)), update key (settled changes now) t)
    else (ok none, t)

unfoldable pub update_capacity_lease_if_owner :
    String → String → ℕ → ℕ → List LeaseChange → Exec Leases Failure (Option CapacityLease)
unfolding update_row
update_capacity_lease_if_owner key owner token now changes t =
    update_row key owner token now changes (lookup key t) t
