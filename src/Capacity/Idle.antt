-- ===== src/Capacity/Idle.antt =====
-- `_mark_cold` and `_idle_progress` of src/ace_service/capacity/controller.py: reminders, the
-- release warning, and the release of an idle worker once its keep-warm time is over.
pub mod Timing
use audio_ventura.Base.{
  ℕ, ◌+◌, ◌-◌, ◌*◌, ◌/◌, Bool, true, false, not, ◌||◌, ◌&&◌, Option, none, some, List, [], ◌∷◌,
  String, ◌+++◌, ◌==◌, nat_eq, string_eq, ltb, leb, is_some, is_none, or_else, decimal,
  if◌then◌else◌, Result, ok, err, Exec, pure, raise, gets, modify, or_raise, ◌>>=◌, ◌>>◌, update,
  lookup,
}
use audio_ventura.Errors.{Failure, key_error}
use audio_ventura.Providers.{ProviderName, provider_eq, salad}
use audio_ventura.Notifications.{
  EventFields, NotificationKind, capacity_retained_reminder, capacity_release_warning,
  capacity_released, capacity_release_overdue, insert_notification_event,
}
use audio_ventura.Capacity.Leases.{
  CapacityLease, cold, idle, releasing, release_overdue, seconds, holds,
  update_capacity_lease_if_owner,
}
use audio_ventura.Capacity.Manager.{
  CapacitySnapshot, CapacityDb, CapacityManager, is_ready, is_drift,
}
use audio_ventura.Capacity.Actions.{
  Fault, action_lost, repository_error, Step, on_leases, transaction, Operation, release, Action,
  provider_action,
}

-- The ids that `uuid4` gives out during one reconciliation, and the owner made of one of them.
pub record Fresh : Type 0 where
  pub owner : String
  pub session : String
  pub epoch : String

-- An attribute that is formatted into a text.
abbrev shown : Option String → String
shown v = or_else v "None"

abbrev provider_label : ProviderName → String
provider_label p = if p == salad then "Salad" else "RunPod"

-- An event about a lease.
abbrev notice :
    String → NotificationKind → String → String → ProviderName → ℕ → String → EventFields
notice event_key kind title body provider now capacity_key = record {
  event_key = event_key;
  kind = kind;
  title = title;
  body = body;
  target_path = "/";
  job_id = none;
  provider = some provider;
  capacity_key = some capacity_key;
  created_at = now;
}

insert_event : EventFields → Step Unit
insert_event f db =
    let (r, o) = insert_notification_event f db.outbox in
    elim r [
      | ok _ ↦ (ok tt, record db { outbox = o })
      | err e ↦ (err (repository_error e), record db { outbox = o })
    ]

-- The columns of a lease object, written to its row.
abbrev pub put_lease : String → CapacityLease → Step Unit
put_lease key lease = modify (λ db. record db { leases = update key (λ _. lease) db.leases })

abbrev released_event : String → CapacityLease → CapacitySnapshot → ℕ → EventFields
released_event key lease snapshot now =
    notice ("released:" +++ key +++ ":" +++ shown lease.idle_epoch_id) capacity_released
      "GPU released" "The warm worker has been released." snapshot.provider now key

abbrev pub cooled : ℕ → CapacityLease → CapacityLease
cooled now lease = record lease {
  state = cold;
  released_at = some now;
  release_due_at = none;
  release_requested_at = none;
  warmed_at = none;
  next_reminder_at = none;
  last_error_code = none;
}

mark_cold : String → CapacityLease → CapacitySnapshot → ℕ → Step CapacityLease
unfolding insert_event
mark_cold key lease snapshot now =
    if is_some lease.idle_epoch_id
    then insert_event (released_event key lease snapshot now) >> pure (cooled now lease)
    else pure (cooled now lease)

abbrev overdue_event : String → CapacityLease → ℕ → CapacitySnapshot → ℕ → EventFields
overdue_event key lease requested snapshot now =
    notice
      ("release-overdue:"
        +++ key
        +++ ":"
        +++ shown lease.idle_epoch_id
        +++ ":"
        +++ decimal ((now - requested) / 1000000 / 300))
      capacity_release_overdue "GPU release needs attention"
      "AudioVentura requested release, but zero workers has not been confirmed." snapshot.provider
      now key

-- A release that was requested and is not confirmed.
overdue_since :
    CapacityManager → CapacityLease → CapacitySnapshot → ℕ → Option ℕ → Step CapacityLease
unfolding insert_event
overdue_since m lease snapshot now none = pure lease
overdue_since m lease snapshot now (some requested) =
    if leb (requested + seconds m.release_grace_seconds) now
    then insert_event (overdue_event m.key lease requested snapshot now)
      >> pure (record lease { state = release_overdue })
    else pure lease

await_release : CapacityManager → CapacityLease → CapacitySnapshot → ℕ → Step CapacityLease
unfolding overdue_since
await_release m lease snapshot now =
    overdue_since m (record lease { state = releasing }) snapshot now lease.release_requested_at

-- The lease object when the session has looked at the epoch.
abbrev pub in_epoch : ℕ → ℕ → String → CapacityLease → CapacityLease
in_epoch keep_warm now epoch lease =
    if is_none lease.idle_epoch_id
    then record lease {
      idle_epoch_id = some epoch;
      release_due_at = some (or_else lease.last_activity_at now + seconds keep_warm);
    }
    else lease

-- A ready worker is idle, and has been warm since some time.
abbrev warm : ℕ → CapacityLease → CapacityLease
warm now lease =
    let since = or_else lease.warmed_at now in
    let next =
      if is_none lease.warmed_at then some (now + seconds 300) else lease.next_reminder_at in
    record lease {
      state = idle;
      warmed_at = some since;
      next_reminder_at = some (or_else next (since + seconds 300));
    }

abbrev reminder_slot : ℕ → ℕ → ℕ
reminder_slot warmed_at now = (now - warmed_at) / 1000000 / 300

abbrev reminder_event : String → CapacityLease → CapacitySnapshot → ℕ → ℕ → EventFields
reminder_event key lease snapshot slot now =
    notice
      ("retained-reminder:" +++ key +++ ":" +++ shown lease.session_id +++ ":" +++ decimal slot)
      capacity_retained_reminder "GPU kept warm"
      ("AudioVentura has kept one "
        +++ provider_label snapshot.provider
        +++ " worker ready for "
        +++ decimal (slot * 5)
        +++ " minutes.")
      snapshot.provider now key

remind_if_due : String → CapacityLease → CapacitySnapshot → ℕ → Step CapacityLease
unfolding insert_event
remind_if_due key lease snapshot now =
    let since = or_else lease.warmed_at now in
    let slot = reminder_slot since now in
    if leb (or_else lease.next_reminder_at now) now
    then insert_event (reminder_event key lease snapshot slot now)
      >> pure (record lease { next_reminder_at = some (since + seconds ((slot + 1) * 5 * 60)) })
    else pure lease

keep_ready : String → CapacityLease → CapacitySnapshot → ℕ → Step CapacityLease
unfolding remind_if_due
keep_ready key lease snapshot now =
    if is_ready snapshot.phase then remind_if_due key (warm now lease) snapshot now else pure lease

abbrev warning_event : String → CapacityLease → CapacitySnapshot → ℕ → EventFields
warning_event key lease snapshot now =
    notice ("release-warning:" +++ key +++ ":" +++ shown lease.idle_epoch_id)
      capacity_release_warning "GPU release in 1 minute"
      ("No generation is active. The warm "
        +++ provider_label snapshot.provider
        +++ " worker will be released in 1 minute.")
      snapshot.provider now key

warn_if_near : String → CapacityLease → CapacitySnapshot → ℕ → ℕ → ℕ → Step Unit
unfolding insert_event
warn_if_near key lease snapshot keep_warm due now =
    if not (keep_warm == 0) && ltb now due && leb due (now + seconds 60)
    then insert_event (warning_event key lease snapshot now)
    else pure tt

-- What the session writes before it looks at the due time.
unfoldable pub idle_notices :
    String → Fresh → CapacityLease → CapacitySnapshot → ℕ → ℕ → Step CapacityLease
unfolding keep_ready warn_if_near
idle_notices key fresh lease snapshot keep_warm now = do
  let lease₁ = in_epoch keep_warm now fresh.epoch lease
  lease₂ ← keep_ready key lease₁ snapshot now
  warn_if_near key lease₂ snapshot keep_warm (or_else lease₁.release_due_at now) now
  pure lease₂

-- The lease row as a refreshed session reads it.
unfoldable pub refresh : CapacityManager → Step CapacityLease
refresh m db = or_raise (lookup m.key db.leases) (repository_error key_error) db

abbrev pub confirms_zero : CapacitySnapshot → Bool
confirms_zero s = s.provider_active_jobs == 0 && s.observed_instances == 0

after_release :
    CapacityManager → CapacityLease → CapacitySnapshot → CapacitySnapshot → ℕ → Step CapacityLease
unfolding mark_cold await_release
after_release m lease snapshot after now =
    if after.configured_floor == 0 && confirms_zero after
    then mark_cold m.key lease after now
    else await_release m lease snapshot now

settled_or_lost : Option CapacityLease → Step CapacityLease
settled_or_lost none = raise action_lost
settled_or_lost (some lease) = pure lease

finish_release :
    CapacityManager → String → CapacitySnapshot → ℕ → Action → CapacityLease → Step CapacityLease
unfolding after_release settled_or_lost
finish_release m owner snapshot now action lease =
    if not (holds owner action.token lease)
    then raise action_lost
    else transaction (do
      let requested = record lease {
        release_requested_at = some (or_else lease.release_requested_at now);
      }
      lease' ← after_release m requested snapshot action.after now
      put_lease m.key lease'
      updated ← on_leases (update_capacity_lease_if_owner m.key owner action.token now [])
      settled_or_lost updated)

release_result : CapacityManager → Fresh → CapacitySnapshot → ℕ → Option Action → Step CapacityLease
unfolding finish_release refresh
release_result m fresh snapshot now none = raise action_lost
release_result m fresh snapshot now (some action) = do
  lease ← refresh m
  finish_release m fresh.owner snapshot now action lease

-- The provider is asked to release its worker.
unfoldable pub release_worker : CapacityManager → Fresh → CapacitySnapshot → ℕ → Step CapacityLease
unfolding release_result
release_worker m fresh snapshot now = do
  action ← provider_action m release snapshot fresh.owner now
  release_result m fresh snapshot now action

-- The branches after the notices; `lease` is written to its row on each.
unfoldable pub idle_decision :
    CapacityManager → Fresh → CapacityLease → CapacitySnapshot → ℕ → ℕ → Step CapacityLease
unfolding mark_cold await_release
idle_decision m fresh lease snapshot due now =
    if ltb now due
    then put_lease m.key lease >> pure lease
    else if not (snapshot.provider_active_jobs == 0) || ltb 1 snapshot.observed_instances
    then put_lease m.key (record lease { last_error_code = some "provider_active_work" })
      >> pure (record lease { last_error_code = some "provider_active_work" })
    else if not (snapshot.configured_floor == 0)
    then put_lease m.key lease >> release_worker m fresh snapshot now
    else transaction (do
      lease' ←
          if confirms_zero snapshot
          then mark_cold m.key lease snapshot now
          else await_release m lease snapshot now
      put_lease m.key lease'
      pure lease')

unfoldable pub idle_progress :
    CapacityManager → Fresh → CapacityLease → CapacitySnapshot → ℕ → ℕ → Step CapacityLease
idle_progress m fresh lease snapshot keep_warm now = do
  lease' ← transaction (idle_notices m.key fresh lease snapshot keep_warm now)
  idle_decision m fresh lease' snapshot (or_else lease'.release_due_at now) now
