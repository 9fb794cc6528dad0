-- ===== src/Capacity/Observed.antt =====
-- What `_reconcile_manager` of src/ace_service/capacity/controller.py writes in its first session, and
-- the result and the error that a pass comes to.
use audio_ventura.Base.{
  ℕ, ◌+◌, Bool, not, ◌&&◌, Option, none, some, String, ◌==◌, nat_eq, string_eq, ltb, is_some,
  is_none, or_else, if◌then◌else◌, ok, err, pure, gets, ◌>>=◌, ◌>>◌,
}
use audio_ventura.Capacity.Leases.{
  CapacityLease, LeaseState, lease_state_eq, cold, release_overdue, seconds, ensure_capacity_lease,
}
use audio_ventura.Capacity.Manager.{
  CapacityErrorKind, error_kind_value, is_drift, CapacitySnapshot, CapacityManager,
  get_keep_warm_seconds, count_eligible_work, latest_terminal_activity,
}
use audio_ventura.Capacity.Actions.{repository_error, Step, on_leases, transaction}
use audio_ventura.Capacity.Idle.{Fresh, put_lease}

pub record CapacityReconcileResult : Type 0 where
  pub capacity_key : String
  pub state : LeaseState
  pub configured_floor : ℕ
  pub observed_instances : ℕ
  pub provider_active_jobs : ℕ
  pub error : Option String

unfoldable pub ensure_lease : CapacityManager → ℕ → Step CapacityLease
ensure_lease m now = on_leases (ensure_capacity_lease m.key m.provider now)

unfoldable pub read_keep_warm : Step ℕ
read_keep_warm db =
    let (r, row) = get_keep_warm_seconds db.keep_warm in
    elim r [
      | ok n ↦ (ok n, record db { keep_warm = row })
      | err e ↦ (err (repository_error e), record db { keep_warm = row })
    ]

abbrev result_of :
    CapacityManager → LeaseState → Option String → ℕ → ℕ → ℕ → CapacityReconcileResult
result_of m state error floor instances jobs = record {
  capacity_key = m.key;
  state = state;
  configured_floor = floor;
  observed_instances = instances;
  provider_active_jobs = jobs;
  error = error;
}

abbrev pub result_for : CapacityManager → CapacityLease → CapacitySnapshot → CapacityReconcileResult
result_for m lease s =
    result_of m lease.state lease.last_error_code s.configured_floor s.observed_instances
      s.provider_active_jobs

unfoldable pub current_result :
    CapacityManager → CapacitySnapshot → ℕ → Step CapacityReconcileResult
unfolding ensure_lease
current_result m snapshot now db =
    let (r, _) = ensure_lease m now db in
    elim r [ ok lease ↦ (ok (result_for m lease snapshot), db) | err e ↦ (err e, db) ]

-- Another owner is in the middle of an action.
abbrev is_owned : ℕ → CapacityLease → Bool
is_owned now lease =
    is_some lease.action_owner && ltb now (or_else lease.action_lease_expires_at now)

abbrev pub erred : CapacityErrorKind → ℕ → CapacityLease → CapacityLease
erred kind now lease = record lease {
  state =
      if is_drift kind && is_some lease.release_requested_at then release_overdue else lease.state;
  last_error_code = some (error_kind_value kind);
  last_reconciled_at = some now;
  updated_at = now;
}

record_on : CapacityManager → CapacityErrorKind → ℕ → CapacityLease → Step CapacityReconcileResult
record_on m kind now lease =
    if is_owned now lease
    then pure (result_of m lease.state lease.last_error_code 0 0 0)
    else put_lease m.key (erred kind now lease)
      >> pure (result_of m (erred kind now lease).state (some (error_kind_value kind)) 0 0 0)

unfoldable pub record_error : CapacityManager → CapacityErrorKind → ℕ → Step CapacityReconcileResult
unfolding ensure_lease record_on
record_error m kind now = transaction (do lease ← ensure_lease m now; record_on m kind now lease)

-- The first session, with eligible work: the idle epoch ends.
abbrev busy_lease : ℕ → CapacityLease → CapacityLease
busy_lease now lease = record lease {
  last_activity_at = some now;
  release_due_at = none;
  idle_epoch_id = none;
  last_error_code = none;
}

abbrev pub latest_of : Option ℕ → ℕ → ℕ
latest_of none last = last
latest_of (some terminal) last = if ltb last terminal then terminal else last

abbrev begin_epoch : ℕ → String → CapacityLease → CapacityLease
begin_epoch now epoch lease =
    if is_none lease.idle_epoch_id && not (lease.state == cold)
    then record lease {
      idle_epoch_id = some epoch;
      next_reminder_at = some (or_else lease.warmed_at now + seconds 300);
    }
    else lease

abbrev with_due : ℕ → ℕ → CapacityLease → CapacityLease
with_due keep_warm last lease =
    if is_some lease.idle_epoch_id
    then record lease { release_due_at = some (last + seconds keep_warm) }
    else lease

-- The first session, with no eligible work: an idle epoch begins and the release falls due.
unfoldable pub quiet_lease : ℕ → ℕ → Option ℕ → String → CapacityLease → CapacityLease
quiet_lease now keep_warm terminal epoch lease =
    let last = latest_of terminal (or_else lease.last_activity_at (or_else terminal now)) in
    with_due keep_warm last (
      begin_epoch now epoch (record lease { last_activity_at = some last; last_error_code = none }))

unfoldable pub observe_work : CapacityManager → Fresh → ℕ → Step Unit
unfolding ensure_lease read_keep_warm
observe_work m fresh now = transaction (do
  lease ← ensure_lease m now
  keep_warm ← read_keep_warm
  active ← gets (λ db. count_eligible_work db.jobs m.backend_ids)
  terminal ← gets (λ db. latest_terminal_activity db.jobs m.backend_ids)
  put_lease m.key (
      if active == 0
      then quiet_lease now keep_warm terminal fresh.epoch lease
      else busy_lease now lease))
