-- ===== src/Capacity/Tests.antt =====
-- src/ace_service/capacity/controller.py and the leases, run on one row and one manager.
use text.Mathlib.TextEquality.{eq_iff}
use audio_ventura.Base.{
  ◌<◌, ◌≡◌, ◌≢◌, refl, inl, false, none, some, [], ◌∷◌, String, ok, err, arith, string_eq, lookup,
  update, has_blank,
}
use audio_ventura.Providers.{salad}
use audio_ventura.Lifecycle.{queued}
use audio_ventura.Notifications.{Outbox}
use audio_ventura.Capacity.Leases.{
  CapacityLease, Leases, cold_lease, idle, seconds, settled, ensure_capacity_lease,
  acquire_capacity_action_lease, mark_capacity_action_started, update_capacity_lease_if_owner,
  apply_changes, set_state,
}
use audio_ventura.Capacity.Fencing.{IsFenced, overtaken_holder-IsFenced, holder_settles}
use audio_ventura.Capacity.Steps.{acquire, run_calls}
use audio_ventura.Capacity.Manager.{
  CapacityPhase, transient, CapacitySnapshot, CapacityDb, observed, capacity_failed, crashed,
  CapacityManager, count_eligible_work, latest_terminal_activity, get_keep_warm_seconds,
}
use audio_ventura.Capacity.Actions.{capacity_error, provider_action, call_manager, take_action}
use audio_ventura.Capacity.Idle.{Fresh, idle_notices, idle_decision, idle_progress, release_worker}
use audio_ventura.Capacity.Idle.Timing.{releasing_by, release_waits}
use audio_ventura.Capacity.Reconcile.{
  reconcile_lease, reconcile_manager, reconcile_once, inspected, decide, read_lease, progress,
  discovered,
}
use audio_ventura.Capacity.Observed.{quiet_lease, observe_work, ensure_lease, read_keep_warm}
use audio_ventura.Capacity.Safety.{active_work_is_not_released}
use audio_ventura.Capacity.Retain.{ensure_retained}
use audio_ventura.Capacity.Retain.Laws.{IsRetained, ensure_retained-IsRetained}

abbrev leases : Leases
leases = ("salad", cold_lease salad 0) ∷ []

overtaken_holder-IsFenced_example :
    let t₁ = (acquire_capacity_action_lease "salad" "a" 0 300 leases).1 in
    (1 < 2)
    × IsFenced "salad" "a" 1 (acquire_capacity_action_lease "salad" "b" (seconds 400) 300 t₁).1
unfolding acquire_capacity_action_lease run_calls lookup update
overtaken_holder-IsFenced_example =
    overtaken_holder-IsFenced "salad" "a" "b" 0 300 (seconds 400) 300 1 2 leases [] [] refl refl

a_not_b : ◌≢◌ {A = String} "a" "b"
a_not_b = ground (arith, eq_iff "a" "b")

holder_settles_example :
    let t₁ = (acquire_capacity_action_lease "salad" "a" 0 300 leases).1 in
    let others = acquire "salad" "b" 10 300 ∷ [] in
    (lookup "salad" (run_calls others t₁) ≡ lookup "salad" t₁)
    × ((l : CapacityLease) × ((update_capacity_lease_if_owner "salad" "a" 1 20
            (set_state idle ∷ [])
            (run_calls others t₁)).0
          ≡ ok (some (settled (set_state idle ∷ []) 20 l)))
        × (l.fencing_token ≡ 1))
unfolding acquire_capacity_action_lease lookup update
holder_settles_example =
    holder_settles "salad" "a" 0 300 1 20 (set_state idle ∷ []) leases
      (acquire "salad" "b" 10 300 ∷ []) refl ((a_not_b, omega arith), tt)

abbrev held : CapacitySnapshot
held = record {
  key = "salad";
  provider = salad;
  phase = CapacityPhase.ready;
  configured_floor = 1;
  configured_maximum = 1;
  observed_instances = 1;
  ready_instances = 1;
  provider_active_jobs = 0;
  resource_revision = none;
}

-- A provider that keeps its worker, and fails to release it.
abbrev stubborn : CapacityManager
stubborn = record {
  key = "salad";
  provider = salad;
  backend_ids = "salad/x" ∷ [];
  release_grace_seconds = 300;
  inspect = λ db. (observed held, db);
  retain_one = λ _ db. (observed held, db);
  release_one = λ _ db. (capacity_failed transient, db);
}

abbrev fresh : Fresh
fresh = record { owner = "controller:1"; session = "session"; epoch = "epoch" }

abbrev outbox : Outbox
outbox = record {
  events = [];
  next_event_id = 1;
  subscriptions = [];
  deliveries = [];
  next_delivery_id = 1;
}

abbrev busy_db : CapacityDb
busy_db = record {
  leases = leases;
  outbox = outbox;
  jobs =
      record {
        inference_backend = some "salad/x";
        status = queued;
        is_cover = false;
        staging_confirmed = false;
        completed_at = none;
      }
      ∷ [];
  keep_warm = some 900;
}

abbrev quiet_db : CapacityDb
quiet_db = record busy_db { jobs = []; keep_warm = some 0 }

active_work_is_not_released_example :
    reconcile_manager (releasing_by (λ _ db. (crashed, db)) stubborn) fresh 5 busy_db
    ≡ reconcile_manager stubborn fresh 5 busy_db
unfolding count_eligible_work observe_work ensure_capacity_lease lookup update has_blank
    get_keep_warm_seconds
active_work_is_not_released_example =
    active_work_is_not_released (λ _ db. (crashed, db)) stubborn fresh 5 busy_db (omega arith)

abbrev idling : CapacityLease
idling = record (cold_lease salad 0) {
  state = idle;
  session_id = some "session";
  last_activity_at = some 0;
  warmed_at = some 0;
}

release_waits_example :
    idle_progress (releasing_by (λ _ db. (crashed, db)) stubborn) fresh idling held 900 5 quiet_db
    ≡ idle_progress stubborn fresh idling held 900 5 quiet_db
release_waits_example =
    release_waits (λ _ db. (crashed, db)) stubborn fresh idling held 900 5 quiet_db
      (inl (omega arith))

-- A round over a cold lease whose worker is held and due ends in the exception, and the managers
-- behind it are not reconciled.
cold_release_ends_round :
    (reconcile_once ((stubborn, fresh) ∷ (stubborn, fresh) ∷ []) 5 quiet_db).0
    ≡ err (capacity_error transient)
unfolding reconcile_once reconcile_manager observe_work inspected decide read_lease read_keep_warm
    ensure_lease reconcile_lease progress idle_progress idle_notices idle_decision release_worker
    provider_action call_manager take_action ensure_capacity_lease acquire_capacity_action_lease
    mark_capacity_action_started update_capacity_lease_if_owner apply_changes quiet_lease discovered
    count_eligible_work latest_terminal_activity get_keep_warm_seconds lookup update has_blank
cold_release_ends_round = refl

ensure_retained-IsRetained_example :
    IsRetained stubborn (ensure_retained (some stubborn) fresh 5 quiet_db).1
unfolding ensure_retained ensure_lease ensure_capacity_lease lookup update has_blank
ensure_retained-IsRetained_example = ensure_retained-IsRetained stubborn fresh 5 quiet_db refl
