-- ===== src/Capacity/Reconcile.antt =====
-- `_reconcile_manager`, `reconcile_once` and `ensure_retained` of
-- src/ace_service/capacity/controller.py.
use audio_ventura.Base.{
  ℕ, ◌+◌, Bool, not, ◌||◌, ◌&&◌, Option, none, some, List, [], ◌∷◌, ◌==◌, nat_eq, string_eq,
  is_none, or_else, if◌then◌else◌, ok, err, pure, gets, modify, ◌>>=◌, ◌>>◌, update,
}
use audio_ventura.Capacity.Leases.{
  CapacityLease, LeaseState, lease_state_eq, cold, warming, retained, idle, seconds,
  update_capacity_lease_if_owner, set_state, set_session_id, set_warmed_at, set_next_reminder_at,
  set_released_at, set_release_requested_at, set_last_error_code, LeaseChange,
}
use audio_ventura.Capacity.Manager.{
  transient, is_ready, CapacitySnapshot, Reply, observed, capacity_failed, crashed, CapacityManager,
  count_eligible_work,
}
use audio_ventura.Capacity.Actions.{
  capacity_error, action_lost, Step, on_leases, transaction, retain, Action, provider_action,
}
use audio_ventura.Capacity.Idle.{Fresh, put_lease, idle_progress, refresh}
use audio_ventura.Capacity.Observed.{
  CapacityReconcileResult, current_result, ensure_lease, observe_work, read_keep_warm, record_error,
  result_for,
}

abbrev is_new_session : CapacityLease → Bool
is_new_session lease = lease.state == cold || is_none lease.session_id

-- The columns that a finished retain writes.
abbrev pub retain_changes :
    CapacityLease → CapacitySnapshot → CapacitySnapshot → Fresh → ℕ → List LeaseChange
retain_changes lease before after fresh now =
    let new = is_new_session lease || before.observed_instances == 0 in
    let warmed = if new then none else lease.warmed_at in
    let reminder = if new then none else lease.next_reminder_at in
    let first = is_ready after.phase && is_none warmed in
    set_state (if is_ready after.phase then retained else warming)
    ∷ set_session_id (if new then some fresh.session else lease.session_id)
    ∷ set_warmed_at (if first then some now else warmed)
    ∷ set_next_reminder_at (if first then some (now + seconds 300) else reminder)
    ∷ set_released_at none
    ∷ set_release_requested_at none
    ∷ set_last_error_code none
    ∷ []

-- The end of a reconciliation: the row is stamped, and reported.
finish : CapacityManager → CapacityLease → CapacitySnapshot → ℕ → Step CapacityReconcileResult
finish m lease before now = do
  modify (λ db. record db {
    leases =
        update m.key (λ l. record l { last_reconciled_at = some now; updated_at = now }) db.leases;
  })
  pure (result_for m lease before)

retain_settled :
    CapacityManager → CapacitySnapshot → ℕ → Option CapacityLease → Step CapacityReconcileResult
unfolding finish current_result
retain_settled m before now none = current_result m before now
retain_settled m before now (some lease) = finish m lease before now

retain_finished :
    CapacityManager
    → Fresh
    → CapacityLease
    → CapacitySnapshot
    → ℕ
    → Option Action
    → Step CapacityReconcileResult
unfolding finish retain_settled
retain_finished m fresh lease before now none = finish m lease before now
retain_finished m fresh _ before now (some action) = do
  lease ← refresh m
  updated ← on_leases (
      update_capacity_lease_if_owner m.key fresh.owner action.token now
        (retain_changes lease before action.after fresh now))
  retain_settled m before now updated

-- A `CapacityError` of an action is recorded on the lease; other exceptions go on.
abbrev recording : CapacityManager → ℕ → Step CapacityReconcileResult → Step CapacityReconcileResult
recording m now step db =
    let (r, db') = step db in
    elim r [
      | ok a ↦ (ok a, db')
      | err e ↦ elim e [
        | capacity_error kind ↦ record_error m kind now db'
        | other ↦ (err other, db')
      ]
    ]

-- A `_CapacityActionLost` ends the reconciliation with what the lease now says.
abbrev yielding :
    CapacityManager
    → CapacitySnapshot
    → ℕ
    → Step CapacityReconcileResult
    → Step CapacityReconcileResult
yielding m before now step db =
    let (r, db') = step db in
    elim r [
      | ok a ↦ (ok a, db')
      | err e ↦ elim e [ action_lost ↦ current_result m before now db' | other ↦ (err other, db') ]
    ]

unfoldable pub retain_active :
    CapacityManager → Fresh → CapacityLease → CapacitySnapshot → ℕ → Step CapacityReconcileResult
unfolding retain_finished record_error
retain_active m fresh lease before now db =
    let (r, db') = provider_action m retain before fresh.owner now db in
    elim r [
      | ok action ↦ retain_finished m fresh lease before now action db'
      | err e ↦ elim e [
        | capacity_error kind ↦ record_error m kind now db'
        | other ↦ (err other, db')
      ]
    ]

-- The floor is already one: the lease follows what was observed.
abbrev pub follow : Fresh → CapacitySnapshot → ℕ → LeaseState → CapacityLease → CapacityLease
follow fresh before now ready_state lease =
    let new = is_new_session lease in
    let warmed = if new then none else lease.warmed_at in
    let reminder = if new then none else lease.next_reminder_at in
    let first = is_ready before.phase && is_none warmed in
    record lease {
      state = if is_ready before.phase then ready_state else warming;
      session_id = if new then some fresh.session else lease.session_id;
      warmed_at = if first then some now else warmed;
      next_reminder_at = if first then some (now + seconds 300) else reminder;
    }

unfoldable pub active_lease : Fresh → CapacitySnapshot → ℕ → CapacityLease → CapacityLease
active_lease fresh before now lease =
    if before.configured_floor == 1
    then follow fresh before now retained lease
    else record lease { state = cold }

-- A lease that was cold while the provider holds a floor of one.
unfoldable pub discovered : Fresh → CapacitySnapshot → ℕ → ℕ → CapacityLease → CapacityLease
discovered fresh before keep_warm now lease =
    let ready = is_ready before.phase in
    record lease {
      state = if ready then idle else warming;
      session_id = some fresh.session;
      warmed_at = if ready then some now else none;
      next_reminder_at = if ready then some (now + seconds 300) else none;
      idle_epoch_id = some (or_else lease.idle_epoch_id fresh.epoch);
      release_due_at = some (or_else lease.last_activity_at now + seconds keep_warm);
    }

unfoldable pub progress :
    CapacityManager
    → Fresh
    → CapacityLease
    → CapacitySnapshot
    → ℕ
    → ℕ
    → Step CapacityReconcileResult
unfolding finish
progress m fresh lease before keep_warm now = do
  lease' ← idle_progress m fresh lease before keep_warm now
  finish m lease' before now

-- The branches of the second session.
unfoldable pub reconcile_lease :
    CapacityManager
    → Fresh
    → CapacityLease
    → CapacitySnapshot
    → ℕ
    → ℕ
    → ℕ
    → Step CapacityReconcileResult
unfolding finish current_result record_error
reconcile_lease m fresh lease before keep_warm active now =
    if not (active == 0) && not (keep_warm == 0) && not (before.configured_floor == 1)
    then retain_active m fresh lease before now
    else if not (active == 0)
    then put_lease m.key (active_lease fresh before now lease)
      >> finish m (active_lease fresh before now lease) before now
    else if lease.state == cold && before.configured_floor == 1
    then yielding m before now
        (progress m fresh (discovered fresh before keep_warm now lease) before keep_warm now)
    else if not (lease.state == cold)
    then recording m now (yielding m before now (progress m fresh lease before keep_warm now))
    else finish m lease before now

-- What the second session reads before it branches.
pub record Seen : Type 0 where
  pub lease : CapacityLease
  pub keep_warm : ℕ
  pub active : ℕ

unfoldable pub read_lease : CapacityManager → ℕ → Step Seen
read_lease m now = do
  lease ← ensure_lease m now
  keep_warm ← read_keep_warm
  active ← gets (λ db. count_eligible_work db.jobs m.backend_ids)
  pure (record { lease = lease; keep_warm = keep_warm; active = active })

unfoldable pub decide :
    CapacityManager → Fresh → CapacitySnapshot → ℕ → Step CapacityReconcileResult
decide m fresh before now = do
  seen ← transaction (read_lease m now)
  reconcile_lease m fresh seen.lease before seen.keep_warm seen.active now

abbrev pub await_inspection : CapacityManager → Step Reply
await_inspection m db = let (r, db') = m.inspect db in (ok r, db')

unfoldable pub inspected : CapacityManager → Fresh → ℕ → Reply → Step CapacityReconcileResult
unfolding record_error decide
inspected m fresh now (observed before) = decide m fresh before now
inspected m fresh now (capacity_failed kind) = record_error m kind now
inspected m fresh now crashed = record_error m transient now

unfoldable pub reconcile_manager : CapacityManager → Fresh → ℕ → Step CapacityReconcileResult
unfolding observe_work inspected
reconcile_manager m fresh now = do
  observe_work m fresh now
  reply ← await_inspection m
  inspected m fresh now reply

-- `reconcile_once`: an exception of one manager ends the round. Each manager has its own ids.
unfoldable pub reconcile_once :
    List (CapacityManager × Fresh) → ℕ → Step (List CapacityReconcileResult)
reconcile_once [] now = pure []
reconcile_once ((m, fresh) ∷ ms) now = do
  result ← reconcile_manager m fresh now
  rest ← reconcile_once ms now
  pure (result ∷ rest)
