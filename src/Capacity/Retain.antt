-- ===== src/Capacity/Retain.antt =====
-- `ensure_retained` of src/ace_service/capacity/controller.py: one worker is held before an inference
-- nonce is committed.
pub mod Laws
use audio_ventura.Base.{
  ℕ, Bool, true, false, not, Option, none, some, List, [], ◌∷◌, String, ◌==◌, nat_eq, if◌then◌else◌,
  Result, ok, err, Exec, pure, raise, raise_if, ◌>>=◌, ◌>>◌,
}
use audio_ventura.Capacity.Leases.{CapacityLease, retained, update_capacity_lease_if_owner}
use audio_ventura.Capacity.Manager.{
  CapacityErrorKind, transient, drift, invalid_response, is_ready, CapacitySnapshot, CapacityDb,
  Reply, observed, capacity_failed, crashed, CapacityManager,
}
use audio_ventura.Capacity.Actions.{
  Fault, capacity_error, action_lost, repository_error, Step, on_leases, transaction, retain,
  Action, provider_action,
}
use audio_ventura.Capacity.Idle.{Fresh, put_lease}
use audio_ventura.Capacity.Reconcile.{follow, retain_changes}
use audio_ventura.Capacity.Observed.{ensure_lease}

-- Any exception but a `CapacityError` becomes a transient one.
abbrev as_capacity_error : Fault → Fault
as_capacity_error (capacity_error kind) = capacity_error kind
as_capacity_error _ = capacity_error transient

-- The lease when the floor is found to be one.
abbrev held_lease : Fresh → CapacitySnapshot → ℕ → CapacityLease → CapacityLease
held_lease fresh before now lease =
    let held = follow fresh before now retained lease in
    record held {
      released_at = none;
      release_requested_at = none;
      last_error_code = none;
      updated_at = now;
    }

hold : CapacityManager → Fresh → CapacitySnapshot → ℕ → Step Unit
hold m fresh before now = do
  transaction (do lease ← ensure_lease m now; put_lease m.key (held_lease fresh before now lease))
  raise_if (not (is_ready before.phase)) (capacity_error transient)

retain_committed : Option CapacityLease → CapacitySnapshot → Step Unit
retain_committed none after = raise (capacity_error transient)
retain_committed (some _) after = raise_if (not (is_ready after.phase)) (capacity_error transient)

retained_by : CapacityManager → Fresh → CapacitySnapshot → ℕ → Option Action → Step Unit
unfolding retain_committed
retained_by m fresh before now none = raise (capacity_error transient)
retained_by m fresh before now (some action) = do
  raise_if (not (action.after.configured_floor == 1)) (capacity_error invalid_response)
  updated ← transaction (do
    lease ← ensure_lease m now
    on_leases (
        update_capacity_lease_if_owner m.key fresh.owner action.token now
          (retain_changes lease before action.after fresh now)))
  retain_committed updated action.after

retain_from : CapacityManager → Fresh → ℕ → Reply → Step Unit
unfolding hold retained_by
retain_from m fresh now (capacity_failed kind) = raise (capacity_error kind)
retain_from m fresh now crashed = raise (capacity_error transient)
retain_from m fresh now (observed before) =
    if not (before.configured_maximum == 1)
    then raise (capacity_error drift)
    else if before.configured_floor == 1
    then hold m fresh before now
    else do
      action ← provider_action m retain before fresh.owner now
      retained_by m fresh before now action

-- `none` stands for a backend that no manager serves.
unfoldable pub ensure_retained : Option CapacityManager → Fresh → ℕ → Step Unit
unfolding retain_from
ensure_retained none fresh now db = (ok tt, db)
ensure_retained (some m) fresh now db =
    let (reply, db₁) = m.inspect db in
    let (r, db₂) = retain_from m fresh now reply db₁ in
    elim r [ ok _ ↦ (ok tt, db₂) | err e ↦ (err (as_capacity_error e), db₂) ]
