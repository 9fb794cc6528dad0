-- ===== src/Capacity/Safety.antt =====
-- Releases that src/ace_service/capacity/controller.py asks a provider for, and eligible work.
use audio_ventura.Base.{
  ℕ, ◌<◌, ◌≡◌, refl, false, ◌==◌, nat_eq, string_eq, ok, arith, ◌>>=◌, >>=-ext,
}
use audio_ventura.Capacity.Leases.{CapacityLease, lease_state_eq}
use audio_ventura.Capacity.Manager.{
  CapacitySnapshot, CapacityDb, Reply, observed, capacity_failed, crashed, CapacityManager,
  count_eligible_work,
}
use audio_ventura.Capacity.Actions.{Step, transaction, provider_action, call_manager}
use audio_ventura.Capacity.Idle.{Fresh, refresh}
use audio_ventura.Capacity.Reconcile.{
  read_lease, Seen, retain_active, reconcile_lease, inspected, await_inspection, decide,
  reconcile_manager,
}
use audio_ventura.Capacity.Observed.{ensure_lease, read_keep_warm, observe_work, record_error}

-- The manager with another way to release a worker.
abbrev pub releasing_by :
    (CapacitySnapshot → CapacityDb → Reply × CapacityDb) → CapacityManager → CapacityManager
releasing_by f m = record m { release_one = f }

retain_active_ignores :
    (f : CapacitySnapshot → CapacityDb → Reply × CapacityDb) (m : CapacityManager) (fresh : Fresh)
    (lease : CapacityLease) (before : CapacitySnapshot) (now : ℕ) (db : CapacityDb)
    → retain_active (releasing_by f m) fresh lease before now db
      ≡ retain_active m fresh lease before now db
unfolding retain_active provider_action call_manager refresh ensure_lease
retain_active_ignores f m fresh lease before now db = refl

reconcile_lease_ignores :
    (f : CapacitySnapshot → CapacityDb → Reply × CapacityDb) (m : CapacityManager) (fresh : Fresh)
    (lease : CapacityLease) (before : CapacitySnapshot) (keep_warm active now : ℕ) (db : CapacityDb)
    → (active == 0) ≡ false
    → reconcile_lease (releasing_by f m) fresh lease before keep_warm active now db
      ≡ reconcile_lease m fresh lease before keep_warm active now db
unfolding reconcile_lease retain_active provider_action call_manager refresh ensure_lease
reconcile_lease_ignores f m fresh lease before keep_warm active now db h = rw h refl

active-read_lease :
    (m : CapacityManager) (now : ℕ) (db : CapacityDb) (seen : Seen)
    → (read_lease m now db).0 ≡ ok seen
    → seen.active ≡ count_eligible_work db.jobs m.backend_ids
unfolding read_lease ensure_lease read_keep_warm
active-read_lease m now db seen h = ground arith

-- What a transaction returned, its body returned from the same database.
transaction_ok :
    {A : Type 0} (step : Step A) (db : CapacityDb) (a : A)
    → (transaction step db).0 ≡ ok a
    → (step db).0 ≡ ok a
transaction_ok step db a h = ground arith

decide_ignores :
    (f : CapacitySnapshot → CapacityDb → Reply × CapacityDb) (m : CapacityManager) (fresh : Fresh)
    (before : CapacitySnapshot) (now : ℕ) (db : CapacityDb)
    → 0 < count_eligible_work db.jobs m.backend_ids
    → decide (releasing_by f m) fresh before now db ≡ decide m fresh before now db
unfolding decide read_lease ensure_lease
decide_ignores f m fresh before now db h =
    >>=-ext (transaction (read_lease m now))
      (λ seen.
        reconcile_lease (releasing_by f m) fresh seen.lease before seen.keep_warm seen.active now)
      (λ seen. reconcile_lease m fresh seen.lease before seen.keep_warm seen.active now) db
      λ seen e.
        reconcile_lease_ignores f m fresh seen.lease before seen.keep_warm seen.active now _ (
          ground
            (arith, active-read_lease m now db seen (transaction_ok (read_lease m now) db seen e)))

inspected_ignores :
    (f : CapacitySnapshot → CapacityDb → Reply × CapacityDb) (m : CapacityManager) (fresh : Fresh)
    (reply : Reply) (now : ℕ) (db : CapacityDb)
    → 0 < count_eligible_work db.jobs m.backend_ids
    → inspected (releasing_by f m) fresh now reply db ≡ inspected m fresh now reply db
unfolding inspected record_error ensure_lease
inspected_ignores f m fresh (observed before) now db h = decide_ignores f m fresh before now db h
inspected_ignores f m fresh (capacity_failed kind) now db h = refl
inspected_ignores f m fresh crashed now db h = refl

-- While eligible work is there after the inspection, a reconciliation never asks the provider to
-- release its worker: whatever `release_one` would do, the result and the database are the same.
pub active_work_is_not_released :
    (f : CapacitySnapshot → CapacityDb → Reply × CapacityDb) (m : CapacityManager) (fresh : Fresh)
    (now : ℕ) (db : CapacityDb)
    → 0 < count_eligible_work (m.inspect (observe_work m fresh now db).1).1.jobs m.backend_ids
    → reconcile_manager (releasing_by f m) fresh now db ≡ reconcile_manager m fresh now db
unfolding reconcile_manager observe_work ensure_lease
active_work_is_not_released f m fresh now db h =
    >>=-ext (observe_work m fresh now)
      (λ _. await_inspection m >>= inspected (releasing_by f m) fresh now)
      (λ _. await_inspection m >>= inspected m fresh now) db
      λ _ e. inspected_ignores f m fresh (m.inspect (observe_work m fresh now db).1).0 now _ h
