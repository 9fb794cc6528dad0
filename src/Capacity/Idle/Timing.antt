-- ===== src/Capacity/Idle/Timing.antt =====
-- The timing of `_idle_progress` of src/ace_service/capacity/controller.py.
use audio_ventura.Base.{ℕ, ◌<◌, ◌≡◌, ◌⊎◌, inl, inr, String, nat_eq, or_else, ok, arith, >>=-ext}
use audio_ventura.Capacity.Leases.{CapacityLease}
use audio_ventura.Capacity.Manager.{CapacitySnapshot, CapacityDb, Reply, CapacityManager}
use audio_ventura.Capacity.Actions.{transaction}
use audio_ventura.Capacity.Idle.{Fresh, in_epoch, idle_notices, idle_decision, idle_progress}

-- The manager with another way to release a worker.
abbrev pub releasing_by :
    (CapacitySnapshot → CapacityDb → Reply × CapacityDb) → CapacityManager → CapacityManager
releasing_by f m = record m { release_one = f }

-- The due time of a lease that idles.
abbrev pub due_time : ℕ → ℕ → CapacityLease → ℕ
due_time keep_warm now lease = or_else (in_epoch keep_warm now "" lease).release_due_at now

due-idle_notices :
    (key : String) (fresh : Fresh) (lease : CapacityLease) (snapshot : CapacitySnapshot)
    (keep_warm now : ℕ) (db : CapacityDb) (l : CapacityLease)
    → (transaction (idle_notices key fresh lease snapshot keep_warm now) db).0 ≡ ok l
    → or_else l.release_due_at now ≡ due_time keep_warm now lease
unfolding idle_notices
due-idle_notices key fresh lease snapshot keep_warm now db l h = ground arith

idle_decision_ignores :
    (f : CapacitySnapshot → CapacityDb → Reply × CapacityDb) (m : CapacityManager) (fresh : Fresh)
    (lease : CapacityLease) (snapshot : CapacitySnapshot) (due now : ℕ) (db : CapacityDb)
    → (now < due) ⊎ (0 < snapshot.provider_active_jobs)
    → idle_decision (releasing_by f m) fresh lease snapshot due now db
      ≡ idle_decision m fresh lease snapshot due now db
unfolding idle_decision
idle_decision_ignores f m fresh lease snapshot due now db (inl early) = ground arith
idle_decision_ignores f m fresh lease snapshot due now db (inr work) = ground arith

-- Before the release is due, and while the provider reports active jobs, an idle lease progresses
-- without asking the provider for a release: whatever `release_one` would do, the result and the
-- database are the same.
pub release_waits :
    (f : CapacitySnapshot → CapacityDb → Reply × CapacityDb) (m : CapacityManager) (fresh : Fresh)
    (lease : CapacityLease) (snapshot : CapacitySnapshot) (keep_warm now : ℕ) (db : CapacityDb)
    → (now < due_time keep_warm now lease) ⊎ (0 < snapshot.provider_active_jobs)
    → idle_progress (releasing_by f m) fresh lease snapshot keep_warm now db
      ≡ idle_progress m fresh lease snapshot keep_warm now db
unfolding idle_progress
release_waits f m fresh lease snapshot keep_warm now db h =
    >>=-ext (transaction (idle_notices m.key fresh lease snapshot keep_warm now))
      (λ l. idle_decision (releasing_by f m) fresh l snapshot (or_else l.release_due_at now) now)
      (λ l. idle_decision m fresh l snapshot (or_else l.release_due_at now) now) db
      λ l e.
        idle_decision_ignores f m fresh l snapshot (or_else l.release_due_at now) now _
          (rw (due-idle_notices m.key fresh lease snapshot keep_warm now db l e) h)
