-- ===== src/Jobs/Completion.antt =====
-- `complete_variation_attempt` of src/ace_service/repository.py.
use audio_ventura.Base.{
  ℕ, ◌+◌, ◌≡◌, refl, sym, subst, ap, ◌∙◌, none, Option, some, String, ok, lookup, viewed,
  lookup-update_self, nat_eq, string_eq, ◌==◌, Bool, not, when, leb, Gives, gives_bind,
  Gives-unless, Gives-known, if◌then◌else◌, ◌>>=◌, ◌>>◌,
}
use audio_ventura.Lifecycle.{JobStatus, completed, status_eq}
use audio_ventura.Jobs.Store.{Job, VariationAttempt, JobStore, require_job, require_attempt, Call}
use audio_ventura.Jobs.Transitions.{transition_variation_attempt, moved_attempt}
use audio_ventura.Jobs.Outcomes.{transition_variation_attempt-written}
use audio_ventura.Jobs.Settled.{job_status, status_of_job}
use audio_ventura.Jobs.Endings.{complete_variation_attempt, complete_job, advance_job, add_note}
use audio_ventura.Jobs.Handing.{
  At, Completed, Done, add_note-jobs, finish-Completed, note-At, place,
}

abbrev after_job : ℕ → Option String → ℕ → VariationAttempt → Job → Call Bool
after_job id note now a j =
    add_note id note
    >> (when (not (a.status == completed)) (transition_variation_attempt id completed now none none)
        >> (if leb j.variation_count a.variation_index
            then complete_job a.job_id j now
            else advance_job a.job_id j (a.variation_index + 1) now))

abbrev after_attempt : ℕ → Option String → ℕ → VariationAttempt → Call Bool
after_attempt id note now a = require_job a.job_id >>= after_job id note now a

-- A move leaves the job and the index of the row as they were.
moved_place :
    {o : Option VariationAttempt} (a c : VariationAttempt)
    → o ≡ some c
    → viewed place o ≡ some (place a)
    → Path
        (Option (String × ℕ × JobStatus))
        (some (c.job_id, c.variation_index, completed))
        (some (a.job_id, a.variation_index, completed))
moved_place a c e p = cc

module _ (id : ℕ) (a : VariationAttempt) (j : Job) (now : ℕ) where
  abbrev Rows : JobStore → Type 0
  Rows s = (lookup id s.attempts ≡ some a) × (lookup a.job_id s.jobs ≡ some j)

  read_attempt : (s : JobStore) → Rows s → require_attempt id s ≡ (ok a, s)
  unfolding require_attempt
  read_attempt s p = rw p.0 refl

  read_job : (s : JobStore) → Rows s → require_job a.job_id s ≡ (ok j, s)
  unfolding require_job
  read_job s p = rw p.1 refl

  abbrev Began : JobStore → Type 0
  Began s = At id (place a) s × (job_status a.job_id s ≡ some j.status)

  move-Done :
      Gives Began
        (when
          (not (a.status == completed))
          (transition_variation_attempt id completed now none none))
        (λ _. Done id a.job_id j a.variation_index now)
  move-Done =
      Gives-unless (a.status == completed)
        (λ b s p. (
          p.0
              ∙ ap (λ st. some (a.job_id, a.variation_index, st))
                  ((status_eq.same_iff a.status completed).0 b),
          p.1,
        ))
        (record {
          gives = λ s u p h.
              let (c, e, w) =
                transition_variation_attempt-written id completed now none none s u h in
              subst (Done id a.job_id j a.variation_index now) (sym w) (
                ap (viewed place)
                      (lookup-update_self id (moved_attempt completed now none none) s.attempts e)
                    ∙ moved_place a c e p.0,
                p.1,
              );
        })

  note-Began : (note : Option String) → Gives Rows (add_note id note) (λ _. Began)
  note-Began note = record {
    gives = λ s u p h. (
      (note-At id (place a) note).kept s (ap (viewed place) p.0),
      ap (λ t. viewed status_of_job (lookup a.job_id t)) (add_note-jobs id note s)
          ∙ ap (viewed status_of_job) p.1,
    );
  }

  complete-gives :
      (note : Option String)
      → Gives Rows
          (complete_variation_attempt id note now)
          (Completed id a.job_id j.variation_count a.variation_index j.status)
  unfolding complete_variation_attempt
  complete-gives note = Gives-known (after_attempt id note now) a read_attempt (
      Gives-known (after_job id note now a) j read_job (
        gives_bind (λ _. Began) (note-Began note)
          (λ _.
            gives_bind (λ _. Done id a.job_id j a.variation_index now) move-Done
              (λ _. finish-Completed id a.job_id j a.variation_index now))))

-- When `complete_variation_attempt` returns on an attempt whose job is there, the attempt is completed;
-- it returns `True` exactly if the attempt's index reaches the job's variation count, and then the job
-- is completed; else the attempt of the next index is there, and the job is generating if it was queued
-- in the cloud, and keeps its status if not.
pub complete_variation_attempt-Completed :
    (id : ℕ) (note : Option String) (now : ℕ) (s : JobStore) (a : VariationAttempt) (j : Job)
    (last : Bool)
    → lookup id s.attempts ≡ some a
    → lookup a.job_id s.jobs ≡ some j
    → (complete_variation_attempt id note now s).0 ≡ ok last
    → Completed id a.job_id j.variation_count a.variation_index j.status last
        (complete_variation_attempt id note now s).1
complete_variation_attempt-Completed id note now s a j last e f h =
    (complete-gives id a j now note).gives s last (e, f) h
