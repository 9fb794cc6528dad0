-- ===== src/Jobs/Handing.antt =====
-- What the end of a variation in src/ace_service/repository.py hands over to: `complete_job` with the last
-- one, and `advance_job` before it.
use audio_ventura.Base.{
  raised, returned, ℕ, ◌+◌, ◌≡◌, ◌⊎◌, refl, sym, subst, ap, ◌∙◌, none, Option, some, String, inl,
  inr, lookup, viewed, viewed-update, viewed-insert, lookup-update_self, nat_eq, string_eq, ◌==◌,
  Bool, Bool-cases, true, false, when, leb, is_empty, Result-cases, Keeps, Keeps-if, Keeps-pure,
  Gives, gives_bind, gives_then, Gives-if, pure, if◌then◌else◌,
}
use audio_ventura.Errors.{Failure}
use audio_ventura.Lifecycle.{JobStatus, completed, generating, cloud_queued, status_eq}
use audio_ventura.Notifications.{EventFields, insert_notification_event}
use audio_ventura.Jobs.Store.{Job, VariationAttempt, JobStore, write_job}
use audio_ventura.Jobs.Transitions.{
  transition_job, create_variation_attempt, moved_job, new_attempt,
}
use audio_ventura.Jobs.Outcomes.{
  create_variation_attempt-cases, create-jobs, transition_job-written, transition_job-attempts,
}
use audio_ventura.Jobs.Settled.{job_status, status_of_job}
use audio_ventura.Jobs.Once.{attempt_key, key_of, find_attempt-insert_new}
use audio_ventura.Jobs.Resubmission.{is_its_own}
use audio_ventura.Jobs.Endings.{
  complete_job, advance_job, add_note, insert_event, noted, cleared, advanced, completed_event,
}

abbrev pub place : VariationAttempt → String × ℕ × JobStatus
place a = (a.job_id, a.variation_index, a.status)

-- The job, the index and the status of an attempt.
abbrev pub attempt_place : ℕ → JobStore → Option (String × ℕ × JobStatus)
attempt_place id s = viewed place (lookup id s.attempts)

module _ (id : ℕ) (w : String × ℕ × JobStatus) where
  abbrev pub At : JobStore → Type 0
  At s = attempt_place id s ≡ some w

  pub note-At : (note : Option String) → Keeps At (add_note id note)
  unfolding add_note
  note-At none = Keeps-pure tt
  note-At (some note) =
      Keeps-if (is_empty note) (Keeps-pure tt)
        (record { kept = λ s p. viewed-update place id id (noted note) s.attempts (λ _. refl) ∙ p })

  job-At :
      (k : String) (status : JobStatus) (now : ℕ) → Keeps At (transition_job k status now none none)
  job-At k status now = record {
    kept = λ s p. rw (transition_job-attempts k status now none none s) p;
  }

  write-At : (k : String) (f : Job → Job) → Keeps At (write_job k f)
  write-At k f = record { kept = λ s p. p }

pub add_note-jobs :
    (id : ℕ) (note : Option String) (s : JobStore) → (add_note id note s).1.jobs ≡ s.jobs
unfolding add_note
add_note-jobs id none s = refl
add_note-jobs id (some note) s = elim (Bool-cases (is_empty note)) [
  | inl b ↦ rw b refl
  | inr b ↦ rw b refl
]

-- The status of a job that goes on to its next variation.
abbrev pub going_on : JobStatus → JobStatus
going_on st = if st == cloud_queued then generating else st

going_on-queued : (st : JobStatus) → (st == cloud_queued) ≡ true → going_on st ≡ generating
going_on-queued st b = rw b refl

going_on-other : (st : JobStatus) → (st == cloud_queued) ≡ false → going_on st ≡ st
going_on-other st b = rw b refl

-- With its last variation the job is completed; before that the next one is there, and the job goes on.
abbrev pub HandedOver : String → ℕ → ℕ → JobStatus → Bool → JobStore → Type 0
HandedOver job_id count index st last s =
    ((last ≡ true) × (leb count index ≡ true) × (job_status job_id s ≡ some completed))
    ⊎ ((last ≡ false)
        × (leb count index ≡ false)
        × ((k : ℕ) × (attempt_key job_id (index + 1) s ≡ some k))
        × (job_status job_id s ≡ some (going_on st)))

-- Behind the completion of an attempt, from the job's count and status before.
abbrev pub Completed : ℕ → String → ℕ → ℕ → JobStatus → Bool → JobStore → Type 0
Completed id job_id count index st last s =
    (attempt_place id s ≡ some (job_id, index, completed)) × HandedOver job_id count index st last s

module _ (id : ℕ) (job_id : String) (j : Job) (index now : ℕ) where
  abbrev Moved : JobStore → Type 0
  Moved = At id (job_id, index, completed)

  abbrev pub Done : JobStore → Type 0
  Done s = Moved s × (job_status job_id s ≡ some j.status)

  abbrev Both : JobStore → Type 0
  Both s = Moved s × (job_status job_id s ≡ some completed)

  write-Done :
      (f : Job → Job) → ((k : Job) → (f k).status ≡ k.status) → Keeps Done (write_job job_id f)
  write-Done f h = record {
    kept = λ s p. (p.0, viewed-update status_of_job job_id job_id f s.jobs h ∙ p.1);
  }

  transition-Both : Gives Done (transition_job job_id completed now none none) (λ _. Both)
  transition-Both = record {
    gives = λ s u p h.
        let (c, e, w) = transition_job-written job_id completed now none none s u h in
        subst Both (sym w) (
          p.0,
          ap (viewed status_of_job)
              (lookup-update_self job_id (moved_job completed now none none) s.jobs e),
        );
  }

  event-Both : (f : EventFields) → Keeps Both (insert_event f)
  unfolding insert_event
  event-Both f = record {
    kept = λ s p. elim (Result-cases (insert_notification_event f s.outbox).0) [
      | inl (_, e) ↦ rw (e, insert_event) p
      | inr (_, e) ↦ rw (e, insert_event) p
    ];
  }

  last-Completed :
      leb j.variation_count index ≡ true
      → Gives {E = Failure} Both (pure true) (Completed id job_id j.variation_count index j.status)
  last-Completed b = record { gives = λ s r p h. (p.0, inl (sym (returned refl h), b, p.1)) }

  complete_job-Completed :
      leb j.variation_count index ≡ true
      → Gives Done
          (complete_job job_id j now)
          (Completed id job_id j.variation_count index j.status)
  unfolding complete_job
  complete_job-Completed b = gives_then (write-Done cleared (λ _. refl)) (
      gives_bind (λ _. Both) transition-Both
        (λ _. gives_then (event-Both (completed_event job_id j now)) (last-Completed b)))

  -- The attempt of the next index is there.
  abbrev HasNext : JobStore → Type 0
  HasNext s = Moved s × ((k : ℕ) × (attempt_key job_id (index + 1) s ≡ some k))

  abbrev Next : JobStore → Type 0
  Next s = HasNext s × (job_status job_id s ≡ some j.status)

  create-HasNext : Gives Moved (create_variation_attempt job_id (index + 1) now) (λ _. HasNext)
  create-HasNext = record {
    gives = λ s u p h. elim (create_variation_attempt-cases job_id (index + 1) now s) [
      | inl (x, c) ↦ raised (ap (λ y. y.0) c) h
      | inr (inl (k, a, f, c)) ↦ subst (λ y. HasNext y.1) (sym c) (p, (k, ap (viewed key_of) f))
      | inr (inr (job, f, c)) ↦
          subst (λ y. HasNext y.1) (sym c)
            (
              viewed-insert place s.next_attempt_id id (new_attempt job_id (index + 1) job now)
                  s.attempts p,
              (
                s.next_attempt_id,
                find_attempt-insert_new job_id (index + 1) s.next_attempt_id
                    (new_attempt job_id (index + 1) job now) s.attempts f
                    (is_its_own job_id (index + 1) job now),
              ),
            )
    ];
  }

  create-Next : Gives Done (create_variation_attempt job_id (index + 1) now) (λ _. Next)
  create-Next = record {
    gives = λ s u p h. (
      create-HasNext.gives s u p.0 h,
      ap (λ t. viewed status_of_job (lookup job_id t)) (create-jobs job_id (index + 1) now s) ∙ p.1,
    );
  }

  abbrev GoingOn : JobStore → Type 0
  GoingOn s = HasNext s × (job_status job_id s ≡ some (going_on j.status))

  move-GoingOn :
      Gives Next
        (when (j.status == cloud_queued) (transition_job job_id generating now none none))
        (λ _. GoingOn)
  move-GoingOn = elim (Bool-cases (j.status == cloud_queued)) [
    | inr b ↦
        rw b (record { gives = λ s u p h. (p.0, p.1 ∙ ap some (sym (going_on-other j.status b))) })
    | inl b ↦ rw b (record {
      gives = λ s u p h.
          let (c, e, w) = transition_job-written job_id generating now none none s u h in
          subst GoingOn (sym w) (
            p.0,
            ap (viewed status_of_job)
                  (lookup-update_self job_id (moved_job generating now none none) s.jobs e)
                ∙ ap some (sym (going_on-queued j.status b)),
          );
    })
  ]

  write-GoingOn :
      (f : Job → Job) → ((k : Job) → (f k).status ≡ k.status) → Keeps GoingOn (write_job job_id f)
  write-GoingOn f h = record {
    kept = λ s p. (p.0, viewed-update status_of_job job_id job_id f s.jobs h ∙ p.1);
  }

  handed-Completed :
      leb j.variation_count index ≡ false
      → Gives {E = Failure} GoingOn
          (pure false)
          (Completed id job_id j.variation_count index j.status)
  handed-Completed b = record {
    gives = λ s r p h. (p.0.0, inr (sym (returned refl h), b, p.0.1, p.1));
  }

  advance_job-Completed :
      leb j.variation_count index ≡ false
      → Gives Done
          (advance_job job_id j (index + 1) now)
          (Completed id job_id j.variation_count index j.status)
  unfolding advance_job
  advance_job-Completed b =
      gives_bind (λ _. Next) create-Next
        (λ _.
          gives_bind (λ _. GoingOn) move-GoingOn
            (λ _.
              gives_then (write-GoingOn (advanced (index + 1) now) (λ _. refl))
                (handed-Completed b)))

  pub finish-Completed :
      Gives Done
        (if leb j.variation_count index
          then complete_job job_id j now
          else advance_job job_id j (index + 1) now)
        (Completed id job_id j.variation_count index j.status)
  finish-Completed =
      Gives-if (leb j.variation_count index) complete_job-Completed advance_job-Completed
