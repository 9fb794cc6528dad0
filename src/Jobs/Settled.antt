-- ===== src/Jobs/Settled.antt =====
-- Terminal statuses of jobs and attempts of src/ace_service/repository.py.
use audio_ventura.Base.{
  ℕ, ◌≡◌, refl, sym, subst, none, Option, some, List, String, inl, inr, lookup, viewed,
  viewed-update, viewed-update_row, viewed-insert, nat_eq, string_eq, true, Keeps, ap, ◌∙◌,
  Bool-cases, map_row, lookup-map_rows, arith,
}
use audio_ventura.Lifecycle.{JobStatus, is_terminal, cloud_queued, status_eq}
use audio_ventura.Lifecycle.Graph.{terminal_absorbs, validate_variation_transition-job}
use audio_ventura.Jobs.Store.{Job, VariationAttempt, JobStore, write_job, write_attempt}
use audio_ventura.Jobs.Transitions.{
  transition_job, transition_variation_attempt, create_variation_attempt, moved_job, moved_attempt,
  new_attempt,
}
use audio_ventura.Jobs.Submission.{submitting_job, submitting_attempt}
use audio_ventura.Jobs.Uncertain.{recovered_job, is_uncertain, recover_rows}
use audio_ventura.Jobs.Outcomes.{
  transition_job-cases, transition_variation_attempt-cases, create_variation_attempt-cases,
  create-jobs, transition_attempt-jobs, transition_job-attempts,
}
use audio_ventura.Jobs.Calls.{JobCall, run_calls, Kept}
use audio_ventura.Jobs.Kept.{run_calls-keeps, commit_submission-Keeps}

abbrev pub status_of_job : Job → JobStatus
status_of_job j = j.status

abbrev status_of_attempt : VariationAttempt → JobStatus
status_of_attempt a = a.status

abbrev pub job_status : String → JobStore → Option JobStatus
job_status job_id s = viewed status_of_job (lookup job_id s.jobs)

abbrev pub attempt_status : ℕ → JobStore → Option JobStatus
attempt_status id s = viewed status_of_attempt (lookup id s.attempts)

status-some : {a b : JobStatus} → some a ≡ some b → a ≡ b
status-some h = cc

module _ (job_id : String) (st : JobStatus) (d : is_terminal st ≡ true) where
  abbrev JobSettled : JobStore → Type 0
  JobSettled s = job_status job_id s ≡ some st

  transition_job-settled :
      (id : String) (status : JobStatus) (now : ℕ) (code error : Option String)
      → Keeps JobSettled (transition_job id status now code error)
  transition_job-settled id status now code error = record {
    kept = λ s p. elim (transition_job-cases id status now code error s) [
      | inl c ↦ subst JobSettled (sym c) p
      | inr (j, e, v, c) ↦ subst JobSettled (sym c) (
          viewed-update_row status_of_job id job_id (moved_job status now code error) s.jobs e
            (λ q. terminal_absorbs st status d (rw q at v)) p)
    ];
  }

  write_job-settled :
      (id : String) (f : Job → Job)
      → ((j : Job) → (f j).status ≡ j.status)
      → Keeps JobSettled (write_job id f)
  write_job-settled id f h = record {
    kept = λ s p. rw (viewed-update status_of_job id job_id f s.jobs h) p;
  }

  transition_attempt-settled :
      (id : ℕ) (status : JobStatus) (now : ℕ) (code error : Option String)
      → Keeps JobSettled (transition_variation_attempt id status now code error)
  transition_attempt-settled id status now code error = record {
    kept = λ s p. rw (transition_attempt-jobs id status now code error s) p;
  }

  -- A job that is cloud-queued is not at its end.
  recovered-settled : (now : ℕ) (j : Job) → j.status ≡ st → (recovered_job now j).status ≡ j.status
  recovered-settled now j e = elim (Bool-cases (is_uncertain j)) [
    | inr b ↦ rw b refl
    | inl b ↦
        let q : j.status ≡ cloud_queued =
          (status_eq.same_iff j.status cloud_queued).0 (ground (arith, b)) in
        cc (rw (sym e ∙ q) at d)
  ]

  viewed-recovered :
      (now : ℕ) (o : Option Job)
      → viewed status_of_job o ≡ some st
      → viewed status_of_job (map_row (recovered_job now) o) ≡ some st
  viewed-recovered now none p = p
  viewed-recovered now (some j) p = ap some (recovered-settled now j (status-some p)) ∙ p

  recovery-settled : (now : ℕ) → Keeps JobSettled (recover_rows now)
  recovery-settled now = record {
    kept = λ s p.
        ap (viewed status_of_job) (lookup-map_rows (recovered_job now) job_id s.jobs)
        ∙ viewed-recovered now (lookup job_id s.jobs) p;
  }

  JobSettled-Kept : Kept JobSettled
  JobSettled-Kept = record {
    by_transition_job = transition_job-settled;
    by_transition_attempt = transition_attempt-settled;
    by_create = λ j i now. record { kept = λ s p. rw (create-jobs j i now s) p };
    by_write_job = write_job-settled;
    by_write_attempt = λ id f h. record { kept = λ s p. p };
    by_submission = λ r id job now a s e n p.
        (commit_submission-Keeps r id now job
            (transition_attempt-settled id cloud_queued now none none)
            (transition_job-settled r.job_id cloud_queued now none none)
            (write_job-settled r.job_id (submitting_job r now) (λ j. refl))
            (record { kept = λ s p. p })).kept
          s p;
    by_recovery = recovery-settled;
    by_other_tables = λ transfers outbox s p. p;
  }

  -- A job in a terminal status keeps that status whatever sequence of the calls of `JobCall` follows:
  -- transitions, creations of attempts, submissions of variations and the references of submissions,
  -- completions, failures, cancellations, and the recovery of uncertain jobs. The submission of a whole
  -- job by `prepare_runpod_submission` is not among them.
  pub terminal_job_is_final :
      (cs : List JobCall) (s : JobStore)
      → job_status job_id s ≡ some st
      → job_status job_id (run_calls cs s) ≡ some st
  terminal_job_is_final cs s p = run_calls-keeps JobSettled-Kept cs s p

module _ (id : ℕ) (st : JobStatus) (d : is_terminal st ≡ true) where
  abbrev AttemptSettled : JobStore → Type 0
  AttemptSettled s = attempt_status id s ≡ some st

  attempt-settled :
      (k : ℕ) (status : JobStatus) (now : ℕ) (code error : Option String)
      → Keeps AttemptSettled (transition_variation_attempt k status now code error)
  attempt-settled k status now code error = record {
    kept = λ s p. elim (transition_variation_attempt-cases k status now code error s) [
      | inl c ↦ subst AttemptSettled (sym c) p
      | inr (a, e, v, c) ↦ subst AttemptSettled (sym c) (
          viewed-update_row status_of_attempt k id (moved_attempt status now code error) s.attempts
            e
            (λ q.
              terminal_absorbs st status d
                (validate_variation_transition-job st status (rw q at v)))
            p)
    ];
  }

  create-settled :
      (job_id : String) (index now : ℕ)
      → Keeps AttemptSettled (create_variation_attempt job_id index now)
  create-settled job_id index now = record {
    kept = λ s p. elim (create_variation_attempt-cases job_id index now s) [
      | inl (x, c) ↦ subst (λ r. AttemptSettled r.1) (sym c) p
      | inr (inl (k, a, f, c)) ↦ subst (λ r. AttemptSettled r.1) (sym c) p
      | inr (inr (job, f, c)) ↦
          subst (λ r. AttemptSettled r.1) (sym c)
            (viewed-insert status_of_attempt s.next_attempt_id id (new_attempt job_id index job now)
              s.attempts p)
    ];
  }

  job-settled :
      (k : String) (status : JobStatus) (now : ℕ) (code error : Option String)
      → Keeps AttemptSettled (transition_job k status now code error)
  job-settled k status now code error = record {
    kept = λ s p. rw (transition_job-attempts k status now code error s) p;
  }

  write_attempt-settled :
      (k : ℕ) (f : VariationAttempt → VariationAttempt)
      → ((a : VariationAttempt) → (f a).status ≡ a.status)
      → Keeps AttemptSettled (write_attempt k f)
  write_attempt-settled k f h = record {
    kept = λ s p. rw (viewed-update status_of_attempt k id f s.attempts h) p;
  }

  AttemptSettled-Kept : Kept AttemptSettled
  AttemptSettled-Kept = record {
    by_transition_job = job-settled;
    by_transition_attempt = attempt-settled;
    by_create = create-settled;
    by_write_job = λ k f h. record { kept = λ s p. p };
    by_write_attempt = λ k f h. write_attempt-settled k f h.same_status;
    by_submission = λ r k job now a s e n p.
        (commit_submission-Keeps r k now job (attempt-settled k cloud_queued now none none)
            (job-settled r.job_id cloud_queued now none none) (record { kept = λ s p. p })
            (write_attempt-settled k (submitting_attempt r job now) (λ a. refl))).kept
          s p;
    by_recovery = λ now. record { kept = λ s p. p };
    by_other_tables = λ transfers outbox s p. p;
  }

  -- A variation attempt in a terminal status keeps that status whatever sequence of the calls of
  -- `JobCall` follows.
  pub terminal_attempt_is_final :
      (cs : List JobCall) (s : JobStore)
      → attempt_status id s ≡ some st
      → attempt_status id (run_calls cs s) ≡ some st
  terminal_attempt_is_final cs s p = run_calls-keeps AttemptSettled-Kept cs s p
