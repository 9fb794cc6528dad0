-- ===== src/Jobs/Resubmission.antt =====
-- What `prepare_variation_submission` of src/ace_service/repository.py leaves behind.
use audio_ventura.Base.{
  raised, returned, ℕ, ◌≡◌, refl, sym, subst, ap, ◌∙◌, none, Option, some, List, [], ◌∷◌, String,
  ok, err, inl, inr, lookup, viewed, viewed-update, lookup-update_self, nat_eq, string_eq, ◌==◌,
  ==_refl, Option-cases, Bool, true, ◌&&◌, not, Keeps, Keeps-if, Keeps-raise_if, Gives, gives_bind,
  gives_then, pure,
}
use audio_ventura.Errors.{Failure, value_error}
use audio_ventura.Lifecycle.{
  JobStatus, cloud_queued, generating, queued, staging, status_eq, status_in,
}
use audio_ventura.Jobs.Store.{
  Job, VariationAttempt, JobStore, is_attempt_of, write_job, write_attempt, require_attempt,
}
use audio_ventura.Jobs.Transitions.{
  transition_job, transition_variation_attempt, create_variation_attempt, moved_attempt,
  new_attempt,
}
use audio_ventura.Jobs.Submission.{
  SubmissionRequest, commit_submission, submitting_job, submitting_attempt,
  prepare_variation_submission, chosen_nonce, check_submission, queue_job,
}
use audio_ventura.Jobs.Outcomes.{
  transition_variation_attempt-cases, create_variation_attempt-cases, require_attempt-cases,
  transition_job-attempts,
}
use audio_ventura.Jobs.Calls.{JobCall, run_calls}
use audio_ventura.Jobs.Kept.{run_calls-keeps}
use audio_ventura.Jobs.Guards.{check_submission-cases}
use audio_ventura.Jobs.Once.{
  key_of, nonce_of, attempt_key, attempt_nonce, Submitted, Submitted-Kept, find_attempt-update,
  find_attempt-insert_new,
}
use audio_ventura.Jobs.Refusal.{Refused, prepare-Refused}

abbrev present : VariationAttempt → Bool
present a = true

pub is_its_own :
    (job_id : String) (index : ℕ) (job : Job) (now : ℕ)
    → is_attempt_of job_id index (new_attempt job_id index job now) ≡ true
is_its_own job_id index job now = rw (==_refl job_id, ==_refl index) refl

absent {ℓ} :
    {o : Option VariationAttempt} {B : Type ℓ} → o ≡ none → viewed present o ≡ some true → B
absent n h = cc

module _ (r : SubmissionRequest) (now : ℕ) where
  abbrev Anything : JobStore → Type 0
  Anything s = Unit

  -- The attempt's row is there, under its key.
  abbrev Found : ℕ → JobStore → Type 0
  Found id s =
      (attempt_key r.job_id r.variation_index s ≡ some id)
      × (viewed present (lookup id s.attempts) ≡ some true)

  create-Found :
      Gives Anything
        (create_variation_attempt r.job_id r.variation_index now)
        (λ id s. attempt_key r.job_id r.variation_index s ≡ some id)
  create-Found = record {
    gives = λ s id p e. elim (create_variation_attempt-cases r.job_id r.variation_index now s) [
      | inl (x, c) ↦ raised (ap (λ y. y.0) c) e
      | inr (inl (k, a, f, c)) ↦
          rw (ap (λ y. y.1) c) (ap (viewed key_of) f ∙ ap some (returned (ap (λ y. y.0) c) e))
      | inr (inr (job, f, c)) ↦ rw (ap (λ y. y.1) c) (
          find_attempt-insert_new r.job_id r.variation_index s.next_attempt_id
            (new_attempt r.job_id r.variation_index job now) s.attempts f
            (is_its_own r.job_id r.variation_index job now)
          ∙ ap some (returned (ap (λ y. y.0) c) e))
    ];
  }

  require_attempt-Found :
      (id : ℕ)
      → Gives
          (λ s. attempt_key r.job_id r.variation_index s ≡ some id)
          (require_attempt id)
          (λ _. Found id)
  require_attempt-Found id = record {
    gives = λ s a p e. elim (require_attempt-cases id s) [
      | inl c ↦ raised (ap (λ y. y.0) c) e
      | inr (b, f, c) ↦ subst (λ y. Found id y.1) (sym c) (p, ap (viewed present) f)
    ];
  }

  check-Found :
      (id : ℕ) (job : Job) (a : VariationAttempt) → Keeps (Found id) (check_submission r job a)
  check-Found id job a = record {
    kept = λ s p. elim (check_submission-cases r job a s) [
      | inl (n, c) ↦ subst (λ y. Found id y.1) (sym c) p
      | inr (x, c) ↦ subst (λ y. Found id y.1) (sym c) p
    ];
  }

  job-Found :
      (id : ℕ) (k : String) (status : JobStatus)
      → Keeps (Found id) (transition_job k status now none none)
  job-Found id k status = record {
    kept = λ s p. rw (transition_job-attempts k status now none none s) p;
  }

  attempt-Found :
      (id : ℕ) (status : JobStatus)
      → Keeps (Found id) (transition_variation_attempt id status now none none)
  attempt-Found id status = record {
    kept = λ s p. elim (transition_variation_attempt-cases id status now none none s) [
      | inl c ↦ subst (Found id) (sym c) p
      | inr (a, e, v, c) ↦ subst (Found id) (sym c) (
        find_attempt-update r.job_id r.variation_index id (moved_attempt status now none none)
              s.attempts (λ _. refl) (λ _. refl)
            ∙ p.0,
        viewed-update present id id (moved_attempt status now none none) s.attempts (λ _. refl)
            ∙ p.1,
      )
    ];
  }

  queue_job-Found : (id : ℕ) (job : Job) → Keeps (Found id) (queue_job r.job_id job.status now)
  unfolding queue_job
  queue_job-Found id job =
      Keeps-if (status_in job.status (queued ∷ staging ∷ [])) (job-Found id r.job_id cloud_queued) (
        Keeps-raise_if (not (job.status == generating) && not (job.status == cloud_queued))
          (value_error "job is not ready for cloud submission"))

  -- The last write puts the nonce in the row that was found.
  write-Submitted :
      (id : ℕ) (job : Job)
      → Gives
          (Found id)
          (write_attempt id (submitting_attempt r job now))
          (λ _. Submitted r.job_id r.variation_index id (chosen_nonce r))
  write-Submitted id job = record {
    gives = λ s u p e. (
      find_attempt-update r.job_id r.variation_index id (submitting_attempt r job now) s.attempts
            (λ _. refl) (λ _. refl)
          ∙ p.0,
      elim (Option-cases (lookup id s.attempts)) [
        | inl n ↦ absent n p.1
        | inr (a, f) ↦
            ap (viewed nonce_of) (lookup-update_self id (submitting_attempt r job now) s.attempts f)
      ],
    );
  }

  commit-Submitted :
      (id : ℕ) (job : Job)
      → Gives
          (Found id)
          (commit_submission r id job now)
          (λ _. Submitted r.job_id r.variation_index id (chosen_nonce r))
  unfolding commit_submission
  commit-Submitted id job = gives_then (attempt-Found id cloud_queued) (
      gives_then (queue_job-Found id job) (
        gives_then {m = write_job r.job_id (submitting_job r now)} (record { kept = λ s p. p })
          (write-Submitted id job)))

  IsSubmitted : ℕ × String → JobStore → Type 0
  IsSubmitted x s = Submitted r.job_id r.variation_index x.0 x.1 s

  return-Submitted :
      (id : ℕ)
      → Gives {E = Failure}
          (Submitted r.job_id r.variation_index id (chosen_nonce r))
          (pure (id, chosen_nonce r))
          IsSubmitted
  unfolding IsSubmitted
  return-Submitted id = record {
    gives =
        λ s x p e. subst (λ y. Submitted r.job_id r.variation_index y.0 y.1 s) (returned refl e) p;
  }

  prepare-Submitted : Gives Anything (prepare_variation_submission r now) IsSubmitted
  unfolding prepare_variation_submission
  prepare-Submitted =
      gives_bind (λ _. Anything) (record { gives = λ s a p e. tt })
        (λ job.
          gives_bind (λ id s. attempt_key r.job_id r.variation_index s ≡ some id) create-Found
            (λ id.
              gives_bind (λ _. Found id) (require_attempt-Found id)
                (λ a. gives_then (check-Found id job a) (
                  gives_bind (λ _. Submitted r.job_id r.variation_index id (chosen_nonce r))
                    (commit-Submitted id job) (λ _. return-Submitted id)))))

-- Once a submission has returned, whatever sequence of the calls of `JobCall` follows, the attempt
-- that it took keeps its nonce, and a later submission of the same variation raises and writes
-- nothing.
pub submitted_once :
    (r : SubmissionRequest) (now : ℕ) (s : JobStore) (id : ℕ) (nonce : String)
    → (prepare_variation_submission r now s).0 ≡ ok (id, nonce)
    → (cs : List JobCall) (q : SubmissionRequest) (later : ℕ) → q.job_id ≡ r.job_id
    → q.variation_index ≡ r.variation_index
    → (attempt_nonce id (run_calls cs (prepare_variation_submission r now s).1) ≡ some (some nonce))
      × ((x : Failure) × (prepare_variation_submission q later
              (run_calls cs (prepare_variation_submission r now s).1)
            ≡ (err x, run_calls cs (prepare_variation_submission r now s).1)))
unfolding IsSubmitted Refused
submitted_once r now s id nonce e cs q later hj hi =
    let p =
      run_calls-keeps (Submitted-Kept r.job_id r.variation_index id nonce) cs
        (prepare_variation_submission r now s).1
        ((prepare-Submitted r now).gives s (id, nonce) tt e) in
    (
      p.1,
      prepare-Refused q later id nonce (run_calls cs (prepare_variation_submission r now s).1)
          (rw (hj, hi) p),
    )
