-- ===== src/Jobs/Kept.antt =====
-- The calls of src/ace_service/repository.py in Jobs.Calls, taken apart into their writes.
use audio_ventura.Base.{
  ℕ, ◌+◌, ◌≡◌, refl, sym, subst, after, none, Option, some, List, [], ◌∷◌, String, inl, inr,
  Option-cases, Result-cases, lookup, nat_eq, string_eq, option_eq, Keeps, Keeps-bind, Keeps-when,
  Keeps-raise_if, Keeps-then, Keeps-read, Keeps-pure, Keeps-gets, ◌>>◌, Keeps-if, pure, ◌>>=◌, not,
  ◌&&◌, is_empty, ◌||◌, longer_than, ◌==◌, leb, true, false,
}
use audio_ventura.Errors.{key_error, value_error}
use audio_ventura.Lifecycle.{
  completed, failed, queued, staging, status_in, cancelled, generating, cloud_queued, status_eq,
  is_terminal,
}
use audio_ventura.Providers.{provider_eq}
use audio_ventura.Notifications.{EventFields, insert_notification_event}
use audio_ventura.Transfers.{revoke_rows}
use audio_ventura.Jobs.Store.{
  CancelOutcome, Job, VariationAttempt, JobStore, ProviderJobRef, write_job, write_attempt,
  require_job, require_attempt, Call, get_variation_attempt,
}
use audio_ventura.Jobs.Transitions.{transition_job, transition_variation_attempt}
use audio_ventura.Jobs.Submission.{
  SubmissionRequest, prepare_variation_submission, commit_submission, queue_job, submitting_job,
  submitting_attempt, check_submission, chosen_nonce, bad_ref, differs,
  persist_variation_provider_job_ref, referenced_attempt, referenced_job,
}
use audio_ventura.Jobs.Endings.{
  variation_of, complete_variation_attempt, complete_job, advance_job, add_note, insert_event,
  noted, cleared, advanced, fail_variation_attempt, request_job_cancellation, is_cancelled,
  cancel_message, finalize_job_cancellation, cancel_rows, cancel_attempt, revoke_active_transfers,
  cancel_requested, cancel_settled, touched, cancel_is_over,
}
use audio_ventura.Jobs.Outcomes.{require_attempt-cases}
use audio_ventura.Jobs.Guards.{check_submission-cases}
use audio_ventura.Jobs.Uncertain.{
  persist_runpod_job_id, with_runpod_id, uncertain_ids, recover_uncertain_submissions,
}
use audio_ventura.Jobs.Calls.{JobCall, run_call, run_calls, Kept}

-- The writes of a submission, and what it returns.
abbrev submit : SubmissionRequest → ℕ → ℕ → Job → Call (ℕ × String)
submit r id now job = commit_submission r id job now >> pure (id, chosen_nonce r)

module _ {P : JobStore → Type 0} (k : Kept P) where
  require_job-Keeps : (job_id : String) → Keeps P (require_job job_id)
  unfolding require_job
  require_job-Keeps job_id = record {
    kept =
        λ s p. elim (Option-cases (lookup job_id s.jobs)) [ inl e ↦ rw e p | inr (j, e) ↦ rw e p ];
  }

  require_attempt-Keeps : (id : ℕ) → Keeps P (require_attempt id)
  unfolding require_attempt
  require_attempt-Keeps id = record {
    kept =
        λ s p. elim (Option-cases (lookup id s.attempts)) [ inl e ↦ rw e p | inr (a, e) ↦ rw e p ];
  }

  insert_event-Keeps : (f : EventFields) → Keeps P (insert_event f)
  unfolding insert_event
  insert_event-Keeps f = record {
    kept = λ s p. elim (Result-cases (insert_notification_event f s.outbox).0) [
      | inl (_, e) ↦
          rw (e, insert_event)
            (k.by_other_tables s.transfers (insert_notification_event f s.outbox).1 s p)
      | inr (_, e) ↦
          rw (e, insert_event)
            (k.by_other_tables s.transfers (insert_notification_event f s.outbox).1 s p)
    ];
  }

  complete_job-Keeps :
      (job_id : String) (job : Job) (now : ℕ) → Keeps P (complete_job job_id job now)
  unfolding complete_job
  complete_job-Keeps job_id job now = Keeps-then (k.by_write_job job_id cleared (λ j. refl)) (
      Keeps-then (k.by_transition_job job_id completed now none none)
        (Keeps-then (insert_event-Keeps _) (Keeps-pure true)))

  advance_job-Keeps :
      (job_id : String) (job : Job) (next now : ℕ) → Keeps P (advance_job job_id job next now)
  unfolding advance_job
  advance_job-Keeps job_id job next now = Keeps-then (k.by_create job_id next now) (
      Keeps-then
        (Keeps-when (job.status == cloud_queued)
          (k.by_transition_job job_id generating now none none))
        (Keeps-then (k.by_write_job job_id (advanced next now) (λ j. refl)) (Keeps-pure false)))

  add_note-Keeps : (id : ℕ) (note : Option String) → Keeps P (add_note id note)
  unfolding add_note
  add_note-Keeps id none = Keeps-pure tt
  add_note-Keeps id (some note) = Keeps-if (is_empty note) (Keeps-pure tt) (
      k.by_write_attempt id (noted note) (record {
        same_job = λ a. refl;
        same_index = λ a. refl;
        same_status = λ a. refl;
        same_nonce = λ a. refl;
      }))

  complete_variation_attempt-Keeps :
      (id : ℕ) (note : Option String) (now : ℕ) → Keeps P (complete_variation_attempt id note now)
  unfolding complete_variation_attempt
  complete_variation_attempt-Keeps id note now = Keeps-bind (require_attempt-Keeps id) (λ a.
      Keeps-bind (require_job-Keeps a.job_id) (λ job. Keeps-then (add_note-Keeps id note) (
        Keeps-then
          (Keeps-when (not (a.status == completed))
            (k.by_transition_attempt id completed now none none))
          (Keeps-if (leb job.variation_count a.variation_index)
            (complete_job-Keeps a.job_id job now)
            (advance_job-Keeps a.job_id job (a.variation_index + 1) now)))))

  fail_variation_attempt-Keeps :
      (id : ℕ) (code error : String) (now : ℕ) → Keeps P (fail_variation_attempt id code error now)
  unfolding fail_variation_attempt
  fail_variation_attempt-Keeps id code error now = Keeps-bind (require_attempt-Keeps id) (λ a.
      Keeps-then
        (Keeps-when (not (a.status == failed))
          (k.by_transition_attempt id failed now (some code) (some error)))
        (Keeps-bind (require_job-Keeps a.job_id) (λ job.
          Keeps-when (not (job.status == failed))
            (k.by_transition_job a.job_id failed now (some code) (some error)))))

  request_job_cancellation-Keeps :
      (job_id : String) (now : ℕ) → Keeps P (request_job_cancellation job_id now)
  unfolding request_job_cancellation
  request_job_cancellation-Keeps job_id now = Keeps-bind (require_job-Keeps job_id) (λ job.
      Keeps-then (Keeps-raise_if (is_terminal job.status) (value_error "job is already terminal")) (
        Keeps-then
          (Keeps-raise_if (cancel_is_over job.cancel_outcome)
            (value_error "cancellation is no longer available for this job"))
          (k.by_write_job job_id (cancel_requested now) (λ j. refl))))

  cancel_attempt-Keeps :
      (now : ℕ) (error : String) (o : Option (ℕ × VariationAttempt))
      → Keeps P (cancel_attempt now error o)
  unfolding cancel_attempt
  cancel_attempt-Keeps now error none = Keeps-pure tt
  cancel_attempt-Keeps now error (some (id, a)) =
      Keeps-when (not (is_terminal a.status))
        (k.by_transition_attempt id cancelled now (some "cancelled") (some error))

  revoke-Keeps : (job_id : String) (now : ℕ) → Keeps P (revoke_active_transfers job_id now)
  revoke-Keeps job_id now = record {
    kept = λ s p. k.by_other_tables (revoke_rows job_id now s.transfers) s.outbox s p;
  }

  cancel_rows-Keeps :
      (job_id : String) (job : Job) (message : String) (now : ℕ)
      → Keeps P (cancel_rows job_id job message now)
  unfolding cancel_rows
  cancel_rows-Keeps job_id job message now =
      Keeps-bind (Keeps-gets (get_variation_attempt job_id (variation_of job.current_variation)))
        (λ o. Keeps-then (cancel_attempt-Keeps now message o) (
          Keeps-then
            (Keeps-when (not (is_terminal job.status))
              (k.by_transition_job job_id cancelled now (some "cancelled") (some message)))
            (revoke-Keeps job_id now)))

  finalize_job_cancellation-Keeps :
      (job_id : String) (outcome : CancelOutcome) (error : Option String) (now : ℕ)
      → Keeps P (finalize_job_cancellation job_id outcome error now)
  unfolding finalize_job_cancellation
  finalize_job_cancellation-Keeps job_id outcome error now =
      Keeps-bind (require_job-Keeps job_id) (λ job.
        Keeps-then (k.by_write_job job_id (cancel_settled outcome now) (λ j. refl)) (
          Keeps-if (is_cancelled outcome) (cancel_rows-Keeps job_id job (cancel_message error) now)
            (k.by_write_job job_id (touched now) (λ j. refl))))

  persist-Keeps :
      (id : ℕ) (ref : ProviderJobRef) (nonce : String) (now : ℕ)
      → Keeps P (persist_variation_provider_job_ref id ref nonce now)
  unfolding persist_variation_provider_job_ref
  persist-Keeps id ref nonce now = Keeps-bind (require_attempt-Keeps id) (λ a.
      Keeps-bind (require_job-Keeps a.job_id) (λ job.
        Keeps-then
          (Keeps-raise_if (not (a.submission_nonce == some nonce))
            (value_error "submission nonce does not match the pending variation"))
          (Keeps-then
            (Keeps-raise_if (bad_ref ref job a)
              (value_error "provider reference does not match persisted provider"))
            (Keeps-then
              (Keeps-raise_if (differs a.provider_job_id ref.external_id)
                (value_error "variation already has a different provider job ID"))
              (Keeps-then
                (k.by_write_attempt id (referenced_attempt ref now) (record {
                  same_job = λ a. refl;
                  same_index = λ a. refl;
                  same_status = λ a. refl;
                  same_nonce = λ a. refl;
                }))
                (k.by_write_job a.job_id (referenced_job ref now) (λ j. refl)))))))

  committed-keeps :
      (r : SubmissionRequest) (job : Job) (id now : ℕ) (a : VariationAttempt) (s : JobStore)
      → lookup id s.attempts ≡ some a
      → a.submission_nonce ≡ none
      → P s
      → P (submit r id now job s).1
  committed-keeps r job id now a s e n p =
      elim (Result-cases (commit_submission r id job now s).0) [
        | inl (_, d) ↦ rw (d, ◌>>=◌) (k.by_submission r id job now a s e n p)
        | inr (_, d) ↦ rw (d, ◌>>=◌) (k.by_submission r id job now a s e n p)
      ]

  submit_checked :
      (r : SubmissionRequest) (job : Job) (id now : ℕ) (a : VariationAttempt) (s : JobStore)
      → lookup id s.attempts ≡ some a
      → P s
      → P ((check_submission r job a >> submit r id now job) s).1
  submit_checked r job id now a s e p = elim (check_submission-cases r job a s) [
    | inl (n, c) ↦
        subst (λ x. P (after {B = ℕ × String} (λ _. submit r id now job) x).1) (sym c)
          (committed-keeps r job id now a s e n p)
    | inr (x, c) ↦ subst (λ x. P (after {B = ℕ × String} (λ _. submit r id now job) x).1) (sym c) p
  ]

  -- The rest of a submission, from the reading of the row on.
  submit-Keeps :
      (r : SubmissionRequest) (job : Job) (id now : ℕ)
      → Keeps {A = ℕ × String} P
          (require_attempt id >>= λ a. check_submission r job a >> submit r id now job)
  submit-Keeps r job id now =
      Keeps-read (λ a. check_submission r job a >> submit r id now job)
        (λ s p. elim (require_attempt-cases id s) [
          | inl c ↦ inl (key_error, c)
          | inr (a, e, c) ↦ inr (a, c, submit_checked r job id now a s e p)
        ])

  prepare-Keeps : (r : SubmissionRequest) (now : ℕ) → Keeps P (prepare_variation_submission r now)
  unfolding prepare_variation_submission
  prepare-Keeps r now = Keeps-bind (require_job-Keeps r.job_id) (λ job.
      Keeps-bind (k.by_create r.job_id r.variation_index now) (λ id. submit-Keeps r job id now))

  persist_runpod_job_id-Keeps :
      (job_id runpod_job_id nonce : String) (now : ℕ)
      → Keeps P (persist_runpod_job_id job_id runpod_job_id nonce now)
  unfolding persist_runpod_job_id
  persist_runpod_job_id-Keeps job_id runpod_job_id nonce now =
      Keeps-then
        (Keeps-raise_if (is_empty runpod_job_id || longer_than runpod_job_id 128)
          (value_error "Runpod job ID is invalid"))
        (Keeps-bind (require_job-Keeps job_id) (λ job.
          Keeps-then
            (Keeps-raise_if (not (job.current_submission_nonce == some nonce))
              (value_error "submission nonce does not match the pending attempt"))
            (Keeps-then
              (Keeps-raise_if (differs job.current_runpod_job_id runpod_job_id)
                (value_error "job already has a different Runpod job ID"))
              (k.by_write_job job_id (with_runpod_id runpod_job_id now) (λ j. refl)))))

  recover_uncertain_submissions-Keeps : (now : ℕ) → Keeps P (recover_uncertain_submissions now)
  unfolding recover_uncertain_submissions
  recover_uncertain_submissions-Keeps now =
      Keeps-bind (Keeps-gets (λ s. uncertain_ids s.jobs))
        (λ ids. Keeps-then (k.by_recovery now) (Keeps-pure ids))

  run_call-keeps : (c : JobCall) (s : JobStore) → P s → P (run_call c s)
  unfolding run_call
  run_call-keeps (JobCall.move_job id status now code error) s p =
      (k.by_transition_job id status now code error).kept s p
  run_call-keeps (JobCall.move_attempt id status now code error) s p =
      (k.by_transition_attempt id status now code error).kept s p
  run_call-keeps (JobCall.create job_id index now) s p = (k.by_create job_id index now).kept s p
  run_call-keeps (JobCall.prepare r now) s p = (prepare-Keeps r now).kept s p
  run_call-keeps (JobCall.persist id ref nonce now) s p = (persist-Keeps id ref nonce now).kept s p
  run_call-keeps (JobCall.complete id note now) s p =
      (complete_variation_attempt-Keeps id note now).kept s p
  run_call-keeps (JobCall.fail id code error now) s p =
      (fail_variation_attempt-Keeps id code error now).kept s p
  run_call-keeps (JobCall.request_cancel job_id now) s p =
      (request_job_cancellation-Keeps job_id now).kept s p
  run_call-keeps (JobCall.finalize_cancel job_id outcome error now) s p =
      (finalize_job_cancellation-Keeps job_id outcome error now).kept s p
  run_call-keeps (JobCall.persist_job job_id runpod_job_id nonce now) s p =
      (persist_runpod_job_id-Keeps job_id runpod_job_id nonce now).kept s p
  run_call-keeps (JobCall.recover_jobs now) s p = (recover_uncertain_submissions-Keeps now).kept s p

  -- What the writes keep, every sequence of calls keeps.
  pub run_calls-keeps : (cs : List JobCall) (s : JobStore) → P s → P (run_calls cs s)
  unfolding run_calls
  run_calls-keeps [] s p = p
  run_calls-keeps (c ∷ cs) s p = run_calls-keeps cs (run_call c s) (run_call-keeps c s p)

-- The writes of a submission, for a predicate that each of them keeps.
pub commit_submission-Keeps :
    {P : JobStore → Type 0} (r : SubmissionRequest) (id now : ℕ) (job : Job)
    → Keeps P (transition_variation_attempt id cloud_queued now none none)
    → Keeps P (transition_job r.job_id cloud_queued now none none)
    → Keeps P (write_job r.job_id (submitting_job r now))
    → Keeps P (write_attempt id (submitting_attempt r job now))
    → Keeps P (commit_submission r id job now)
unfolding commit_submission queue_job
commit_submission-Keeps r id now job ta tj wj wa = Keeps-then ta (
    Keeps-then
      (Keeps-if (status_in job.status (queued ∷ staging ∷ [])) tj (
        Keeps-raise_if (not (job.status == generating) && not (job.status == cloud_queued))
          (value_error "job is not ready for cloud submission")))
      (Keeps-then wj wa))
