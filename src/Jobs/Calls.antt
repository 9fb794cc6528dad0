-- ===== src/Jobs/Calls.antt =====
-- Calls of src/ace_service/repository.py on jobs and attempts, as the web handlers and the worker issue
-- them in any order, and the writes that they are made of. `prepare_runpod_submission`, which sets a
-- job's status without the validation of a transition and which only `RunpodSubmissionCoordinator` makes,
-- a class that the application does not use, is not among them.
use audio_ventura.Base.{
  ℕ, ◌≡◌, none, Option, some, List, [], ◌∷◌, String, lookup, nat_eq, string_eq, Keeps,
}
use audio_ventura.Lifecycle.{JobStatus}
use audio_ventura.Notifications.{Outbox}
use audio_ventura.Transfers.{Transfers}
use audio_ventura.Jobs.Store.{
  CancelOutcome, Job, VariationAttempt, JobStore, ProviderJobRef, write_job, write_attempt,
}
use audio_ventura.Jobs.Transitions.{
  transition_job, transition_variation_attempt, create_variation_attempt,
}
use audio_ventura.Jobs.Submission.{
  SubmissionRequest, prepare_variation_submission, commit_submission,
  persist_variation_provider_job_ref,
}
use audio_ventura.Jobs.Uncertain.{
  persist_runpod_job_id, recover_rows, recover_uncertain_submissions,
}
use audio_ventura.Jobs.Endings.{
  complete_variation_attempt, fail_variation_attempt, request_job_cancellation,
  finalize_job_cancellation,
}

pub data JobCall : Type 0 where
  move_job : String → JobStatus → ℕ → Option String → Option String → JobCall
  move_attempt : ℕ → JobStatus → ℕ → Option String → Option String → JobCall
  create : String → ℕ → ℕ → JobCall
  prepare : SubmissionRequest → ℕ → JobCall
  persist : ℕ → ProviderJobRef → String → ℕ → JobCall
  complete : ℕ → Option String → ℕ → JobCall
  fail : ℕ → String → String → ℕ → JobCall
  request_cancel : String → ℕ → JobCall
  finalize_cancel : String → CancelOutcome → Option String → ℕ → JobCall
  persist_job : String → String → String → ℕ → JobCall
  recover_jobs : ℕ → JobCall

unfoldable pub run_call : JobCall → JobStore → JobStore
run_call (move_job id status now code error) s = (transition_job id status now code error s).1
run_call (move_attempt id status now code error) s =
    (transition_variation_attempt id status now code error s).1
run_call (create job_id index now) s = (create_variation_attempt job_id index now s).1
run_call (prepare r now) s = (prepare_variation_submission r now s).1
run_call (persist id ref nonce now) s = (persist_variation_provider_job_ref id ref nonce now s).1
run_call (complete id note now) s = (complete_variation_attempt id note now s).1
run_call (fail id code error now) s = (fail_variation_attempt id code error now s).1
run_call (request_cancel job_id now) s = (request_job_cancellation job_id now s).1
run_call (finalize_cancel job_id outcome error now) s =
    (finalize_job_cancellation job_id outcome error now s).1
run_call (persist_job job_id runpod_job_id nonce now) s =
    (persist_runpod_job_id job_id runpod_job_id nonce now s).1
run_call (recover_jobs now) s = (recover_uncertain_submissions now s).1

unfoldable pub run_calls : List JobCall → JobStore → JobStore
run_calls [] s = s
run_calls (c ∷ cs) s = run_calls cs (run_call c s)

-- What a write of an attempt leaves alone when it is no transition and no submission.
pub record SameAttempt (f : VariationAttempt → VariationAttempt) : Type 0 where
  pub same_job : (a : VariationAttempt) → (f a).job_id ≡ a.job_id
  pub same_index : (a : VariationAttempt) → (f a).variation_index ≡ a.variation_index
  pub same_status : (a : VariationAttempt) → (f a).status ≡ a.status
  pub same_nonce : (a : VariationAttempt) → (f a).submission_nonce ≡ a.submission_nonce

pub record Kept (P : JobStore → Type 0) : Type 0 where
  pub by_transition_job :
      (id : String) (status : JobStatus) (now : ℕ) (code error : Option String)
      → Keeps P (transition_job id status now code error)
  pub by_transition_attempt :
      (id : ℕ) (status : JobStatus) (now : ℕ) (code error : Option String)
      → Keeps P (transition_variation_attempt id status now code error)
  pub by_create :
      (job_id : String) (index now : ℕ) → Keeps P (create_variation_attempt job_id index now)
  pub by_write_job :
      (id : String) (f : Job → Job)
      → ((j : Job) → (f j).status ≡ j.status)
      → Keeps P (write_job id f)
  pub by_write_attempt :
      (id : ℕ) (f : VariationAttempt → VariationAttempt)
      → SameAttempt f
      → Keeps P (write_attempt id f)
  pub by_submission :
      (r : SubmissionRequest) (id : ℕ) (job : Job) (now : ℕ) (a : VariationAttempt) (s : JobStore)
      → lookup id s.attempts ≡ some a
      → a.submission_nonce ≡ none
      → P s
      → P (commit_submission r id job now s).1
  pub by_recovery : (now : ℕ) → Keeps P (recover_rows now)
  pub by_other_tables :
      (transfers : Transfers) (outbox : Outbox) (s : JobStore)
      → P s
      → P (record s { transfers = transfers; outbox = outbox })
