-- ===== src/Jobs/Tests.antt =====
-- Runs of the calls of src/ace_service/repository.py on small stores.
use audio_ventura.Base.{
  false, update, insert, ◌≡◌, refl, none, some, List, [], ◌∷◌, String, ok, err, lookup, nat_eq,
  string_eq,
}
use audio_ventura.Errors.{Failure}
use audio_ventura.Providers.{runpod, provider_eq}
use audio_ventura.Lifecycle.{
  JobStatus, queued, generating, cloud_queued, completed, cancelled, status_eq,
  validate_variation_transition, validate_job_transition,
}
use audio_ventura.Transfers.{TransferCapability, output_upload, issued, revoke_rows}
use audio_ventura.Jobs.Store.{
  CancelOutcome, Job, VariationAttempt, JobStore, ProviderJobRef, find_attempt,
  get_variation_attempt, require_job, require_attempt, attempt_provider_ref, job_backend,
  attempt_provider_result,
}
use audio_ventura.Jobs.Transitions.{
  transition_job, transition_variation_attempt, create_variation_attempt, existing_or_new_attempt,
}
use audio_ventura.Jobs.Endings.{
  fail_variation_attempt, finalize_job_cancellation, cancel_rows, cancel_attempt,
  complete_variation_attempt, complete_job, advance_job, add_note,
}
use audio_ventura.Jobs.Submission.{
  SubmissionRequest, prepare_variation_submission, check_submission, commit_submission, queue_job,
  persist_variation_provider_job_ref,
}
use audio_ventura.Jobs.Calls.{JobCall, run_call, run_calls}
use audio_ventura.Jobs.Settled.{
  job_status, attempt_status, terminal_job_is_final, terminal_attempt_is_final,
}
use audio_ventura.Jobs.Once.{attempt_nonce}
use audio_ventura.Jobs.Completion.{complete_variation_attempt-Completed}
use audio_ventura.Jobs.Handing.{Completed}
use audio_ventura.Jobs.Closing.{
  FailedTogether, Closed, fail_variation_attempt_lem, finalize_job_cancellation-Closed,
}
use audio_ventura.Jobs.Resubmission.{submitted_once}

abbrev a_job : JobStatus → Job
a_job status = record {
  status = status;
  variation_count = 2;
  current_variation = some 1;
  inference_provider = some runpod;
  inference_backend = none;
  current_submission_nonce = none;
  current_provider_job_id = none;
  current_runpod_job_id = none;
  error_code = none;
  user_facing_error = none;
  cancel_requested_at = none;
  cancel_outcome = none;
  cancel_completed_at = none;
  started_at = none;
  completed_at = none;
  updated_at = 5;
}

abbrev an_attempt : JobStatus → VariationAttempt
an_attempt status = record {
  job_id = "j1";
  variation_index = 1;
  status = status;
  runpod_job_id = none;
  inference_provider = some runpod;
  inference_backend = none;
  provider_job_id = none;
  submission_nonce = none;
  provider_result = none;
  runpod_result = none;
  error_code = none;
  user_facing_error = none;
  started_at = none;
  completed_at = none;
  updated_at = 5;
}

abbrev a_transfer : TransferCapability
a_transfer = record {
  job_id = "j1";
  direction = output_upload;
  status = issued;
  token_sha256 = "5f";
  expected_relative_path = "j1/1.flac";
  expected_extension = ".flac";
  max_bytes = 1000;
  expires_at = 90;
  consumed_at = none;
  revoked_at = none;
}

abbrev a_store : JobStatus → JobStatus → JobStore
a_store job attempt = record {
  jobs = ("j1", a_job job) ∷ [];
  attempts = (7, an_attempt attempt) ∷ [];
  next_attempt_id = 8;
  transfers = ("t1", a_transfer) ∷ [];
  outbox = record {
    events = [];
    next_event_id = 1;
    subscriptions = [];
    deliveries = [];
    next_delivery_id = 1;
  };
}

abbrev a_request : String → SubmissionRequest
a_request nonce = record {
  job_id = "j1";
  variation_index = 1;
  submission_nonce = none;
  fresh_nonce = nonce;
  inference_provider = none;
  inference_backend = none;
}

abbrev a_reference : ProviderJobRef
a_reference = record {
  provider = runpod;
  external_id = "rp-1";
  backend_id = "runpod/ace-step-v15-xl-turbo";
}

abbrev life : List JobCall
life =
    JobCall.persist 7 a_reference "n1" 20
    ∷ JobCall.complete 7 (some "late") 30
    ∷ JobCall.finalize_cancel "j1" CancelOutcome.cancelled none 40
    ∷ []

abbrev late_calls : List JobCall
late_calls =
    JobCall.fail 7 "x" "y" 50
    ∷ JobCall.recover_jobs 55
    ∷ JobCall.move_job "j1" generating 60 none none
    ∷ []

first_submission :
    (prepare_variation_submission (a_request "n1") 10 (a_store queued queued)).0 ≡ ok (7, "n1")
unfolding prepare_variation_submission lookup update insert create_variation_attempt find_attempt
    get_variation_attempt existing_or_new_attempt require_job require_attempt check_submission
    attempt_provider_ref job_backend commit_submission transition_variation_attempt
    validate_variation_transition queue_job transition_job validate_job_transition
first_submission = refl

first_submission_queues :
    job_status "j1" (prepare_variation_submission (a_request "n1") 10 (a_store queued queued)).1
    ≡ some cloud_queued
unfolding prepare_variation_submission lookup update insert create_variation_attempt find_attempt
    get_variation_attempt existing_or_new_attempt require_job require_attempt check_submission
    attempt_provider_ref job_backend commit_submission transition_variation_attempt
    validate_variation_transition queue_job transition_job validate_job_transition
first_submission_queues = refl

life_cancels :
    job_status "j1"
      (run_calls life (prepare_variation_submission (a_request "n1") 10 (a_store queued queued)).1)
    ≡ some cancelled
unfolding prepare_variation_submission lookup update insert create_variation_attempt find_attempt
    get_variation_attempt existing_or_new_attempt require_job require_attempt check_submission
    attempt_provider_ref job_backend commit_submission transition_variation_attempt
    validate_variation_transition queue_job transition_job validate_job_transition run_calls
    run_call finalize_job_cancellation cancel_rows cancel_attempt revoke_rows
    complete_variation_attempt complete_job advance_job add_note attempt_provider_result
    persist_variation_provider_job_ref
life_cancels = refl

submitted_once_example :
    (attempt_nonce 7 (
        run_calls life (prepare_variation_submission (a_request "n1") 10 (a_store queued queued)).1)
      ≡ some (some "n1"))
    × ((x : Failure) × (prepare_variation_submission (a_request "n2") 50 (
            run_calls life
              (prepare_variation_submission (a_request "n1") 10 (a_store queued queued)).1)
          ≡ (
            err x,
            run_calls life
                (prepare_variation_submission (a_request "n1") 10 (a_store queued queued)).1,
          )))
submitted_once_example =
    submitted_once (a_request "n1") 10 (a_store queued queued) 7 "n1" first_submission life
      (a_request "n2") 50 refl refl

terminal_job_is_final_example :
    job_status "j1" (run_calls late_calls (a_store cancelled generating)) ≡ some cancelled
unfolding lookup
terminal_job_is_final_example =
    terminal_job_is_final "j1" cancelled refl late_calls (a_store cancelled generating) refl

terminal_attempt_is_final_example :
    attempt_status 7 (run_calls late_calls (a_store generating completed)) ≡ some completed
unfolding lookup
terminal_attempt_is_final_example =
    terminal_attempt_is_final 7 completed refl late_calls (a_store generating completed) refl

failure_returns :
    (fail_variation_attempt 7 "oom" "Out of memory." 40 (a_store generating generating)).0 ≡ ok tt
unfolding lookup update find_attempt get_variation_attempt require_job require_attempt
    transition_variation_attempt validate_variation_transition transition_job
    validate_job_transition finalize_job_cancellation cancel_rows cancel_attempt revoke_rows
    fail_variation_attempt
failure_returns = refl

cancellation_returns :
    (finalize_job_cancellation "j1" CancelOutcome.cancelled none 40
      (a_store generating generating)).0
    ≡ ok tt
unfolding lookup update find_attempt get_variation_attempt require_job require_attempt
    transition_variation_attempt validate_variation_transition transition_job
    validate_job_transition finalize_job_cancellation cancel_rows cancel_attempt revoke_rows
    fail_variation_attempt
cancellation_returns = refl

fail_variation_attempt_lem_example :
    FailedTogether 7
      (fail_variation_attempt 7 "oom" "Out of memory." 40 (a_store generating generating)).1
fail_variation_attempt_lem_example =
    fail_variation_attempt_lem 7 "oom" "Out of memory." 40 (a_store generating generating)
      failure_returns

finalize_job_cancellation-Closed_example :
    Closed "j1"
      (finalize_job_cancellation "j1" CancelOutcome.cancelled none 40
        (a_store generating generating)).1
finalize_job_cancellation-Closed_example =
    finalize_job_cancellation-Closed "j1" none 40 (a_store generating generating)
      cancellation_returns

completion_returns :
    (complete_variation_attempt 7 (some "late") 40 (a_store generating generating)).0 ≡ ok false
unfolding lookup update insert find_attempt get_variation_attempt existing_or_new_attempt
    create_variation_attempt require_job require_attempt transition_variation_attempt
    validate_variation_transition transition_job validate_job_transition complete_variation_attempt
    complete_job advance_job add_note attempt_provider_result
completion_returns = refl

first_row : lookup 7 (a_store generating generating).attempts ≡ some (an_attempt generating)
unfolding lookup
first_row = refl

first_job : lookup "j1" (a_store generating generating).jobs ≡ some (a_job generating)
unfolding lookup
first_job = refl

complete_variation_attempt-Completed_example :
    Completed 7 "j1" 2 1 generating false
      (complete_variation_attempt 7 (some "late") 40 (a_store generating generating)).1
complete_variation_attempt-Completed_example =
    complete_variation_attempt-Completed 7 (some "late") 40 (a_store generating generating)
      (an_attempt generating) (a_job generating) false first_row first_job completion_returns
