-- ===== src/Jobs/Transitions.antt =====
-- `transition_job`, `create_variation_attempt` and `transition_variation_attempt` of
-- src/ace_service/repository.py.
use audio_ventura.Base.{
  ℕ, suc, Bool, ◌&&◌, ◌||◌, Option, none, some, String, ◌==◌, nat_eq, string_eq, ltb, is_none,
  if◌then◌else◌, Result, ok, err, pure, raise, raise_if, gets, ◌>>=◌, ◌>>◌, insert,
}
use audio_ventura.Errors.{value_error, illegal_transition}
use audio_ventura.Lifecycle.{
  JobStatus, queued, cloud_queued, generating, cancelled, status_eq, is_terminal, LifecycleError,
  validate_job_transition, validate_variation_transition,
}
use audio_ventura.Jobs.Store.{
  Job, VariationAttempt, Call, require_job, require_attempt, get_variation_attempt, write_job,
  write_attempt, job_provider, job_backend,
}

-- A validator's exception, raised.
abbrev pub checked : Result LifecycleError Unit → Call Unit
checked (ok _) = pure tt
checked (err e) = raise (illegal_transition e)

abbrev is_running : JobStatus → Bool
is_running status = status == cloud_queued || status == generating

abbrev set_once : Bool → ℕ → Option ℕ → Option ℕ
set_once b now old = if b && is_none old then some now else old

abbrev stamp : Bool → ℕ → Option ℕ → Option ℕ
stamp b now old = if b then some now else old

-- A column that an optional argument overwrites.
abbrev given : Option String → Option String → Option String
given none old = old
given (some new) old = some new

abbrev pub moved_job : JobStatus → ℕ → Option String → Option String → Job → Job
moved_job status now error_code error job = record job {
  status = status;
  started_at = set_once (is_running status) now job.started_at;
  completed_at = stamp (is_terminal status) now job.completed_at;
  cancel_completed_at = stamp (status == cancelled) now job.cancel_completed_at;
  error_code = given error_code job.error_code;
  user_facing_error = given error job.user_facing_error;
  updated_at = now;
}

unfoldable pub transition_job : String → JobStatus → ℕ → Option String → Option String → Call Unit
unfolding require_job
transition_job job_id status now error_code error = do
  job ← require_job job_id
  checked (validate_job_transition job.status status)
  write_job job_id (moved_job status now error_code error)

abbrev pub moved_attempt :
    JobStatus → ℕ → Option String → Option String → VariationAttempt → VariationAttempt
moved_attempt status now error_code error a = record a {
  status = status;
  started_at = set_once (is_running status) now a.started_at;
  completed_at = stamp (is_terminal status) now a.completed_at;
  error_code = given error_code a.error_code;
  user_facing_error = given error a.user_facing_error;
  updated_at = now;
}

unfoldable pub transition_variation_attempt :
    ℕ → JobStatus → ℕ → Option String → Option String → Call Unit
unfolding require_attempt
transition_variation_attempt id status now error_code error = do
  attempt ← require_attempt id
  checked (validate_variation_transition attempt.status status)
  write_attempt id (moved_attempt status now error_code error)

abbrev pub new_attempt : String → ℕ → Job → ℕ → VariationAttempt
new_attempt job_id index job now = record {
  job_id = job_id;
  variation_index = index;
  status = queued;
  runpod_job_id = none;
  inference_provider = some (job_provider job);
  inference_backend = some (job_backend job);
  provider_job_id = none;
  submission_nonce = none;
  provider_result = none;
  runpod_result = none;
  error_code = none;
  user_facing_error = none;
  started_at = none;
  completed_at = none;
  updated_at = now;
}

-- The key of the row that is there, or of a new one.
unfoldable pub existing_or_new_attempt :
    String → ℕ → Job → ℕ → Option (ℕ × VariationAttempt) → Call ℕ
existing_or_new_attempt job_id index job now (some (id, _)) s = (ok id, s)
existing_or_new_attempt job_id index job now none s = (
  ok s.next_attempt_id,
  record s {
    attempts = insert s.next_attempt_id (new_attempt job_id index job now) s.attempts;
    next_attempt_id = suc s.next_attempt_id;
  },
)

unfoldable pub create_variation_attempt : String → ℕ → ℕ → Call ℕ
unfolding require_job existing_or_new_attempt get_variation_attempt
create_variation_attempt job_id index now = do
  job ← require_job job_id
  raise_if (ltb index 1 || ltb job.variation_count index)
      (value_error "variation index is outside the job variation count")
  existing ← gets (get_variation_attempt job_id index)
  existing_or_new_attempt job_id index job now existing
