-- ===== src/Jobs/Submission.antt =====
-- The submission of a variation in src/ace_service/repository.py: the nonce is committed before the
-- provider is called, and the provider's id right after.
use audio_ventura.Base.{
  ℕ, Bool, true, false, not, ◌&&◌, ◌||◌, Option, none, some, [], ◌∷◌, String, ◌==◌, nat_eq,
  string_eq, option_eq, is_some, is_empty, or_else, if◌then◌else◌, pure, raise_if, ◌>>=◌, ◌>>◌,
}
use audio_ventura.Errors.{value_error}
use audio_ventura.Providers.{ProviderName, provider_eq, runpod}
use audio_ventura.Lifecycle.{
  JobStatus, queued, staging, cloud_queued, generating, status_eq, status_in,
}
use audio_ventura.Jobs.Store.{
  Job, VariationAttempt, Call, require_job, require_attempt, write_job, write_attempt, job_provider,
  job_backend, ProviderJobRef, attempt_provider_ref,
}
use audio_ventura.Jobs.Transitions.{
  transition_job, transition_variation_attempt, create_variation_attempt,
}

-- The arguments; `fresh_nonce` is what `uuid4` gives.
pub record SubmissionRequest : Type 0 where
  pub job_id : String
  pub variation_index : ℕ
  pub submission_nonce : Option String
  pub fresh_nonce : String
  pub inference_provider : Option ProviderName
  pub inference_backend : Option String

-- `str(submission_nonce or uuid4())`
abbrev pub chosen_nonce : SubmissionRequest → String
chosen_nonce r = elim r.submission_nonce [
  | none ↦ r.fresh_nonce
  | some nonce ↦ if is_empty nonce then r.fresh_nonce else nonce
]

abbrev pub other_backend : Option String → Job → Bool
other_backend none job = false
other_backend (some backend) job = not (backend == job_backend job)

-- The guards, before anything but a missing attempt row is written.
unfoldable pub check_submission : SubmissionRequest → Job → VariationAttempt → Call Unit
check_submission r job attempt = do
  raise_if (not (or_else r.inference_provider (job_provider job) == job_provider job))
      (value_error "variation provider does not match its job")
  raise_if (other_backend r.inference_backend job)
      (value_error "variation backend does not match its job")
  raise_if (is_some (attempt_provider_ref attempt job))
      (value_error "variation already has a provider job ID")
  raise_if (is_some attempt.submission_nonce)
      (value_error "variation submission outcome is uncertain")
  raise_if (not (attempt.status == queued)) (value_error "variation is not queued")
  raise_if (is_empty (chosen_nonce r)) (value_error "submission nonce must not be empty")

-- The parent job follows its variation to the provider queue.
unfoldable pub queue_job : String → JobStatus → ℕ → Call Unit
queue_job job_id status now =
    if status_in status (queued ∷ staging ∷ [])
    then transition_job job_id cloud_queued now none none
    else raise_if (not (status == generating) && not (status == cloud_queued))
        (value_error "job is not ready for cloud submission")

abbrev pub submitting_job : SubmissionRequest → ℕ → Job → Job
submitting_job r now job = record job {
  current_variation = some r.variation_index;
  current_submission_nonce = some (chosen_nonce r);
  current_provider_job_id = none;
  current_runpod_job_id = none;
  updated_at = now;
}

abbrev pub submitting_attempt : SubmissionRequest → Job → ℕ → VariationAttempt → VariationAttempt
submitting_attempt r job now a = record a {
  submission_nonce = some (chosen_nonce r);
  inference_provider = some (job_provider job);
  inference_backend = some (job_backend job);
  updated_at = now;
}

-- The writes, behind the guards.
unfoldable pub commit_submission : SubmissionRequest → ℕ → Job → ℕ → Call Unit
commit_submission r id job now = do
  transition_variation_attempt id cloud_queued now none none
  queue_job r.job_id job.status now
  write_job r.job_id (submitting_job r now)
  write_attempt id (submitting_attempt r job now)

-- Returns the key of the attempt and the nonce.
unfoldable pub prepare_variation_submission : SubmissionRequest → ℕ → Call (ℕ × String)
unfolding require_job require_attempt
prepare_variation_submission r now = do
  job ← require_job r.job_id
  id ← create_variation_attempt r.job_id r.variation_index now
  attempt ← require_attempt id
  check_submission r job attempt
  commit_submission r id job now
  pure (id, chosen_nonce r)

abbrev pub bad_ref : ProviderJobRef → Job → VariationAttempt → Bool
bad_ref ref job a =
    not (ref.provider == job_provider job)
    || not (a.inference_provider == some ref.provider)
    || not (ref.backend_id == job_backend job)
    || not (a.inference_backend == some ref.backend_id)

abbrev pub differs : Option String → String → Bool
differs none id = false
differs (some old) id = not (is_empty old) && not (old == id)

abbrev is_runpod : ProviderName → Bool
is_runpod runpod = true
is_runpod _ = false

abbrev pub referenced_attempt : ProviderJobRef → ℕ → VariationAttempt → VariationAttempt
referenced_attempt ref now a = record a {
  provider_job_id = some ref.external_id;
  runpod_job_id = if is_runpod ref.provider then some ref.external_id else a.runpod_job_id;
  updated_at = now;
}

abbrev pub referenced_job : ProviderJobRef → ℕ → Job → Job
referenced_job ref now job = record job {
  current_provider_job_id = some ref.external_id;
  current_runpod_job_id =
      if is_runpod ref.provider then some ref.external_id else job.current_runpod_job_id;
  updated_at = now;
}

unfoldable pub persist_variation_provider_job_ref : ℕ → ProviderJobRef → String → ℕ → Call Unit
unfolding require_job require_attempt
persist_variation_provider_job_ref id ref nonce now = do
  attempt ← require_attempt id
  job ← require_job attempt.job_id
  raise_if (not (attempt.submission_nonce == some nonce))
      (value_error "submission nonce does not match the pending variation")
  raise_if (bad_ref ref job attempt)
      (value_error "provider reference does not match persisted provider")
  raise_if (differs attempt.provider_job_id ref.external_id)
      (value_error "variation already has a different provider job ID")
  write_attempt id (referenced_attempt ref now)
  write_job attempt.job_id (referenced_job ref now)

-- `persist_variation_runpod_job_id`: the backend of the reference is the built-in one.
unfoldable pub persist_variation_runpod_job_id : ℕ → String → String → ℕ → Call Unit
unfolding persist_variation_provider_job_ref
persist_variation_runpod_job_id id runpod_job_id nonce now =
    persist_variation_provider_job_ref id
      (record {
        provider = runpod;
        external_id = runpod_job_id;
        backend_id = "runpod/ace-step-v15-xl-turbo";
      })
      nonce now
