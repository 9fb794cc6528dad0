-- ===== src/Jobs/Uncertain.antt =====
-- The calls of src/ace_service/repository.py on the submission of a whole job: the cloud's id of it, and
-- the jobs whose submission has no known outcome when the worker starts. The recovery returns the ids of
-- the jobs, where the code returns their rows.
use audio_ventura.Base.{
  ℕ, Bool, not, ◌&&◌, ◌||◌, some, List, [], ◌∷◌, String, ◌==◌, string_eq, option_eq, is_some,
  is_none, is_empty, longer_than, if◌then◌else◌, pure, gets, modify, raise_if, ◌>>=◌, ◌>>◌, Table,
  map_rows,
}
use audio_ventura.Errors.{value_error}
use audio_ventura.Providers.{runpod}
use audio_ventura.Lifecycle.{cloud_queued, failed, status_eq}
use audio_ventura.Jobs.Submission.{differs}
use audio_ventura.Jobs.Store.{Job, Call, require_job, write_job}

abbrev pub with_runpod_id : String → ℕ → Job → Job
with_runpod_id runpod_job_id now job = record job {
  current_runpod_job_id = some runpod_job_id;
  inference_provider = some runpod;
  current_provider_job_id = some runpod_job_id;
  updated_at = now;
}

unfoldable pub persist_runpod_job_id : String → String → String → ℕ → Call Unit
unfolding require_job
persist_runpod_job_id job_id runpod_job_id submission_nonce now = do
  raise_if (is_empty runpod_job_id || longer_than runpod_job_id 128)
      (value_error "Runpod job ID is invalid")
  job ← require_job job_id
  raise_if (not (job.current_submission_nonce == some submission_nonce))
      (value_error "submission nonce does not match the pending attempt")
  raise_if (differs job.current_runpod_job_id runpod_job_id)
      (value_error "job already has a different Runpod job ID")
  write_job job_id (with_runpod_id runpod_job_id now)

-- A nonce was committed, and no id came back.
abbrev pub is_uncertain : Job → Bool
is_uncertain job =
    is_some job.current_submission_nonce
    && is_none job.current_provider_job_id
    && job.status == cloud_queued

unfoldable pub uncertain_ids : Table String Job → List String
uncertain_ids [] = []
uncertain_ids ((id, job) ∷ t) =
    let rest = uncertain_ids t in if is_uncertain job then id ∷ rest else rest

abbrev pub recovered_job : ℕ → Job → Job
recovered_job now job =
    if is_uncertain job
    then record job {
      status = failed;
      error_code = some "uncertain_cloud_submission";
      user_facing_error =
          some "Cloud submission outcome is uncertain; automatic resubmission was prevented.";
      updated_at = now;
    }
    else job

abbrev pub recover_rows : ℕ → Call Unit
recover_rows now = modify (λ s. record s { jobs = map_rows (recovered_job now) s.jobs })

unfoldable pub recover_uncertain_submissions : ℕ → Call (List String)
unfolding uncertain_ids
recover_uncertain_submissions now = do
  ids ← gets (λ s. uncertain_ids s.jobs)
  recover_rows now
  pure ids
