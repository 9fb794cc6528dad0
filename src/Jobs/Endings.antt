-- ===== src/Jobs/Endings.antt =====
-- How a variation and its job end in src/ace_service/repository.py: completion, failure, and a
-- cancellation that the worker finalizes.
use audio_ventura.Base.{
  ℕ, ◌+◌, Bool, true, false, not, Option, none, some, [], ◌∷◌, String, ◌+++◌, ◌==◌, nat_eq,
  string_eq, leb, is_empty, or_else, if◌then◌else◌, ok, err, pure, when, raise_if, gets, modify,
  ◌>>=◌, ◌>>◌,
}
use audio_ventura.Errors.{value_error}
use audio_ventura.Providers.{ProviderName, runpod}
use audio_ventura.Lifecycle.{
  cloud_queued, generating, completed, failed, cancelled, status_eq, is_terminal,
}
use audio_ventura.Notifications.{EventFields, generation_completed, insert_notification_event}
use audio_ventura.Transfers.{revoke_rows}
use audio_ventura.Jobs.Store.{
  CancelOutcome, ResultValue, text, ResultDict, Job, VariationAttempt, Call, require_job,
  require_attempt, get_variation_attempt, write_job, write_attempt, attempt_provider_result,
}
use audio_ventura.Jobs.Transitions.{
  transition_job, transition_variation_attempt, create_variation_attempt,
}

-- `result[key] = value`
abbrev set_item : String → ResultValue → ResultDict → ResultDict
set_item key value [] = (key, value) ∷ []
set_item key value ((k, v) ∷ d) =
    if k == key then (key, value) ∷ d else (k, v) ∷ set_item key value d

abbrev mirrors_runpod : Option ProviderName → Bool
mirrors_runpod none = true
mirrors_runpod (some runpod) = true
mirrors_runpod _ = false

abbrev pub noted : String → VariationAttempt → VariationAttempt
noted note a =
    let result = set_item "recovery_note" (text note) (or_else (attempt_provider_result a) []) in
    record a {
      provider_result = some result;
      runpod_result = if mirrors_runpod a.inference_provider then some result else a.runpod_result;
    }

unfoldable pub add_note : ℕ → Option String → Call Unit
add_note id none = pure tt
add_note id (some note) = if is_empty note then pure tt else write_attempt id (noted note)

unfoldable pub insert_event : EventFields → Call Unit
insert_event f s =
    let (r, o) = insert_notification_event f s.outbox in
    elim r [ ok _ ↦ (ok tt, record s { outbox = o }) | err e ↦ (err e, record s { outbox = o }) ]

abbrev pub completed_event : String → Job → ℕ → EventFields
completed_event job_id job now = record {
  event_key = "generation-completed:" +++ job_id;
  kind = generation_completed;
  title = "Generation complete";
  body = "Your AudioVentura generation is ready.";
  target_path = "/jobs/" +++ job_id;
  job_id = some job_id;
  provider = job.inference_provider;
  capacity_key = none;
  created_at = now;
}

abbrev pub cleared : Job → Job
cleared job = record job {
  current_runpod_job_id = none;
  current_provider_job_id = none;
  current_submission_nonce = none;
}

-- The last variation completes its job.
unfoldable pub complete_job : String → Job → ℕ → Call Bool
unfolding insert_event
complete_job job_id job now = do
  write_job job_id cleared
  transition_job job_id completed now none none
  insert_event (completed_event job_id job now)
  pure true

abbrev pub advanced : ℕ → ℕ → Job → Job
advanced next now job =
    let c = cleared job in record c { current_variation = some next; updated_at = now }

-- Any other hands over to the next.
unfoldable pub advance_job : String → Job → ℕ → ℕ → Call Bool
advance_job job_id job next now = do
  create_variation_attempt job_id next now
  when (job.status == cloud_queued) (transition_job job_id generating now none none)
  write_job job_id (advanced next now)
  pure false

-- `True` if the parent job is complete.
unfoldable pub complete_variation_attempt : ℕ → Option String → ℕ → Call Bool
unfolding require_job require_attempt add_note
complete_variation_attempt id note now = do
  attempt ← require_attempt id
  job ← require_job attempt.job_id
  add_note id note
  when (not (attempt.status == completed)) (transition_variation_attempt id completed now none none)
  if leb job.variation_count attempt.variation_index
      then complete_job attempt.job_id job now
      else advance_job attempt.job_id job (attempt.variation_index + 1) now

unfoldable pub fail_variation_attempt : ℕ → String → String → ℕ → Call Unit
unfolding require_job require_attempt
fail_variation_attempt id error_code error now = do
  attempt ← require_attempt id
  when (not (attempt.status == failed))
      (transition_variation_attempt id failed now (some error_code) (some error))
  job ← require_job attempt.job_id
  when (not (job.status == failed))
      (transition_job attempt.job_id failed now (some error_code) (some error))

abbrev pub cancel_is_over : Option CancelOutcome → Bool
cancel_is_over (some CancelOutcome.too_late) = true
cancel_is_over (some CancelOutcome.unsupported) = true
cancel_is_over _ = false

abbrev pub cancel_requested : ℕ → Job → Job
cancel_requested now job = record job {
  cancel_requested_at = some (or_else job.cancel_requested_at now);
  updated_at = now;
}

unfoldable pub request_job_cancellation : String → ℕ → Call Unit
unfolding require_job
request_job_cancellation job_id now = do
  job ← require_job job_id
  raise_if (is_terminal job.status) (value_error "job is already terminal")
  raise_if (cancel_is_over job.cancel_outcome)
      (value_error "cancellation is no longer available for this job")
  write_job job_id (cancel_requested now)

abbrev pub revoke_active_transfers : String → ℕ → Call Unit
revoke_active_transfers job_id now =
    modify (λ s. record s { transfers = revoke_rows job_id now s.transfers })

unfoldable pub cancel_attempt : ℕ → String → Option (ℕ × VariationAttempt) → Call Unit
cancel_attempt now error none = pure tt
cancel_attempt now error (some (id, attempt)) =
    when (not (is_terminal attempt.status))
      (transition_variation_attempt id cancelled now (some "cancelled") (some error))

abbrev pub is_cancelled : CancelOutcome → Bool
is_cancelled CancelOutcome.cancelled = true
is_cancelled _ = false

-- `user_facing_error or "Generation cancelled."`
abbrev pub cancel_message : Option String → String
cancel_message none = "Generation cancelled."
cancel_message (some message) = if is_empty message then "Generation cancelled." else message

-- `job.current_variation or 1`
abbrev pub variation_of : Option ℕ → ℕ
variation_of none = 1
variation_of (some index) = if index == 0 then 1 else index

unfoldable pub cancel_rows : String → Job → String → ℕ → Call Unit
unfolding cancel_attempt
cancel_rows job_id job message now = do
  attempt ← gets (get_variation_attempt job_id (variation_of job.current_variation))
  cancel_attempt now message attempt
  when (not (is_terminal job.status))
      (transition_job job_id cancelled now (some "cancelled") (some message))
  revoke_active_transfers job_id now

abbrev pub cancel_settled : CancelOutcome → ℕ → Job → Job
cancel_settled outcome now job = record job {
  cancel_outcome = some outcome;
  cancel_completed_at = some now;
}

abbrev pub touched : ℕ → Job → Job
touched now job = record job { updated_at = now }

unfoldable pub finalize_job_cancellation : String → CancelOutcome → Option String → ℕ → Call Unit
unfolding require_job
finalize_job_cancellation job_id outcome error now = do
  job ← require_job job_id
  write_job job_id (cancel_settled outcome now)
  if is_cancelled outcome
      then cancel_rows job_id job (cancel_message error) now
      else write_job job_id (touched now)
