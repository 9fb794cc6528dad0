-- ===== src/Jobs/Store.antt =====
-- The rows of src/ace_service/models.py that a generation uses, and how
-- src/ace_service/repository.py finds them. Ids, nonces and provider ids are texts; a time is a
-- number of microseconds. A stored backend id and a stored provider job id are not empty: they
-- were checked when `BackendId` and `ProviderJobRef` made them; a stored nonce is not empty either.
use audio_ventura.Base.{
  ℕ, Bool, ◌&&◌, Option, none, some, List, [], ◌∷◌, String, ◌==◌, nat_eq, string_eq, or_else,
  is_some, if◌then◌else◌, Exec, or_raise, modify, Table, lookup, update,
}
use audio_ventura.Errors.{Failure, key_error}
use audio_ventura.Providers.{ProviderName, runpod, salad, fal, mock, node}
use audio_ventura.Lifecycle.{JobStatus}
use audio_ventura.Notifications.{Outbox}
use audio_ventura.Transfers.{Transfers}

pub data CancelOutcome : Type 0 where
  cancelled too_late unsupported : CancelOutcome

-- A JSON object of a result; values other than texts are kept opaque.
pub data ResultValue : Type 0 where
  text : String → ResultValue
  opaque : ℕ → ResultValue

abbrev pub ResultDict : Type 0
ResultDict = List (String × ResultValue)

pub record Job : Type 0 where
  pub status : JobStatus
  pub variation_count : ℕ
  pub current_variation : Option ℕ
  pub inference_provider : Option ProviderName
  pub inference_backend : Option String
  pub current_submission_nonce : Option String
  pub current_provider_job_id : Option String
  pub current_runpod_job_id : Option String
  pub error_code : Option String
  pub user_facing_error : Option String
  pub cancel_requested_at : Option ℕ
  pub cancel_outcome : Option CancelOutcome
  pub cancel_completed_at : Option ℕ
  pub started_at : Option ℕ
  pub completed_at : Option ℕ
  pub updated_at : ℕ

pub record VariationAttempt : Type 0 where
  pub job_id : String
  pub variation_index : ℕ
  pub status : JobStatus
  pub runpod_job_id : Option String
  pub inference_provider : Option ProviderName
  pub inference_backend : Option String
  pub provider_job_id : Option String
  pub submission_nonce : Option String
  pub provider_result : Option ResultDict
  pub runpod_result : Option ResultDict
  pub error_code : Option String
  pub user_facing_error : Option String
  pub started_at : Option ℕ
  pub completed_at : Option ℕ
  pub updated_at : ℕ

pub record JobStore : Type 0 where
  pub jobs : Table String Job
  pub attempts : Table ℕ VariationAttempt
  pub next_attempt_id : ℕ
  pub transfers : Transfers
  pub outbox : Outbox

abbrev pub Call : Type 0 → Type 0
Call A = Exec JobStore Failure A

-- `get_job`, and the `KeyError` of its callers.
unfoldable pub require_job : String → Call Job
require_job job_id s = or_raise (lookup job_id s.jobs) key_error s

-- `session.get(VariationAttempt, attempt_id)`, and the `KeyError` of its callers.
unfoldable pub require_attempt : ℕ → Call VariationAttempt
require_attempt attempt_id s = or_raise (lookup attempt_id s.attempts) key_error s

abbrev pub is_attempt_of : String → ℕ → VariationAttempt → Bool
is_attempt_of job_id index a = a.job_id == job_id && a.variation_index == index

-- The row of a job and an index, with its key.
unfoldable pub find_attempt : String → ℕ → Table ℕ VariationAttempt → Option (ℕ × VariationAttempt)
find_attempt job_id index [] = none
find_attempt job_id index ((id, a) ∷ t) =
    if is_attempt_of job_id index a then some (id, a) else find_attempt job_id index t

unfoldable pub get_variation_attempt : String → ℕ → JobStore → Option (ℕ × VariationAttempt)
get_variation_attempt job_id index s = find_attempt job_id index s.attempts

abbrev pub write_job : String → (Job → Job) → Call Unit
write_job job_id f = modify (λ s. record s { jobs = update job_id f s.jobs })

abbrev pub write_attempt : ℕ → (VariationAttempt → VariationAttempt) → Call Unit
write_attempt id f = modify (λ s. record s { attempts = update id f s.attempts })

abbrev pub job_provider : Job → ProviderName
job_provider job = or_else job.inference_provider runpod

abbrev builtin_backend : ProviderName → String
builtin_backend runpod = "runpod/ace-step-v15-xl-turbo"
builtin_backend salad = "salad/ace-step-v15-xl-turbo"
builtin_backend mock = "mock/midi-sequential"
builtin_backend node = "node/ace-step-v15-xl-turbo"
builtin_backend fal = "fal/default"

unfoldable pub job_backend : Job → String
job_backend job = or_else job.inference_backend (builtin_backend (job_provider job))

pub record ProviderJobRef : Type 0 where
  pub provider : ProviderName
  pub external_id : String
  pub backend_id : String

abbrev either {ℓ} : {A : Type ℓ} → Option A → Option A → Option A
either (some a) o = some a
either none o = o

abbrev ref_from : Option ProviderName → Option String → String → Option ProviderJobRef
ref_from (some p) (some id) backend =
    some (record { provider = p; external_id = id; backend_id = backend })
ref_from _ _ _ = none

abbrev ref_of : Option ProviderName → VariationAttempt → String → Option ProviderJobRef
ref_of (some p) a backend = ref_from (some p) a.provider_job_id backend
ref_of none a backend =
    if is_some a.runpod_job_id
    then ref_from (some runpod) a.runpod_job_id backend
    else ref_from none a.provider_job_id backend

unfoldable pub attempt_provider_ref : VariationAttempt → Job → Option ProviderJobRef
unfolding job_backend
attempt_provider_ref a job =
    ref_of (either a.inference_provider job.inference_provider) a
      (or_else a.inference_backend (job_backend job))

-- The result of an attempt, whichever column holds it.
unfoldable pub attempt_provider_result : VariationAttempt → Option ResultDict
attempt_provider_result a = either a.provider_result (elim a.inference_provider [
  | none ↦ a.runpod_result
  | some p ↦ elim p [ runpod ↦ a.runpod_result | _ ↦ none ]
])
