-- ===== src/Capacity/Manager.antt =====
-- src/ace_service/capacity/base.py: snapshots, error kinds and the interface of a capacity manager;
-- and what the controller of src/ace_service/capacity/controller.py reads of the database.
use audio_ventura.Base.{
  ℕ, ◌+◌, Bool, true, false, not, ◌||◌, ◌&&◌, Option, none, some, List, [], ◌∷◌, String, ◌==◌,
  nat_eq, string_eq, ltb, leb, is_empty, longer_than, has_blank, if◌then◌else◌, ok, err, Exec,
}
use audio_ventura.Errors.{Failure, value_error}
use audio_ventura.Providers.{ProviderName}
use audio_ventura.Lifecycle.{
  JobStatus, queued, staging, cloud_queued, generating, completed, failed, status_in, status_eq,
}
use audio_ventura.Notifications.{Outbox}
use audio_ventura.Capacity.Leases.{Leases}

pub data CapacityPhase : Type 0 where
  cold warming ready busy releasing unknown : CapacityPhase

abbrev pub is_ready : CapacityPhase → Bool
is_ready CapacityPhase.ready = true
is_ready _ = false

pub data CapacityErrorKind : Type 0 where
  transient drift unsafe_active_work invalid_response not_found : CapacityErrorKind

-- `CapacityErrorKind.value`
abbrev pub error_kind_value : CapacityErrorKind → String
error_kind_value transient = "transient"
error_kind_value drift = "drift"
error_kind_value unsafe_active_work = "unsafe_active_work"
error_kind_value invalid_response = "invalid_response"
error_kind_value not_found = "not_found"

abbrev pub is_drift : CapacityErrorKind → Bool
is_drift drift = true
is_drift _ = false

pub record CapacitySnapshot : Type 0 where
  pub key : String
  pub provider : ProviderName
  pub phase : CapacityPhase
  pub configured_floor : ℕ
  pub configured_maximum : ℕ
  pub observed_instances : ℕ
  pub ready_instances : ℕ
  pub provider_active_jobs : ℕ
  pub resource_revision : Option String

bad_revision : Option String → Bool
bad_revision none = false
bad_revision (some r) = is_empty r || longer_than r 128 || has_blank r

-- `CapacitySnapshot.__post_init__`: the message of the `ValueError`, if there is one.
unfoldable pub snapshot_problem : CapacitySnapshot → Option String
unfolding bad_revision
snapshot_problem s =
    if is_empty s.key || longer_than s.key 256 || has_blank s.key
    then some "capacity key is invalid"
    else if not (leb s.configured_floor 1) || not (leb s.configured_maximum 1)
    then some "capacity floor and maximum must be zero or one"
    else if not (leb s.observed_instances 1) || not (leb s.ready_instances 1)
    then some "capacity instance counts must be zero or one"
    else if ltb s.observed_instances s.ready_instances
    then some "ready instances cannot exceed observed instances"
    else if not (leb s.provider_active_jobs 10000)
    then some "provider active jobs are out of bounds"
    else if bad_revision s.resource_revision
    then some "resource revision is invalid"
    else none

-- The columns of a job that the controller reads; `staging_confirmed` is whether the request's
-- `cover_staging` is a mapping with the status `confirmed`.
pub record WorkJob : Type 0 where
  pub inference_backend : Option String
  pub status : JobStatus
  pub is_cover : Bool
  pub staging_confirmed : Bool
  pub completed_at : Option ℕ

-- The part of the database that the controller touches. `keep_warm` is the singleton setting row.
pub record CapacityDb : Type 0 where
  pub leases : Leases
  pub outbox : Outbox
  pub jobs : List WorkJob
  pub keep_warm : Option ℕ

-- How an awaited call of a manager ends: a snapshot, a `CapacityError`, or another exception.
pub data Reply : Type 0 where
  observed : CapacitySnapshot → Reply
  capacity_failed : CapacityErrorKind → Reply
  crashed : Reply

-- The `CapacityManager` protocol. While a call is awaited, other processes may write the database.
pub record CapacityManager : Type 0 where
  pub key : String
  pub provider : ProviderName
  pub backend_ids : List String
  pub release_grace_seconds : ℕ
  pub inspect : CapacityDb → Reply × CapacityDb
  pub retain_one : CapacitySnapshot → CapacityDb → Reply × CapacityDb
  pub release_one : CapacitySnapshot → CapacityDb → Reply × CapacityDb

abbrev keep_warm_values : List ℕ
keep_warm_values =
    0 ∷ 60 ∷ 120 ∷ 180 ∷ 300 ∷ 600 ∷ 900 ∷ 1800 ∷ 2700 ∷ 3600 ∷ 7200 ∷ 10800 ∷ 14400 ∷ []

abbrev nat_in : ℕ → List ℕ → Bool
nat_in n [] = false
nat_in n (m ∷ ms) = n == m || nat_in n ms

-- The stored setting, or the default row that is created.
setting_of : Option ℕ → ℕ
setting_of none = 900
setting_of (some n) = n

unfoldable pub get_keep_warm_seconds : Exec (Option ℕ) Failure ℕ
unfolding setting_of
get_keep_warm_seconds row =
    if nat_in (setting_of row) keep_warm_values
    then (ok (setting_of row), some (setting_of row))
    else (err (value_error "stored keep-warm setting is invalid"), some (setting_of row))

unfoldable pub set_keep_warm_seconds : ℕ → Exec (Option ℕ) Failure ℕ
set_keep_warm_seconds seconds row =
    if nat_in seconds keep_warm_values
    then (ok seconds, some seconds)
    else (err (value_error "keep-warm value is not an allowed duration"), row)

abbrev string_in : String → List String → Bool
string_in s [] = false
string_in s (x ∷ xs) = s == x || string_in s xs

abbrev backend_in : Option String → List String → Bool
backend_in none ids = false
backend_in (some b) ids = string_in b ids

unfoldable pub is_confirmed_cover : WorkJob → Bool
is_confirmed_cover job = if not job.is_cover then true else job.staging_confirmed

abbrev counts_as_work : List String → WorkJob → Bool
counts_as_work ids job =
    backend_in job.inference_backend ids
    && status_in job.status (queued ∷ staging ∷ cloud_queued ∷ generating ∷ [])
    && is_confirmed_cover job

unfoldable pub count_eligible_work : List WorkJob → List String → ℕ
unfolding is_confirmed_cover
count_eligible_work [] ids = 0
count_eligible_work (job ∷ jobs) ids =
    (if counts_as_work ids job then 1 else 0) + count_eligible_work jobs ids

abbrev later : Option ℕ → Option ℕ → Option ℕ
later none b = b
later (some a) none = some a
later (some a) (some b) = some (if ltb a b then b else a)

abbrev terminal_time : List String → WorkJob → Option ℕ
terminal_time ids job =
    if backend_in job.inference_backend ids && status_in job.status (completed ∷ failed ∷ [])
    then job.completed_at
    else none

unfoldable pub latest_terminal_activity : List WorkJob → List String → Option ℕ
latest_terminal_activity [] ids = none
latest_terminal_activity (job ∷ jobs) ids =
    later (terminal_time ids job) (latest_terminal_activity jobs ids)
