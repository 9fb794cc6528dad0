-- ===== src/Lifecycle.antt =====
-- src/ace_service/state.py and the statuses of src/ace_service/models.py: which lifecycle
-- transitions a job and one of its variation attempts may make.
pub mod Graph
mod Tests
use audio_ventura.Base.{
  ℕ, ◌≡◌, refl, ◌↔◌, Bool, true, false, not, ◌||◌, List, [], ◌∷◌, arith, Eq, ◌==◌, nat_beq, Option,
  none, some, if◌then◌else◌, Result, ok, err,
}

pub data JobStatus : Type 0 where
  queued ingesting staging cloud_queued generating completed failed cancelled : JobStatus

abbrev pub status_index : JobStatus → ℕ
status_index queued = 0
status_index ingesting = 1
status_index staging = 2
status_index cloud_queued = 3
status_index generating = 4
status_index completed = 5
status_index failed = 6
status_index cancelled = 7

pub status_index_iff :
    (a b : JobStatus) → (nat_beq (status_index a) (status_index b) ≡ true) ↔ (a ≡ b)
status_index_iff a b = (λ h. ground arith, λ h. ground arith)

-- `is` between two members of the enumeration.
instance abbrev pub status_eq : Eq JobStatus
status_eq = record {
  same = λ a b. nat_beq (status_index a) (status_index b);
  same_iff = status_index_iff;
}

abbrev pub status_in : JobStatus → List JobStatus → Bool
status_in s [] = false
status_in s (x ∷ xs) = s == x || status_in s xs

pub data LifecycleError : Type 0 where
  invalid_transition : JobStatus → JobStatus → LifecycleError
  no_such_key : JobStatus → LifecycleError

-- `ALLOWED_JOB_TRANSITIONS`
unfoldable pub allowed_job_transitions : JobStatus → List JobStatus
allowed_job_transitions queued = ingesting ∷ cloud_queued ∷ failed ∷ cancelled ∷ []
allowed_job_transitions ingesting = queued ∷ staging ∷ failed ∷ cancelled ∷ []
allowed_job_transitions staging = queued ∷ cloud_queued ∷ failed ∷ cancelled ∷ []
allowed_job_transitions cloud_queued = generating ∷ completed ∷ failed ∷ cancelled ∷ []
allowed_job_transitions generating = completed ∷ failed ∷ cancelled ∷ []
allowed_job_transitions _ = []

-- `ALLOWED_VARIATION_TRANSITIONS`, which has no entry for two statuses.
unfoldable pub allowed_variation_transitions : JobStatus → Option (List JobStatus)
allowed_variation_transitions queued = some (cloud_queued ∷ failed ∷ cancelled ∷ [])
allowed_variation_transitions cloud_queued = some (generating ∷ completed ∷ failed ∷ cancelled ∷ [])
allowed_variation_transitions generating = some (completed ∷ failed ∷ cancelled ∷ [])
allowed_variation_transitions completed = some []
allowed_variation_transitions failed = some []
allowed_variation_transitions cancelled = some []
allowed_variation_transitions _ = none

unfoldable pub validate_job_transition : JobStatus → JobStatus → Result LifecycleError Unit
unfolding allowed_job_transitions
validate_job_transition current target =
    if current == target
    then ok tt
    else if not (status_in target (allowed_job_transitions current))
    then err (invalid_transition current target)
    else ok tt

check_listed : JobStatus → JobStatus → Option (List JobStatus) → Result LifecycleError Unit
check_listed current target none = err (no_such_key current)
check_listed current target (some allowed) =
    if not (status_in target allowed) then err (invalid_transition current target) else ok tt

unfoldable pub validate_variation_transition : JobStatus → JobStatus → Result LifecycleError Unit
unfolding allowed_variation_transitions check_listed
validate_variation_transition current target =
    if current == target
    then ok tt
    else check_listed current target (allowed_variation_transitions current)

-- `_TERMINAL_JOB_STATUSES` of src/ace_service/repository.py
abbrev pub is_terminal : JobStatus → Bool
is_terminal completed = true
is_terminal failed = true
is_terminal cancelled = true
is_terminal _ = false
