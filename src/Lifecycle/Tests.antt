-- ===== src/Lifecycle/Tests.antt =====
-- The lifecycle tables of src/ace_service/state.py on concrete statuses.
use audio_ventura.Base.{◌≡◌, refl, err}
use audio_ventura.Lifecycle.{queued, generating, invalid_transition, validate_job_transition}

generating_not_requeued :
    validate_job_transition generating queued ≡ err (invalid_transition generating queued)
unfolding validate_job_transition
generating_not_requeued = refl
