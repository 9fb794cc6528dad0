-- ===== src/Jobs/Refusal.antt =====
-- A second `prepare_variation_submission` of src/ace_service/repository.py for one variation.
use audio_ventura.Base.{
  ℕ, ◌≡◌, sym, subst, ap, ◌∙◌, some, String, err, inl, inr, lookup, nat_eq, string_eq, pure, after,
  ◌>>=◌, ◌>>◌,
}
use audio_ventura.Errors.{Failure, key_error}
use audio_ventura.Lifecycle.{status_eq}
use audio_ventura.Jobs.Store.{Job, VariationAttempt, JobStore, require_attempt, Call}
use audio_ventura.Jobs.Transitions.{create_variation_attempt}
use audio_ventura.Jobs.Submission.{
  SubmissionRequest, commit_submission, prepare_variation_submission, chosen_nonce,
  check_submission,
}
use audio_ventura.Jobs.Outcomes.{
  create_variation_attempt-cases, require_job-cases, require_attempt-cases,
}
use audio_ventura.Jobs.Guards.{check_submission-cases}
use audio_ventura.Jobs.Once.{attempt_nonce, Submitted, found_key, not_found, nonce_clash}

-- The parts of a submission behind the job, and behind the attempt.
abbrev pub from_attempt : SubmissionRequest → ℕ → Job → ℕ → VariationAttempt → Call (ℕ × String)
from_attempt r now job id a =
    check_submission r job a >> (commit_submission r id job now >> pure (id, chosen_nonce r))

abbrev pub from_id : SubmissionRequest → ℕ → Job → ℕ → Call (ℕ × String)
from_id r now job id = require_attempt id >>= from_attempt r now job id

abbrev pub from_job : SubmissionRequest → ℕ → Job → Call (ℕ × String)
from_job r now job = create_variation_attempt r.job_id r.variation_index now >>= from_id r now job

unfoldable pub Refused : SubmissionRequest → ℕ → JobStore → Type 0
Refused r now s = (x : Failure) × (prepare_variation_submission r now s ≡ (err x, s))

from_attempt-refused :
    (r : SubmissionRequest) (now : ℕ) (job : Job) (id : ℕ) (a : VariationAttempt) (nonce : String)
    (s : JobStore)
    → lookup id s.attempts ≡ some a
    → attempt_nonce id s ≡ some (some nonce)
    → (x : Failure) × (from_attempt r now job id a s ≡ (err x, s))
from_attempt-refused r now job id a nonce s e p = elim (check_submission-cases r job a s) [
  | inl (n, c) ↦ nonce_clash e n p
  | inr (x, c) ↦
      (x, ap (after (λ _. commit_submission r id job now >> pure (id, chosen_nonce r))) c)
]

from_id-refused :
    (r : SubmissionRequest) (now : ℕ) (job : Job) (id : ℕ) (nonce : String) (s : JobStore)
    → attempt_nonce id s ≡ some (some nonce)
    → (x : Failure) × (from_id r now job id s ≡ (err x, s))
from_id-refused r now job id nonce s p = elim (require_attempt-cases id s) [
  | inl c ↦ (key_error, ap (after (from_attempt r now job id)) c)
  | inr (a, e, c) ↦
      let (x, d) = from_attempt-refused r now job id a nonce s e p in
      (x, ap (after (from_attempt r now job id)) c ∙ d)
]

from_job-refused :
    (r : SubmissionRequest) (now : ℕ) (job : Job) (id : ℕ) (nonce : String) (s : JobStore)
    → Submitted r.job_id r.variation_index id nonce s
    → (x : Failure) × (from_job r now job s ≡ (err x, s))
from_job-refused r now job id nonce s p =
    elim (create_variation_attempt-cases r.job_id r.variation_index now s) [
      | inl (x, c) ↦ (x, ap (after (from_id r now job)) c)
      | inr (inl (k, a, f, c)) ↦
          let (x, d) =
            from_id-refused r now job k nonce s
              (subst (λ i. attempt_nonce i s ≡ some (some nonce)) (sym (found_key f p.0)) p.1) in
          (x, ap (after (from_id r now job)) c ∙ d)
      | inr (inr (j, f, c)) ↦ not_found f p.0
    ]

-- A second submission of a variation that was submitted raises, and writes nothing.
pub prepare-Refused :
    (r : SubmissionRequest) (now id : ℕ) (nonce : String) (s : JobStore)
    → Submitted r.job_id r.variation_index id nonce s
    → Refused r now s
unfolding prepare_variation_submission Refused
prepare-Refused r now id nonce s p = elim (require_job-cases r.job_id s) [
  | inl c ↦ (key_error, ap (after (from_job r now)) c)
  | inr (job, e, c) ↦
      let (x, d) = from_job-refused r now job id nonce s p in (x, ap (after (from_job r now)) c ∙ d)
]
