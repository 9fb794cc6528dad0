-- ===== src/Jobs/Guards.antt =====
-- The guards of `prepare_variation_submission` of src/ace_service/repository.py, as six tests in a row.
use audio_ventura.Base.{
  ◌≡◌, refl, none, Option, some, String, ok, err, inl, inr, ◌⊎◌, nat_eq, string_eq, option_eq, ◌>>◌,
  raise_if, not, is_some, is_empty, or_else, ◌==◌, true, false, Bool,
}
use audio_ventura.Errors.{Failure, value_error}
use audio_ventura.Lifecycle.{queued, status_eq}
use audio_ventura.Providers.{provider_eq}
use audio_ventura.Jobs.Store.{
  Job, VariationAttempt, JobStore, Call, job_provider, attempt_provider_ref,
}
use audio_ventura.Jobs.Submission.{SubmissionRequest, check_submission, chosen_nonce, other_backend}

abbrev guards :
    Bool
    → Bool
    → Bool
    → Bool
    → Bool
    → Bool
    → Failure
    → Failure
    → Failure
    → Failure
    → Failure
    → Failure
    → Call Unit
guards b₁ b₂ b₃ b₄ b₅ b₆ e₁ e₂ e₃ e₄ e₅ e₆ =
    raise_if b₁ e₁
    >> (raise_if b₂ e₂
        >> (raise_if b₃ e₃ >> (raise_if b₄ e₄ >> (raise_if b₅ e₅ >> raise_if b₆ e₆))))

none_of_test : (o : Option String) → is_some o ≡ false → o ≡ none
none_of_test none h = refl
none_of_test (some x) h = cc

-- Six guards in a row: they write nothing, and the fourth failed if all did.
six_guards :
    (b₁ b₂ b₃ b₄ b₅ b₆ : Bool) (e₁ e₂ e₃ e₄ e₅ e₆ : Failure) (s : JobStore)
    → ((b₄ ≡ false) × (guards b₁ b₂ b₃ b₄ b₅ b₆ e₁ e₂ e₃ e₄ e₅ e₆ s ≡ (ok tt, s)))
      ⊎ ((x : Failure) × (guards b₁ b₂ b₃ b₄ b₅ b₆ e₁ e₂ e₃ e₄ e₅ e₆ s ≡ (err x, s)))
six_guards true b₂ b₃ b₄ b₅ b₆ e₁ e₂ e₃ e₄ e₅ e₆ s = inr (e₁, refl)
six_guards false true b₃ b₄ b₅ b₆ e₁ e₂ e₃ e₄ e₅ e₆ s = inr (e₂, refl)
six_guards false false true b₄ b₅ b₆ e₁ e₂ e₃ e₄ e₅ e₆ s = inr (e₃, refl)
six_guards false false false true b₅ b₆ e₁ e₂ e₃ e₄ e₅ e₆ s = inr (e₄, refl)
six_guards false false false false true b₆ e₁ e₂ e₃ e₄ e₅ e₆ s = inr (e₅, refl)
six_guards false false false false false true e₁ e₂ e₃ e₄ e₅ e₆ s = inr (e₆, refl)
six_guards false false false false false false e₁ e₂ e₃ e₄ e₅ e₆ s = inl (refl, refl)

-- The guards of a submission write nothing, and let only a row without a nonce pass.
pub check_submission-cases :
    (r : SubmissionRequest) (job : Job) (a : VariationAttempt) (s : JobStore)
    → ((a.submission_nonce ≡ none) × (check_submission r job a s ≡ (ok tt, s)))
      ⊎ ((x : Failure) × (check_submission r job a s ≡ (err x, s)))
unfolding check_submission
check_submission-cases r job a s =
    elim (six_guards (not (or_else r.inference_provider (job_provider job) == job_provider job))
      (other_backend r.inference_backend job) (is_some (attempt_provider_ref a job))
      (is_some a.submission_nonce) (not (a.status == queued)) (is_empty (chosen_nonce r))
      (value_error "variation provider does not match its job")
      (value_error "variation backend does not match its job")
      (value_error "variation already has a provider job ID")
      (value_error "variation submission outcome is uncertain")
      (value_error "variation is not queued") (value_error "submission nonce must not be empty")
      s) [ inl (h, c) ↦ inl (none_of_test a.submission_nonce h, c) | inr c ↦ inr c ]
