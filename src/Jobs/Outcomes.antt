-- ===== src/Jobs/Outcomes.antt =====
-- The outcomes of `get_job`, `transition_job`, `create_variation_attempt` and
-- `transition_variation_attempt` of src/ace_service/repository.py, as cases.
use audio_ventura.Base.{
  raised, ℕ, suc, ◌≡◌, ◌⊎◌, refl, none, Option, some, String, ok, err, inl, inr, Option-cases,
  Bool-cases, Result-cases, lookup, update, insert, ap, ◌∙◌, after, gets, ◌>>◌, nat_eq, string_eq,
  ◌>>=◌, raise_if, ltb, ◌||◌,
}
use audio_ventura.Errors.{Failure, key_error, value_error, illegal_transition}
use audio_ventura.Lifecycle.{JobStatus, validate_job_transition, validate_variation_transition}
use audio_ventura.Jobs.Store.{
  Call, write_job, write_attempt, Job, VariationAttempt, JobStore, require_job, require_attempt,
  get_variation_attempt, find_attempt,
}
use audio_ventura.Jobs.Transitions.{
  checked, transition_job, transition_variation_attempt, create_variation_attempt, moved_job,
  moved_attempt, new_attempt, existing_or_new_attempt,
}

pub require_job-cases :
    (id : String) (s : JobStore)
    → (require_job id s ≡ (err key_error, s))
      ⊎ ((j : Job) × (lookup id s.jobs ≡ some j) × (require_job id s ≡ (ok j, s)))
unfolding require_job
require_job-cases id s = elim (Option-cases (lookup id s.jobs)) [
  | inl e ↦ inl (rw e refl)
  | inr (j, e) ↦ inr (j, e, rw e refl)
]

pub require_attempt-cases :
    (id : ℕ) (s : JobStore)
    → (require_attempt id s ≡ (err key_error, s))
      ⊎ ((a : VariationAttempt) × (lookup id s.attempts ≡ some a)
          × (require_attempt id s ≡ (ok a, s)))
unfolding require_attempt
require_attempt-cases id s = elim (Option-cases (lookup id s.attempts)) [
  | inl e ↦ inl (rw e refl)
  | inr (a, e) ↦ inr (a, e, rw e refl)
]

abbrev to_job : String → JobStatus → ℕ → Option String → Option String → Job → Call Unit
to_job id status now code error j =
    checked (validate_job_transition j.status status)
    >> write_job id (moved_job status now code error)

abbrev to_attempt : ℕ → JobStatus → ℕ → Option String → Option String → VariationAttempt → Call Unit
to_attempt id status now code error a =
    checked (validate_variation_transition a.status status)
    >> write_attempt id (moved_attempt status now code error)

abbrev made_for : String → ℕ → ℕ → Job → Call ℕ
made_for job_id index now job =
    raise_if (ltb index 1 || ltb job.variation_count index)
      (value_error "variation index is outside the job variation count")
    >> (gets (get_variation_attempt job_id index) >>= existing_or_new_attempt job_id index job now)

pub transition_job-cases :
    (id : String) (status : JobStatus) (now : ℕ) (code error : Option String) (s : JobStore)
    → ((transition_job id status now code error s).1 ≡ s)
      ⊎ ((j : Job) × (lookup id s.jobs ≡ some j)
          × (validate_job_transition j.status status ≡ ok tt)
          × ((transition_job id status now code error s).1
              ≡ record s { jobs = update id (moved_job status now code error) s.jobs }))
unfolding transition_job
transition_job-cases id status now code error s = elim (require_job-cases id s) [
  | inl c ↦ inl (ap (λ x. (after (to_job id status now code error) x).1) c)
  | inr (j, e, c) ↦ elim (Result-cases (validate_job_transition j.status status)) [
    | inl (_, v) ↦
        inr (j, e, v, ap (λ x. (after (to_job id status now code error) x).1) c ∙ rw v refl)
    | inr (x, v) ↦ inl (ap (λ x. (after (to_job id status now code error) x).1) c ∙ rw v refl)
  ]
]

pub transition_variation_attempt-cases :
    (id : ℕ) (status : JobStatus) (now : ℕ) (code error : Option String) (s : JobStore)
    → ((transition_variation_attempt id status now code error s).1 ≡ s)
      ⊎ ((a : VariationAttempt) × (lookup id s.attempts ≡ some a)
          × (validate_variation_transition a.status status ≡ ok tt)
          × ((transition_variation_attempt id status now code error s).1
              ≡ record s { attempts = update id (moved_attempt status now code error) s.attempts }))
unfolding transition_variation_attempt
transition_variation_attempt-cases id status now code error s = elim (require_attempt-cases id s) [
  | inl c ↦ inl (ap (λ x. (after (to_attempt id status now code error) x).1) c)
  | inr (a, e, c) ↦ elim (Result-cases (validate_variation_transition a.status status)) [
    | inl (_, v) ↦
        inr (a, e, v, ap (λ x. (after (to_attempt id status now code error) x).1) c ∙ rw v refl)
    | inr (x, v) ↦ inl (ap (λ x. (after (to_attempt id status now code error) x).1) c ∙ rw v refl)
  ]
]

-- A row is found, or made behind the others, or nothing is written.
pub create_variation_attempt-cases :
    (job_id : String) (index now : ℕ) (s : JobStore)
    → ((x : Failure) × (create_variation_attempt job_id index now s ≡ (err x, s)))
      ⊎ ((id : ℕ) × (a : VariationAttempt) × (find_attempt job_id index s.attempts ≡ some (id, a))
          × (create_variation_attempt job_id index now s ≡ (ok id, s)))
      ⊎ ((job : Job) × (find_attempt job_id index s.attempts ≡ none)
          × (create_variation_attempt job_id index now s ≡ (
            ok s.next_attempt_id,
            record s {
              attempts = insert s.next_attempt_id (new_attempt job_id index job now) s.attempts;
              next_attempt_id = suc s.next_attempt_id;
            },
          )))
unfolding create_variation_attempt get_variation_attempt existing_or_new_attempt
create_variation_attempt-cases job_id index now s = elim (require_job-cases job_id s) [
  | inl c ↦ inl (key_error, ap (after (made_for job_id index now)) c)
  | inr (job, e, c) ↦ elim (Bool-cases (ltb index 1 || ltb job.variation_count index)) [
    | inl b ↦ inl (
      value_error "variation index is outside the job variation count",
      ap (after (made_for job_id index now)) c ∙ rw b refl,
    )
    | inr b ↦ elim (Option-cases (find_attempt job_id index s.attempts)) [
      | inl f ↦ inr (inr (job, f, ap (after (made_for job_id index now)) c ∙ rw (b, f) refl))
      | inr ((id, a), f) ↦
          inr (inl (id, a, f, ap (after (made_for job_id index now)) c ∙ rw (b, f) refl))
    ]
  ]
]

-- A call that only makes or finds an attempt leaves the jobs alone.
pub create-jobs :
    (job_id : String) (index now : ℕ) (s : JobStore)
    → (create_variation_attempt job_id index now s).1.jobs ≡ s.jobs
create-jobs job_id index now s = elim (create_variation_attempt-cases job_id index now s) [
  | inl (x, c) ↦ ap (λ r. r.1.jobs) c
  | inr (inl (id, a, f, c)) ↦ ap (λ r. r.1.jobs) c
  | inr (inr (job, f, c)) ↦ ap (λ r. r.1.jobs) c
]

pub transition_attempt-jobs :
    (id : ℕ) (status : JobStatus) (now : ℕ) (code error : Option String) (s : JobStore)
    → (transition_variation_attempt id status now code error s).1.jobs ≡ s.jobs
transition_attempt-jobs id status now code error s =
    elim (transition_variation_attempt-cases id status now code error s) [
      | inl c ↦ ap (λ x. x.jobs) c
      | inr (a, e, v, c) ↦ ap (λ x. x.jobs) c
    ]

pub transition_job-attempts :
    (id : String) (status : JobStatus) (now : ℕ) (code error : Option String) (s : JobStore)
    → (transition_job id status now code error s).1.attempts ≡ s.attempts
transition_job-attempts id status now code error s =
    elim (transition_job-cases id status now code error s) [
      | inl c ↦ ap (λ x. x.attempts) c
      | inr (a, e, v, c) ↦ ap (λ x. x.attempts) c
    ]

-- A transition that returned has written its row.
pub transition_job-written :
    (id : String) (status : JobStatus) (now : ℕ) (code error : Option String) (s : JobStore)
    (u : Unit)
    → (transition_job id status now code error s).0 ≡ ok u
    → (j : Job) × (lookup id s.jobs ≡ some j)
      × ((transition_job id status now code error s).1
          ≡ record s { jobs = update id (moved_job status now code error) s.jobs })
unfolding transition_job
transition_job-written id status now code error s u h = elim (require_job-cases id s) [
  | inl c ↦ raised (ap (λ x. (after (to_job id status now code error) x).0) c) h
  | inr (j, e, c) ↦ elim (Result-cases (validate_job_transition j.status status)) [
    | inl (_, v) ↦ (j, e, ap (λ x. (after (to_job id status now code error) x).1) c ∙ rw v refl)
    | inr (x, v) ↦
        raised {x = illegal_transition x}
          (ap (λ x. (after (to_job id status now code error) x).0) c ∙ rw v refl) h
  ]
]

pub transition_variation_attempt-written :
    (id : ℕ) (status : JobStatus) (now : ℕ) (code error : Option String) (s : JobStore) (u : Unit)
    → (transition_variation_attempt id status now code error s).0 ≡ ok u
    → (a : VariationAttempt) × (lookup id s.attempts ≡ some a)
      × ((transition_variation_attempt id status now code error s).1
          ≡ record s { attempts = update id (moved_attempt status now code error) s.attempts })
unfolding transition_variation_attempt
transition_variation_attempt-written id status now code error s u h =
    elim (require_attempt-cases id s) [
      | inl c ↦ raised (ap (λ x. (after (to_attempt id status now code error) x).0) c) h
      | inr (a, e, c) ↦ elim (Result-cases (validate_variation_transition a.status status)) [
        | inl (_, v) ↦
            (a, e, ap (λ x. (after (to_attempt id status now code error) x).1) c ∙ rw v refl)
        | inr (x, v) ↦
            raised {x = illegal_transition x}
              (ap (λ x. (after (to_attempt id status now code error) x).0) c ∙ rw v refl) h
      ]
    ]
