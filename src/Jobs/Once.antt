-- ===== src/Jobs/Once.antt =====
-- The submission nonce of src/ace_service/repository.py, under the calls of Jobs.Calls.
use audio_ventura.Base.{
  ℕ, ◌≡◌, refl, sym, subst, ◌∙◌, none, Option, some, [], ◌∷◌, String, inl, inr, lookup, update,
  insert, viewed, viewed-update, viewed-update_other, viewed-insert, nat_eq, string_eq, Table, ◌==◌,
  Bool-cases, true, false, Keeps, arith,
}
use audio_ventura.Lifecycle.{JobStatus, cloud_queued}
use audio_ventura.Jobs.Store.{
  Job, VariationAttempt, JobStore, find_attempt, is_attempt_of, write_attempt,
}
use audio_ventura.Jobs.Transitions.{
  transition_job, transition_variation_attempt, create_variation_attempt, moved_attempt,
  new_attempt,
}
use audio_ventura.Jobs.Submission.{SubmissionRequest, commit_submission, submitting_attempt}
use audio_ventura.Jobs.Outcomes.{
  transition_variation_attempt-cases, create_variation_attempt-cases, transition_job-attempts,
}
use audio_ventura.Jobs.Calls.{Kept}
use audio_ventura.Jobs.Kept.{commit_submission-Keeps}

abbrev pub key_of : ℕ × VariationAttempt → ℕ
key_of (id, a) = id

abbrev pub nonce_of : VariationAttempt → Option String
nonce_of a = a.submission_nonce

-- The key of the attempt of a job and an index, and the nonce that stands in a row.
abbrev pub attempt_key : String → ℕ → JobStore → Option ℕ
attempt_key job_id index s = viewed key_of (find_attempt job_id index s.attempts)

abbrev pub attempt_nonce : ℕ → JobStore → Option (Option String)
attempt_nonce id s = viewed nonce_of (lookup id s.attempts)

pub find_attempt-update :
    (job_id : String) (index k : ℕ) (f : VariationAttempt → VariationAttempt)
    (t : Table ℕ VariationAttempt)
    → ((a : VariationAttempt) → (f a).job_id ≡ a.job_id)
    → ((a : VariationAttempt) → (f a).variation_index ≡ a.variation_index)
    → viewed key_of (find_attempt job_id index (update k f t))
      ≡ viewed key_of (find_attempt job_id index t)
unfolding find_attempt update
find_attempt-update job_id index k f [] hj hi = refl
find_attempt-update job_id index k f ((i, a) ∷ t) hj hi =
    ground (arith, hj a, hi a, find_attempt-update job_id index k f t hj hi)

pub find_attempt-insert :
    (job_id : String) (index k id : ℕ) (v : VariationAttempt) (t : Table ℕ VariationAttempt)
    → viewed key_of (find_attempt job_id index t) ≡ some id
    → viewed key_of (find_attempt job_id index (insert k v t)) ≡ some id
unfolding find_attempt insert
find_attempt-insert job_id index k id v [] h = cc
find_attempt-insert job_id index k id v ((i, a) ∷ t) h =
    ground (arith, find_attempt-insert job_id index k id v t)

pub find_attempt-insert_new :
    (job_id : String) (index k : ℕ) (v : VariationAttempt) (t : Table ℕ VariationAttempt)
    → find_attempt job_id index t ≡ none
    → is_attempt_of job_id index v ≡ true
    → viewed key_of (find_attempt job_id index (insert k v t)) ≡ some k
unfolding find_attempt insert
find_attempt-insert_new job_id index k v [] h b = rw b refl
find_attempt-insert_new job_id index k v ((i, a) ∷ t) h b =
    ground (arith, find_attempt-insert_new job_id index k v t)

pub found_key :
    {o : Option (ℕ × VariationAttempt)} {id k : ℕ} {a : VariationAttempt}
    → o ≡ some (k, a)
    → viewed key_of o ≡ some id
    → k ≡ id
found_key f h = cc

pub not_found {ℓ} :
    {o : Option (ℕ × VariationAttempt)} {id : ℕ} {B : Type ℓ}
    → o ≡ none
    → viewed key_of o ≡ some id
    → B
not_found f h = cc

-- Another nonce in a row than the one it holds.
pub nonce_clash {ℓ} :
    {o : Option VariationAttempt} {a : VariationAttempt} {n : String} {B : Type ℓ}
    → o ≡ some a
    → a.submission_nonce ≡ none
    → viewed nonce_of o ≡ some (some n)
    → B
nonce_clash e n h = cc

other_row :
    (k id : ℕ) (t : Table ℕ VariationAttempt) (a : VariationAttempt) (n : String)
    → lookup k t ≡ some a
    → a.submission_nonce ≡ none
    → viewed nonce_of (lookup id t) ≡ some (some n)
    → (id == k) ≡ false
other_row k id t a n e h p = elim (Bool-cases (id == k)) [
  | inl b ↦ nonce_clash {a = a} e h (rw ((nat_eq.same_iff id k).0 b) at p)
  | inr b ↦ b
]

module _ (job_id : String) (index : ℕ) (id : ℕ) (nonce : String) where
  abbrev pub Submitted : JobStore → Type 0
  Submitted s = (attempt_key job_id index s ≡ some id) × (attempt_nonce id s ≡ some (some nonce))

  pub job-Submitted :
      (k : String) (status : JobStatus) (now : ℕ) (code error : Option String)
      → Keeps Submitted (transition_job k status now code error)
  job-Submitted k status now code error = record {
    kept = λ s p. rw (transition_job-attempts k status now code error s) p;
  }

  write_attempt-Submitted :
      (k : ℕ) (f : VariationAttempt → VariationAttempt)
      → ((a : VariationAttempt) → (f a).job_id ≡ a.job_id)
      → ((a : VariationAttempt) → (f a).variation_index ≡ a.variation_index)
      → ((a : VariationAttempt) → (f a).submission_nonce ≡ a.submission_nonce)
      → Keeps Submitted (write_attempt k f)
  write_attempt-Submitted k f hj hi hn = record {
    kept = λ s p. (
      find_attempt-update job_id index k f s.attempts hj hi ∙ p.0,
      viewed-update nonce_of k id f s.attempts hn ∙ p.1,
    );
  }

  pub attempt-Submitted :
      (k : ℕ) (status : JobStatus) (now : ℕ) (code error : Option String)
      → Keeps Submitted (transition_variation_attempt k status now code error)
  attempt-Submitted k status now code error = record {
    kept = λ s p. elim (transition_variation_attempt-cases k status now code error s) [
      | inl c ↦ subst Submitted (sym c) p
      | inr (a, e, v, c) ↦ subst Submitted (sym c) (
          (write_attempt-Submitted k (moved_attempt status now code error) (λ _. refl) (λ _. refl)
              (λ _. refl)).kept
            s p)
    ];
  }

  create-Submitted : (j : String) (i now : ℕ) → Keeps Submitted (create_variation_attempt j i now)
  create-Submitted j i now = record {
    kept = λ s p. elim (create_variation_attempt-cases j i now s) [
      | inl (x, c) ↦ subst (λ r. Submitted r.1) (sym c) p
      | inr (inl (k, a, f, c)) ↦ subst (λ r. Submitted r.1) (sym c) p
      | inr (inr (job, f, c)) ↦
          subst (λ r. Submitted r.1) (sym c)
            (
              find_attempt-insert job_id index s.next_attempt_id id (new_attempt j i job now)
                  s.attempts p.0,
              viewed-insert nonce_of s.next_attempt_id id (new_attempt j i job now) s.attempts p.1,
            )
    ];
  }

  commit-Submitted :
      (r : SubmissionRequest) (k : ℕ) (job : Job) (now : ℕ) (a : VariationAttempt) (s0 : JobStore)
      → lookup k s0.attempts ≡ some a
      → a.submission_nonce ≡ none
      → Submitted s0
      → Submitted (commit_submission r k job now s0).1
  commit-Submitted r k job now a s0 e n p =
      (commit_submission-Keeps {P = Submitted} r k now job
          (attempt-Submitted k cloud_queued now none none)
          (job-Submitted r.job_id cloud_queued now none none) (record { kept = λ s p. p })
          (record {
            kept = λ s q. (
              find_attempt-update job_id index k (submitting_attempt r job now) s.attempts
                    (λ _. refl) (λ _. refl)
                  ∙ q.0,
              viewed-update_other nonce_of k id (submitting_attempt r job now) s.attempts
                    (other_row k id s0.attempts a nonce e n p.1)
                  ∙ q.1,
            );
          })).kept
        s0 p

  pub Submitted-Kept : Kept Submitted
  Submitted-Kept = record {
    by_transition_job = job-Submitted;
    by_transition_attempt = attempt-Submitted;
    by_create = create-Submitted;
    by_write_job = λ k f h. record { kept = λ s p. p };
    by_write_attempt = λ k f h. write_attempt-Submitted k f h.same_job h.same_index h.same_nonce;
    by_submission = commit-Submitted;
    by_recovery = λ now. record { kept = λ s p. p };
    by_other_tables = λ transfers outbox s p. p;
  }
