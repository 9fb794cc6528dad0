-- ===== src/Jobs/Closing.antt =====
-- The ends of a job in src/ace_service/repository.py: `fail_variation_attempt` and
-- `finalize_job_cancellation`.
use audio_ventura.Base.{
  raised, returned, ℕ, ◌≡◌, refl, sym, subst, ap, ◌∙◌, none, Option, some, String, ok, inl, inr,
  lookup, viewed, viewed-update, arith, lookup-update_self, nat_eq, string_eq, ◌==◌, Bool, true,
  not, when, Keeps, Keeps-gets, Keeps-pure, Keeps-when, Gives, gives_bind, Gives-unless, gives_then,
  gives_kept,
}
use audio_ventura.Lifecycle.{JobStatus, failed, cancelled, status_eq, is_terminal}
use audio_ventura.Transfers.{no_issued, revoke_rows-no_issued}
use audio_ventura.Jobs.Store.{
  CancelOutcome, Job, VariationAttempt, JobStore, require_job, require_attempt, write_job,
  get_variation_attempt,
}
use audio_ventura.Jobs.Transitions.{
  transition_job, transition_variation_attempt, moved_job, moved_attempt,
}
use audio_ventura.Jobs.Outcomes.{
  require_job-cases, require_attempt-cases, transition_job-written,
  transition_variation_attempt-written, transition_attempt-jobs,
}
use audio_ventura.Jobs.Settled.{job_status, status_of_job}
use audio_ventura.Jobs.Endings.{
  fail_variation_attempt, finalize_job_cancellation, cancel_rows, cancel_attempt, cancel_settled,
  cancel_message, variation_of, revoke_active_transfers,
}

-- Where an attempt belongs, and its status.
abbrev ending : VariationAttempt → String × JobStatus
ending a = (a.job_id, a.status)

abbrev pub attempt_ending : ℕ → JobStore → Option (String × JobStatus)
attempt_ending id s = viewed ending (lookup id s.attempts)

abbrev Anything : JobStore → Type 0
Anything s = Unit

require_attempt-row :
    (id : ℕ) → Gives Anything (require_attempt id) (λ a s. lookup id s.attempts ≡ some a)
require_attempt-row id = record {
  gives = λ s a p h. elim (require_attempt-cases id s) [
    | inl c ↦ raised (ap (λ y. y.0) c) h
    | inr (b, e, c) ↦
        subst (λ y. lookup id y.1.attempts ≡ some a) (sym c)
          (e ∙ ap some (returned (ap (λ y. y.0) c) h))
  ];
}

require_job-row :
    {P : JobStore → Type 0} (id : String)
    → Gives P (require_job id) (λ j s. P s × (job_status id s ≡ some j.status))
require_job-row {P} id = record {
  gives = λ s j p h. elim (require_job-cases id s) [
    | inl c ↦ raised (ap (λ y. y.0) c) h
    | inr (b, e, c) ↦
        subst (λ y. P y.1 × (job_status id y.1 ≡ some j.status)) (sym c)
          (p, ap (viewed status_of_job) (e ∙ ap some (returned (ap (λ y. y.0) c) h)))
  ];
}

fail_attempt-row :
    (id : ℕ) (now : ℕ) (code error : String) (a : VariationAttempt)
    → Gives
        (λ s. lookup id s.attempts ≡ some a)
        (when
          (not (a.status == failed))
          (transition_variation_attempt id failed now (some code) (some error)))
        (λ _ s. attempt_ending id s ≡ some (a.job_id, failed))
fail_attempt-row id now code error a =
    Gives-unless (a.status == failed)
      (λ b s p.
        ap (viewed ending) p
        ∙ ap (λ st. some (a.job_id, st)) ((status_eq.same_iff a.status failed).0 b))
      (record {
        gives = λ s u p h.
            let (c, e, w) =
              transition_variation_attempt-written id failed now (some code) (some error) s u h in
            subst (λ y. attempt_ending id y ≡ some (a.job_id, failed)) (sym w)
              (ap (viewed ending) (
                lookup-update_self id (moved_attempt failed now (some code) (some error)) s.attempts
                  p));
      })

-- The attempt and the job of its row are failed.
abbrev pub FailedTogether : ℕ → JobStore → Type 0
FailedTogether id s =
    (job_id : String) × (attempt_ending id s ≡ some (job_id, failed))
    × (job_status job_id s ≡ some failed)

fail_job-row :
    (id : ℕ) (job_id : String) (now : ℕ) (code error : String) (j : Job)
    → Gives
        (λ s. (attempt_ending id s ≡ some (job_id, failed)) × (job_status job_id s ≡ some j.status))
        (when
          (not (j.status == failed))
          (transition_job job_id failed now (some code) (some error)))
        (λ _. FailedTogether id)
fail_job-row id job_id now code error j =
    Gives-unless (j.status == failed)
      (λ b s p. (job_id, p.0, p.1 ∙ ap some ((status_eq.same_iff j.status failed).0 b)))
      (record {
        gives = λ s u p h.
            let (c, e, w) =
              transition_job-written job_id failed now (some code) (some error) s u h in
            subst (FailedTogether id) (sym w) (
              job_id,
              p.0,
              ap (viewed status_of_job) (
                  lookup-update_self job_id (moved_job failed now (some code) (some error)) s.jobs
                    e),
            );
      })

fail_variation_attempt-gives :
    (id : ℕ) (code error : String) (now : ℕ)
    → Gives Anything (fail_variation_attempt id code error now) (λ _. FailedTogether id)
unfolding fail_variation_attempt
fail_variation_attempt-gives id code error now =
    gives_bind (λ a s. lookup id s.attempts ≡ some a) (require_attempt-row id)
      (λ a.
        gives_bind (λ _ s. attempt_ending id s ≡ some (a.job_id, failed))
          (fail_attempt-row id now code error a)
          (λ _.
            gives_bind
              (λ j s.
                (attempt_ending id s ≡ some (a.job_id, failed))
                × (job_status a.job_id s ≡ some j.status))
              (require_job-row a.job_id) (λ j. fail_job-row id a.job_id now code error j)))

-- When `fail_variation_attempt` returns, the attempt and the job that it belongs to are both failed.
pub fail_variation_attempt_lem :
    (id : ℕ) (code error : String) (now : ℕ) (s : JobStore)
    → (fail_variation_attempt id code error now s).0 ≡ ok tt
    → FailedTogether id (fail_variation_attempt id code error now s).1
fail_variation_attempt_lem id code error now s h =
    (fail_variation_attempt-gives id code error now).gives s tt tt h

abbrev is_over : Job → Bool
is_over j = is_terminal j.status

abbrev pub job_over : String → JobStore → Option Bool
job_over job_id s = viewed is_over (lookup job_id s.jobs)

abbrev Held : String → JobStatus → JobStore → Type 0
Held job_id st s = job_status job_id s ≡ some st

write_job-Held :
    (job_id : String) (st : JobStatus) (f : Job → Job)
    → ((j : Job) → (f j).status ≡ j.status)
    → Keeps (Held job_id st) (write_job job_id f)
write_job-Held job_id st f h = record {
  kept = λ s p. viewed-update status_of_job job_id job_id f s.jobs h ∙ p;
}

cancel_attempt-Held :
    (job_id : String) (st : JobStatus) (now : ℕ) (error : String)
    (o : Option (ℕ × VariationAttempt))
    → Keeps (Held job_id st) (cancel_attempt now error o)
unfolding cancel_attempt
cancel_attempt-Held job_id st now error none = Keeps-pure tt
cancel_attempt-Held job_id st now error (some (id, a)) =
    Keeps-when (not (is_terminal a.status)) (record {
      kept =
          λ s p. rw (transition_attempt-jobs id cancelled now (some "cancelled") (some error) s) p;
    })

over_of :
    (o : Option Job) (st : JobStatus)
    → viewed status_of_job o ≡ some st
    → is_terminal st ≡ true
    → viewed is_over o ≡ some true
over_of none st h d = cc
over_of (some j) st h d = ground (arith, h, d)

cancel_job-over :
    (job_id : String) (now : ℕ) (error : String) (j : Job)
    → Gives
        (Held job_id j.status)
        (when
          (not (is_terminal j.status))
          (transition_job job_id cancelled now (some "cancelled") (some error)))
        (λ _ s. job_over job_id s ≡ some true)
cancel_job-over job_id now error j =
    Gives-unless (is_terminal j.status) (λ b s p. over_of (lookup job_id s.jobs) j.status p b)
      (record {
        gives = λ s u p h.
            let (c, e, w) =
              transition_job-written job_id cancelled now (some "cancelled") (some error) s u h in
            subst (λ y. job_over job_id y ≡ some true) (sym w)
              (ap (viewed is_over) (
                lookup-update_self job_id (moved_job cancelled now (some "cancelled") (some error))
                  s.jobs e));
      })

-- The job is terminal, and no capability of it can still be used.
abbrev pub Closed : String → JobStore → Type 0
Closed job_id s = (job_over job_id s ≡ some true) × (no_issued job_id s.transfers ≡ true)

revoke-Closed :
    (job_id : String) (now : ℕ)
    → Gives
        (λ s. job_over job_id s ≡ some true)
        (revoke_active_transfers job_id now)
        (λ _. Closed job_id)
revoke-Closed job_id now = record {
  gives = λ s u p h. (p, revoke_rows-no_issued job_id now s.transfers);
}

cancel_rows-Closed :
    (job_id : String) (j : Job) (message : String) (now : ℕ)
    → Gives (Held job_id j.status) (cancel_rows job_id j message now) (λ _. Closed job_id)
unfolding cancel_rows
cancel_rows-Closed job_id j message now =
    gives_bind (λ _. Held job_id j.status)
      (gives_kept (Keeps-gets (get_variation_attempt job_id (variation_of j.current_variation))))
      (λ o. gives_then (cancel_attempt-Held job_id j.status now message o) (
        gives_bind (λ _ s. job_over job_id s ≡ some true) (cancel_job-over job_id now message j)
          (λ _. revoke-Closed job_id now)))

require_job-Held :
    (job_id : String) → Gives Anything (require_job job_id) (λ j. Held job_id j.status)
require_job-Held job_id = record {
  gives = λ s j p h. ((require_job-row {P = Anything} job_id).gives s j p h).1;
}

finalize-Closed :
    (job_id : String) (error : Option String) (now : ℕ)
    → Gives Anything
        (finalize_job_cancellation job_id CancelOutcome.cancelled error now)
        (λ _. Closed job_id)
unfolding finalize_job_cancellation
finalize-Closed job_id error now =
    gives_bind (λ j. Held job_id j.status) (require_job-Held job_id)
      (λ j.
        gives_then
          (write_job-Held job_id j.status (cancel_settled CancelOutcome.cancelled now) (λ _. refl))
          (cancel_rows-Closed job_id j (cancel_message error) now))

-- When a cancellation is finalized as cancelled and returns, the job's status is terminal, and none of
-- its transfer capabilities is still issued.
pub finalize_job_cancellation-Closed :
    (job_id : String) (error : Option String) (now : ℕ) (s : JobStore)
    → (finalize_job_cancellation job_id CancelOutcome.cancelled error now s).0 ≡ ok tt
    → Closed job_id (finalize_job_cancellation job_id CancelOutcome.cancelled error now s).1
finalize_job_cancellation-Closed job_id error now s h =
    (finalize-Closed job_id error now).gives s tt tt h
