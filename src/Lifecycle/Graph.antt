-- ===== src/Lifecycle/Graph.antt =====
-- The graph of the transition tables of src/ace_service/state.py.
use audio_ventura.Base.{ℕ, ◌≡◌, refl, true, false, arith, ok}
use audio_ventura.Lifecycle.{
  JobStatus, queued, ingesting, staging, cloud_queued, generating, completed, failed, cancelled,
  is_terminal, validate_job_transition, validate_variation_transition,
}

-- preparation, provider queue, generation, end
abbrev pub phase : JobStatus → ℕ
phase queued = 0
phase ingesting = 0
phase staging = 0
phase cloud_queued = 1
phase generating = 2
phase _ = 3

-- A job in a terminal status makes no transition but the empty one to that status.
pub terminal_absorbs :
    (s t : JobStatus) → is_terminal s ≡ true → validate_job_transition s t ≡ ok tt → t ≡ s
unfolding validate_job_transition
terminal_absorbs s t d h = ground arith

-- Whatever a variation attempt may do, its job may do too.
pub validate_variation_transition-job :
    (s t : JobStatus)
    → validate_variation_transition s t ≡ ok tt
    → validate_job_transition s t ≡ ok tt
unfolding validate_variation_transition validate_job_transition
validate_variation_transition-job s t h = ground arith

-- A job in any status that is not terminal may be failed and may be cancelled at once.
pub nonterminal_may_end :
    (s : JobStatus)
    → is_terminal s ≡ false
    → (validate_job_transition s failed ≡ ok tt) × (validate_job_transition s cancelled ≡ ok tt)
unfolding validate_job_transition
nonterminal_may_end s h = (ground arith, ground arith)

-- Runs of accepted transitions of a job.
pub data Runs (s : JobStatus) : JobStatus → Type 0 where
  here : Runs s s
  next : {t u : JobStatus} → Runs s t → validate_job_transition t u ≡ ok tt → Runs s u

cloud_queued-completed : {s : JobStatus} → Runs s cloud_queued → Runs s completed
unfolding validate_job_transition
cloud_queued-completed r = next r refl

queued-completed : {s : JobStatus} → Runs s queued → Runs s completed
unfolding validate_job_transition
queued-completed r = cloud_queued-completed (next r refl)

-- From every status that is not terminal some run of accepted transitions ends in `completed`.
pub Runs-completed : (s : JobStatus) → is_terminal s ≡ false → Runs s completed
unfolding validate_job_transition
Runs-completed queued h = queued-completed here
Runs-completed ingesting h = queued-completed (next here refl)
Runs-completed staging h = queued-completed (next here refl)
Runs-completed cloud_queued h = cloud_queued-completed here
Runs-completed generating h = next here refl
Runs-completed completed h = cc
Runs-completed failed h = cc
Runs-completed cancelled h = cc
