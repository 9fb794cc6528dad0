-- ===== src/Node/Settled.antt =====
-- Jobs of src/ace_node/db.py that have ended, and those that `recover` ends.
use audio_ventura.Base.{
  ℕ, ◌≡◌, inl, inr, refl, ap, subst, sym, ◌∙◌, Bool, true, false, not, ◌||◌, Option, some, List, [],
  ◌∷◌, String, arith, Keeps, lookup, map_row, lookup-update, lookup-insert, ◌==◌, string_eq, nat_eq,
  if◌then◌else◌, Bool-cases,
}
use audio_ventura.Node.Database.{
  NodeState, is_queued, is_running, is_terminal, NodeRow, NodeJobs, Runtime, update_where, recover,
  recovered, recovered_row, unfinished, insert_row, breaks_constraint, failed_row,
}
use audio_ventura.Node.Calls.{
  NodeCall, update_where-cases, run_calls, IsStep, Kept, run_calls-Keeps,
}

-- A queued or running job has not ended, and any other has.
pub is_terminal-open : (s : NodeState) → not (is_terminal s) ≡ (is_queued s || is_running s)
is_terminal-open NodeState.queued = refl
is_terminal-open NodeState.running = refl
is_terminal-open NodeState.succeeded = refl
is_terminal-open NodeState.failed = refl
is_terminal-open NodeState.cancelled = refl

pub lookup-recovered :
    (id : String) (now : ℕ) (t : NodeJobs)
    → lookup id (recovered now t) ≡ map_row (recovered_row now) (lookup id t)
unfolding lookup recovered
lookup-recovered id now [] = refl
lookup-recovered id now ((j, row) ∷ t) = ground (arith, lookup-recovered id now t)

recovered_row-terminal :
    (now : ℕ) (row : NodeRow)
    → recovered_row now row
      ≡ (if is_terminal row.state then row else failed_row "worker_restarted" now row)
recovered_row-terminal now row = ground (arith, is_terminal-open row.state)

unfinished-recovered : (now : ℕ) (t : NodeJobs) → unfinished (recovered now t) ≡ 0
unfolding unfinished recovered
unfinished-recovered now [] = refl
unfinished-recovered now ((id, row) ∷ t) = ground (arith, unfinished-recovered now t)

-- Recovery leaves no job queued or running: one that was becomes failed with `worker_restarted`, and
-- one that had ended keeps its row.
pub recover-unfinished :
    (now : ℕ) (t : NodeJobs) (id : String) (row : NodeRow)
    → lookup id t ≡ some row
    → (unfinished (recover now t).1 ≡ 0)
      × (lookup id (recover now t).1
          ≡ some (if is_terminal row.state then row else failed_row "worker_restarted" now row))
unfolding recover
recover-unfinished now t id row h = (
  unfinished-recovered now t,
  lookup-recovered id now t ∙ (rw h refl ∙ ap some (recovered_row-terminal now row)),
)

clash : {b : Bool} {B : Type 0} → b ≡ true → b ≡ false → B
clash h k = cc

row_of : {o : Option NodeRow} {r s : NodeRow} → o ≡ some r → o ≡ some s → r ≡ s
row_of h k = cc

module _ (id : String) (row : NodeRow) (ended : is_terminal row.state ≡ true) where
  abbrev Frozen : NodeJobs → Type 0
  Frozen t = lookup id t ≡ some row

  update-Frozen :
      (p : Runtime) (k : String) (test : NodeState → Bool) (f : NodeRow → NodeRow)
      → IsStep p test f
      → Keeps Frozen (update_where k test f)
  update-Frozen p k test f h = record {
    kept = λ t q. elim (update_where-cases k test f t) [
      | inl w ↦ subst (λ y. Frozen y.1) (sym w) q
      | inr (r, e, b, w) ↦
          subst (λ y. Frozen y.1) (sym w)
            (elim (Bool-cases (id == k)) [
              | inr n ↦ rw (lookup-update k id f t, n) q
              | inl s ↦ clash b (
                  subst (λ x. test x.state ≡ false)
                    (row_of q
                      (subst (λ j. lookup j t ≡ some r) (sym ((string_eq.same_iff id k).0 s)) e))
                    (h.spares row.state ended))
            ])
    ];
  }

  insert-Frozen : (k : String) (r : NodeRow) → Keeps Frozen (insert_row k r)
  unfolding insert_row
  insert-Frozen k r = record {
    kept = λ t q. elim (Bool-cases (breaks_constraint k r.variation_index t)) [
      | inl b ↦ rw b q
      | inr b ↦ rw (b, lookup-insert k id r t, q) refl
    ];
  }

  Frozen-Kept : (p : Runtime) → Kept p Frozen
  unfolding recover
  Frozen-Kept p = record {
    by_update = update-Frozen p;
    by_recovery = λ now. record {
      kept = λ t q.
          lookup-recovered id now t
          ∙ (rw q refl ∙ ap some (recovered_row-terminal now row ∙ rw ended refl));
    };
    by_insert = λ k r h. insert-Frozen k r;
  }

-- A job that has succeeded, failed or been cancelled keeps its whole row under any sequence of the
-- calls of `NodeCall`.
pub ended_node_job_is_final :
    (p : Runtime) (id : String) (row : NodeRow) (t : NodeJobs)
    → lookup id t ≡ some row
    → is_terminal row.state ≡ true
    → (cs : List NodeCall) → lookup id (run_calls p cs t) ≡ some row
ended_node_job_is_final p id row t h ended cs =
    run_calls-Keeps p (Frozen-Kept id row ended p) cs t h
