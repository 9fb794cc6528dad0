-- ===== src/Node/Results.antt =====
-- The results that `NodeDatabase` of src/ace_node/db.py stores and reads.
use audio_ventura.Base.{
  ℕ, ◌≡◌, ◌≤◌, ◌⊎◌, inl, inr, refl, ap, subst, sym, ◌∙◌, Bool, true, false, not, Option, none, some,
  List, [], String, ok, arith, Keeps, lookup, update, map_row, lookup-update, lookup-update_self,
  lookup-insert, or_row, ◌==◌, string_eq, nat_eq, if◌then◌else◌, ltb, Bool-cases, ◌>>◌, raise_if,
  after,
}
use audio_ventura.Node.Values.{node_database_error, Value, object, Members, validate_durable_result}
use audio_ventura.Node.Privacy.{Within, IsPlain, validated-Within-IsPlain}
use audio_ventura.Node.Database.{
  NodeState, is_running, succeeded, Call, NodeRow, NodeJobs, NodeJob, Runtime, update_where,
  recover, recovered_row, insert_row, breaks_constraint, succeeded_row, max_result_bytes,
  checked_result, read_result, row_to_job, select_job, get, succeed,
}
use audio_ventura.Node.Calls.{
  NodeCall, run_calls, IsDurable, IsStep, Kept, update_where-cases, run_calls-Keeps,
}
use audio_ventura.Node.Settled.{lookup-recovered, ended_node_job_is_final}

same_option : {A : Type 0} {o : Option A} {a b : A} → o ≡ some a → o ≡ some b → a ≡ b
same_option h k = cc

module _ (p : Runtime) where
  abbrev IsStored : NodeRow → Type 0
  IsStored row =
      (row.result_json ≡ none) ⊎ ((raw : String) × (row.result_json ≡ some raw) × IsDurable p raw)

  abbrev AllStored : NodeJobs → Type 0
  AllStored t = (id : String) (row : NodeRow) → lookup id t ≡ some row → IsStored row

  kept_result : (row r : NodeRow) → r.result_json ≡ row.result_json → IsStored row → IsStored r
  kept_result row r e (inl h) = inl (e ∙ h)
  kept_result row r e (inr (raw, h, d)) = inr (raw, e ∙ h, d)

  step-IsStored :
      {test : NodeState → Bool} {f : NodeRow → NodeRow}
      → IsStep p test f
      → (row : NodeRow) → IsStored row
      → IsStored (f row)
  step-IsStored {f = f} h row q = elim (h.durable row) [
    | inl e ↦ kept_result row (f row) e q
    | inr d ↦ inr d
  ]

  map_row-IsStored :
      (f : NodeRow → NodeRow) (o : Option NodeRow)
      → ((row : NodeRow) → o ≡ some row → IsStored (f row))
      → (r : NodeRow) → map_row f o ≡ some r
      → IsStored r
  map_row-IsStored f none h r e = cc
  map_row-IsStored f (some row) h r e = subst IsStored (same_option refl e) (h row refl)

  update-AllStored :
      (k : String) (f : NodeRow → NodeRow) (t : NodeJobs)
      → ((row : NodeRow) → IsStored row → IsStored (f row))
      → AllStored t
      → AllStored (update k f t)
  update-AllStored k f t h q id r e = elim (Bool-cases (id == k)) [
    | inl b ↦
        map_row-IsStored f (lookup id t) (λ row l. h row (q id row l)) r
          (rw (lookup-update k id f t, b) at e)
    | inr b ↦ q id r (rw (lookup-update k id f t, b) at e)
  ]

  recovered_row-result :
      (now : ℕ) (row : NodeRow) → (recovered_row now row).result_json ≡ row.result_json
  recovered_row-result now row = ground arith

  or_row-IsStored :
      (o : Option NodeRow) (b : Bool) (row r : NodeRow)
      → ((s : NodeRow) → o ≡ some s → IsStored s)
      → row.result_json ≡ none
      → or_row o (if b then some row else none) ≡ some r
      → IsStored r
  or_row-IsStored (some s) b row r h n e = h r e
  or_row-IsStored none true row r h n e = subst IsStored (same_option refl e) (inl n)
  or_row-IsStored none false row r h n e = cc

  insert-AllStored :
      (k : String) (row : NodeRow) → row.result_json ≡ none → Keeps AllStored (insert_row k row)
  unfolding insert_row
  insert-AllStored k row n = record {
    kept = λ t q. elim (Bool-cases (breaks_constraint k row.variation_index t)) [
      | inl b ↦ rw b q
      | inr b ↦ rw b (λ id r e.
          or_row-IsStored (lookup id t) (k == id) row r (q id) n
            (rw (lookup-insert k id row t) at e))
    ];
  }

  AllStored-Kept : Kept p AllStored
  unfolding recover
  AllStored-Kept = record {
    by_update = λ k test f h. record {
      kept = λ t q. elim (update_where-cases k test f t) [
        | inl w ↦ subst (λ y. AllStored y.1) (sym w) q
        | inr (r, e, b, w) ↦
            subst (λ y. AllStored y.1) (sym w) (update-AllStored k f t (step-IsStored h) q)
      ];
    };
    by_recovery = λ now. record {
      kept = λ t q id r e.
          map_row-IsStored (recovered_row now) (lookup id t)
            (λ row l.
              kept_result row (recovered_row now row) (recovered_row-result now row) (q id row l))
            r (sym (lookup-recovered id now t) ∙ e);
    };
    by_insert = insert-AllStored;
  }

  empty-AllStored : AllStored []
  unfolding lookup
  empty-AllStored id row e = cc

  IsDurable-IsStored :
      (row : NodeRow) (raw : String) → row.result_json ≡ some raw → IsStored row → IsDurable p raw
  IsDurable-IsStored row raw e (inl h) = absurd (ground (arith, e, h))
  IsDurable-IsStored row raw e (inr (r, h, d)) = subst (IsDurable p) (same_option h e) d

  -- What the calls of `NodeCall` store from the empty table on as the result of a job is the JSON of
  -- a value, at most 65,536 bytes long, all of whose parts are plain and at most six containers deep.
  pub stored_result-IsPlain :
      (cs : List NodeCall) (id : String) (row : NodeRow) (raw : String)
      → lookup id (run_calls p cs []) ≡ some row
      → row.result_json ≡ some raw
      → (v : Value) × (raw ≡ p.dumps v)
        × (p.utf8_size raw ≤ 65536)
        × ((n : ℕ) (w : Value) → Within w n v → (n ≤ 6) × IsPlain p.lower w)
  stored_result-IsPlain cs id row raw l e =
      let q = run_calls-Keeps p AllStored-Kept cs [] empty-AllStored id row l in
      let (v, r, c, s) = IsDurable-IsStored row raw e q in
      (v, r, ground (arith, s), λ n w i. validated-Within-IsPlain p.lower c i)

  abbrev succeeded_job : (id : String) (v : Value) (now : ℕ) (row : NodeRow) → NodeJob
  succeeded_job id v now row = record {
    job_id = id;
    application_job_id = row.application_job_id;
    variation_index = row.variation_index;
    submission_nonce = row.submission_nonce;
    state = succeeded;
    error_code = none;
    result = some v;
    created_at = row.created_at;
    updated_at = now;
  }

  -- What a job that succeeds is answered with, and how the steps of `succeed` come to it.
  read-succeeded :
      (id : String) (ms : Members) (now : ℕ) (row : NodeRow)
      → validate_durable_result p.lower 0 (object ms) ≡ ok tt
      → p.loads (p.dumps (object ms)) ≡ some (object ms)
      → row_to_job p id (succeeded_row (p.dumps (object ms)) now row)
        ≡ ok (succeeded_job id (object ms) now row)
  unfolding row_to_job
  read-succeeded id ms now row c l = rw (l, c, row_to_job, read_result, checked_result) refl

  update_where-hit :
      (id : String) (f : NodeRow → NodeRow) (t : NodeJobs) (row : NodeRow)
      → lookup id t ≡ some row
      → is_running row.state ≡ true
      → update_where id is_running f t ≡ (ok true, update id f t)
  unfolding update_where
  update_where-hit id f t row e b = rw (e, b, update_where) refl

  select_job-hit :
      (message id : String) (t : NodeJobs) (row : NodeRow) (job : NodeJob)
      → lookup id t ≡ some row
      → row_to_job p id row ≡ ok job
      → select_job p message id t ≡ (ok job, t)
  unfolding select_job
  select_job-hit message id t row job e r = rw (e, r) refl

  get-hit :
      (id : String) (t : NodeJobs) (row : NodeRow) (job : NodeJob)
      → lookup id t ≡ some row
      → row_to_job p id row ≡ ok job
      → get p id t ≡ (ok (some job), t)
  unfolding get
  get-hit id t row job e r = rw (e, r, get) refl

  abbrev behind_update : String → Bool → Call NodeJob
  behind_update id hit =
      raise_if (not hit) (node_database_error "node job is not running")
      >> select_job p "node job disappeared" id

  succeed-hit :
      (id : String) (v : Value) (now : ℕ) (t : NodeJobs) (row : NodeRow)
      → validate_durable_result p.lower 0 v ≡ ok tt
      → ltb max_result_bytes (p.utf8_size (p.dumps v)) ≡ false
      → lookup id t ≡ some row
      → is_running row.state ≡ true
      → succeed p id v now t
        ≡ select_job p "node job disappeared" id (update id (succeeded_row (p.dumps v) now) t)
  unfolding succeed
  succeed-hit id v now t row c s e b =
      rw (c, s)
        (ap (after (behind_update id))
          (update_where-hit id (succeeded_row (p.dumps v) now) t row e b))

  -- A result that passes the checks, of a running job, is stored: `succeed` returns the job with it, and
  -- `get` returns that very job after any sequence of the calls of `NodeCall`. The result is one that
  -- `json` reads back.
  pub get-succeed :
      (id : String) (ms : Members) (now : ℕ) (t : NodeJobs) (row : NodeRow)
      → lookup id t ≡ some row
      → is_running row.state ≡ true
      → validate_durable_result p.lower 0 (object ms) ≡ ok tt
      → p.utf8_size (p.dumps (object ms)) ≤ 65536
      → p.loads (p.dumps (object ms)) ≡ some (object ms)
      → (cs : List NodeCall)
      → (job : NodeJob) × ((succeed p id (object ms) now t).0 ≡ ok job)
        × (job.result ≡ some (object ms))
        × ((get p id (run_calls p cs (succeed p id (object ms) now t).1)).0 ≡ ok (some job))
  get-succeed id ms now t row e b c s l cs =
      let raw = p.dumps (object ms) in
      let u = update id (succeeded_row raw now) t in
      let after_row = succeeded_row raw now row in
      let job = succeeded_job id (object ms) now row in
      let f = lookup-update_self id (succeeded_row raw now) t e in
      let r = read-succeeded id ms now row c l in
      let w =
        succeed-hit id (object ms) now t row c (ground (arith, s)) e b
        ∙ select_job-hit "node job disappeared" id u after_row job f r in
      (
        job,
        ap (λ y. y.0) w,
        refl,
        subst (λ y. (get p id (run_calls p cs y.1)).0 ≡ ok (some job)) (sym w)
            (ap (λ y. y.0)
              (get-hit id (run_calls p cs u) after_row job
                (ended_node_job_is_final p id after_row u f refl cs) r)),
      )
