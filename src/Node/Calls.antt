-- ===== src/Node/Calls.antt =====
-- The calls of `NodeDatabase` in src/ace_node/db.py that write, in any order, and the writes that they
-- are made of.
use audio_ventura.Base.{
  ℕ, ◌≡◌, ◌⊎◌, inl, inr, refl, Bool, true, false, not, Option, none, some, List, [], ◌∷◌, String,
  ltb, Result, ok, raise_if, ◌>>=◌, ◌>>◌, Keeps, Keeps-bind, Keeps-then, Keeps-if, Keeps-raise_if,
  Keeps-raise, Keeps-pure, Keeps-gets, lookup, update, Option-cases, Result-cases, Bool-cases,
  string_eq, nat_eq,
}
use audio_ventura.Node.Values.{
  NodeFailure, submission_conflict, node_database_error, Value, validate_durable_result,
}
use audio_ventura.Node.Database.{
  NodeState, is_queued, is_running, is_terminal, NodeRow, NodeJobs, Runtime, update_where, recover,
  set_running, safe_error_code, max_result_bytes, new_row, insert_row, is_identity, lifted,
  succeeded_row, failed_row, running_row, cancelled_row, paired, row_to_job, select_job, submitted,
  submit, succeed, fail, cancelled_pending, cancel_pending, find_nonce,
}

pub data NodeCall : Type 0 where
  submit_job : String → ℕ → String → String → ℕ → NodeCall
  start_job : String → ℕ → NodeCall
  succeed_job : String → Value → ℕ → NodeCall
  fail_job : String → String → ℕ → NodeCall
  cancel_job : String → ℕ → NodeCall
  recover_jobs : ℕ → NodeCall

pub update_where-cases :
    (id : String) (test : NodeState → Bool) (f : NodeRow → NodeRow) (t : NodeJobs)
    → (update_where id test f t ≡ (ok false, t))
      ⊎ ((row : NodeRow) × (lookup id t ≡ some row)
          × (test row.state ≡ true)
          × (update_where id test f t ≡ (ok true, update id f t)))
unfolding update_where
update_where-cases id test f t = elim (Option-cases (lookup id t)) [
  | inl e ↦ inl (rw (e, update_where) refl)
  | inr (row, e) ↦ elim (Bool-cases (test row.state)) [
    | inl b ↦ inr (row, e, b, rw (e, b, update_where) refl)
    | inr b ↦ inl (rw (e, b, update_where) refl)
  ]
]

module _ (p : Runtime) where
  unfoldable pub run_call : NodeCall → NodeJobs → NodeJobs
  run_call (submit_job a i n id now) t = (submit p a i n id now t).1
  run_call (start_job id now) t = (set_running id now t).1
  run_call (succeed_job id v now) t = (succeed p id v now t).1
  run_call (fail_job id code now) t = (fail p id code now t).1
  run_call (cancel_job id now) t = (cancel_pending p id now t).1
  run_call (recover_jobs now) t = (recover now t).1

  unfoldable pub run_calls : List NodeCall → NodeJobs → NodeJobs
  run_calls [] t = t
  run_calls (c ∷ cs) t = run_calls cs (run_call c t)

  -- A text that `succeed` may store.
  abbrev pub IsDurable : String → Type 0
  IsDurable raw =
      (v : Value) × (raw ≡ p.dumps v)
      × (validate_durable_result p.lower 0 v ≡ ok tt)
      × (ltb max_result_bytes (p.utf8_size raw) ≡ false)

  -- A write of one row: it leaves a job that has ended alone, and the identity of every job.
  pub record IsStep (test : NodeState → Bool) (f : NodeRow → NodeRow) : Type 0 where
    pub spares : (s : NodeState) → is_terminal s ≡ true → test s ≡ false
    pub same_application : (row : NodeRow) → (f row).application_job_id ≡ row.application_job_id
    pub same_index : (row : NodeRow) → (f row).variation_index ≡ row.variation_index
    pub same_nonce : (row : NodeRow) → (f row).submission_nonce ≡ row.submission_nonce
    pub durable :
        (row : NodeRow)
        → ((f row).result_json ≡ row.result_json)
          ⊎ ((raw : String) × ((f row).result_json ≡ some raw) × IsDurable raw)

  -- What a predicate of the table must survive.
  pub record Kept (P : NodeJobs → Type 0) : Type 0 where
    pub by_update :
        (id : String) (test : NodeState → Bool) (f : NodeRow → NodeRow)
        → IsStep test f
        → Keeps P (update_where id test f)
    pub by_recovery : (now : ℕ) → Keeps P (recover now)
    pub by_insert :
        (id : String) (row : NodeRow) → row.result_json ≡ none → Keeps P (insert_row id row)

  queued_spares : (s : NodeState) → is_terminal s ≡ true → is_queued s ≡ false
  queued_spares NodeState.queued h = cc
  queued_spares NodeState.running h = refl
  queued_spares NodeState.succeeded h = refl
  queued_spares NodeState.failed h = refl
  queued_spares NodeState.cancelled h = refl

  running_spares : (s : NodeState) → is_terminal s ≡ true → is_running s ≡ false
  running_spares NodeState.queued h = refl
  running_spares NodeState.running h = cc
  running_spares NodeState.succeeded h = refl
  running_spares NodeState.failed h = refl
  running_spares NodeState.cancelled h = refl

  open_spares : (s : NodeState) → is_terminal s ≡ true → not (is_terminal s) ≡ false
  open_spares s h = rw h refl

  running-IsStep : (now : ℕ) → IsStep is_queued (running_row now)
  running-IsStep now = record {
    spares = queued_spares;
    same_application = λ row. refl;
    same_index = λ row. refl;
    same_nonce = λ row. refl;
    durable = λ row. inl refl;
  }

  cancelled-IsStep : (now : ℕ) → IsStep is_queued (cancelled_row now)
  cancelled-IsStep now = record {
    spares = queued_spares;
    same_application = λ row. refl;
    same_index = λ row. refl;
    same_nonce = λ row. refl;
    durable = λ row. inl refl;
  }

  failed-IsStep :
      (code : String) (now : ℕ) → IsStep (λ s. not (is_terminal s)) (failed_row code now)
  failed-IsStep code now = record {
    spares = open_spares;
    same_application = λ row. refl;
    same_index = λ row. refl;
    same_nonce = λ row. refl;
    durable = λ row. inl refl;
  }

  succeeded-IsStep :
      (raw : String) (now : ℕ) → IsDurable raw → IsStep is_running (succeeded_row raw now)
  succeeded-IsStep raw now d = record {
    spares = running_spares;
    same_application = λ row. refl;
    same_index = λ row. refl;
    same_nonce = λ row. refl;
    durable = λ row. inr (raw, refl, d);
  }

  module _ {P : NodeJobs → Type 0} (k : Kept P) where
    lifted-Keeps : {A : Type 0} (r : Result NodeFailure A) → Keeps P (lifted r)
    lifted-Keeps r = record { kept = λ s q. q }

    select_job-Keeps : (message id : String) → Keeps P (select_job p message id)
    unfolding select_job
    select_job-Keeps message id = record { kept = λ s q. q }

    submitted-Keeps :
        (a : String) (i : ℕ) (n id : String) (now : ℕ) (o : Option (String × NodeRow))
        → Keeps P (submitted p a i n id now o)
    unfolding submitted
    submitted-Keeps a i n id now (some (j, row)) =
        Keeps-if (not (is_identity a i row))
          (Keeps-raise (submission_conflict "submission nonce conflicts with immutable identity"))
          (lifted-Keeps (paired false (row_to_job p j row)))
    submitted-Keeps a i n id now none = Keeps-then (k.by_insert id (new_row a i n now) refl) (
        Keeps-bind (select_job-Keeps "node submission was not recorded" id)
          (λ job. Keeps-pure (job, true)))

    submit-Keeps : (a : String) (i : ℕ) (n id : String) (now : ℕ) → Keeps P (submit p a i n id now)
    unfolding submit
    submit-Keeps a i n id now =
        Keeps-bind (Keeps-gets (find_nonce n)) (λ o. submitted-Keeps a i n id now o)

    fail-Keeps : (id code : String) (now : ℕ) → Keeps P (fail p id code now)
    unfolding fail
    fail-Keeps id code now =
        Keeps-bind
          (k.by_update id (λ s. not (is_terminal s))
            (failed_row (safe_error_code (p.lower (p.strip code))) now)
            (failed-IsStep (safe_error_code (p.lower (p.strip code))) now))
          (λ _. select_job-Keeps "node job disappeared" id)

    set_running-Keeps : (id : String) (now : ℕ) → Keeps P (set_running id now)
    unfolding set_running
    set_running-Keeps id now = k.by_update id is_queued (running_row now) (running-IsStep now)

    cancelled-Keeps :
        (id : String) (now : ℕ) (o : Option NodeRow) → Keeps P (cancelled_pending p id now o)
    unfolding cancelled_pending
    cancelled-Keeps id now none = Keeps-pure (none, false)
    cancelled-Keeps id now (some row) =
        Keeps-if (not (is_queued row.state))
          (Keeps-bind (lifted-Keeps (row_to_job p id row)) (λ job. Keeps-pure (some job, false)))
          (Keeps-bind (k.by_update id is_queued (cancelled_row now) (cancelled-IsStep now)) (λ _.
            Keeps-bind (select_job-Keeps "node job disappeared" id)
              (λ job. Keeps-pure (some job, true))))

    cancel-Keeps : (id : String) (now : ℕ) → Keeps P (cancel_pending p id now)
    unfolding cancel_pending
    cancel-Keeps id now = Keeps-bind (Keeps-gets (lookup id)) (λ o. cancelled-Keeps id now o)

    -- Behind the two checks, what is stored is durable.
    stored-Keeps :
        (id : String) (v : Value) (now : ℕ)
        → IsDurable (p.dumps v)
        → Keeps P (
            update_where id is_running (succeeded_row (p.dumps v) now) >>= (λ hit.
              raise_if (not hit) (node_database_error "node job is not running")
              >> select_job p "node job disappeared" id))
    stored-Keeps id v now d =
        Keeps-bind
          (k.by_update id is_running (succeeded_row (p.dumps v) now)
            (succeeded-IsStep (p.dumps v) now d))
          (λ hit.
            Keeps-then (Keeps-raise_if (not hit) (node_database_error "node job is not running"))
              (select_job-Keeps "node job disappeared" id))

    succeed-Keeps : (id : String) (v : Value) (now : ℕ) → Keeps P (succeed p id v now)
    unfolding succeed
    succeed-Keeps id v now = record {
      kept = λ s q. elim (Result-cases (validate_durable_result p.lower 0 v)) [
        | inr (x, e) ↦ rw e q
        | inl (u, e) ↦ elim (Bool-cases (ltb max_result_bytes (p.utf8_size (p.dumps v)))) [
          | inl b ↦ rw (e, b) q
          | inr b ↦ rw (e, b) ((stored-Keeps id v now (v, refl, e, b)).kept s q)
        ]
      ];
    }

    run_call-Keeps : (c : NodeCall) (t : NodeJobs) → P t → P (run_call c t)
    unfolding run_call
    run_call-Keeps (submit_job a i n id now) t q = (submit-Keeps a i n id now).kept t q
    run_call-Keeps (start_job id now) t q = (set_running-Keeps id now).kept t q
    run_call-Keeps (succeed_job id v now) t q = (succeed-Keeps id v now).kept t q
    run_call-Keeps (fail_job id code now) t q = (fail-Keeps id code now).kept t q
    run_call-Keeps (cancel_job id now) t q = (cancel-Keeps id now).kept t q
    run_call-Keeps (recover_jobs now) t q = (k.by_recovery now).kept t q

    pub run_calls-Keeps : (cs : List NodeCall) (t : NodeJobs) → P t → P (run_calls cs t)
    unfolding run_calls
    run_calls-Keeps [] t q = q
    run_calls-Keeps (c ∷ cs) t q = run_calls-Keeps cs (run_call c t) (run_call-Keeps c t q)
