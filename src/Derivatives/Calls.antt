-- ===== src/Derivatives/Calls.antt =====
-- Sequences of the calls of src/ace_service/repository.py on derivative tasks.
use audio_ventura.Base.{
  ℕ, ◌≡◌, inl, inr, refl, sym, subst, after, Result-cases, Bool, not, ◌&&◌, ◌||◌, Option, none,
  some, List, [], ◌∷◌, String, string_eq, nat_eq, ok, err, pure, modify, ◌>>=◌, ◌>>◌, lookup,
  update, find_row, Keeps, Keeps-bind, Keeps-then, Keeps-if, Keeps-raise_if, Keeps-pure,
  Option-cases, Bool-cases,
}
use audio_ventura.Errors.{Failure, value_error}
use audio_ventura.Derivatives.{
  MediaDerivativeTask, Tasks, Call, is_ready, is_failed, SourceFile, ItemView, new_task,
  running_task, failed_task, retried_task, of_item, insert_task, require_task, is_source_of,
  is_lossless_file, task_uuid, existing_or_new, create_derivative_task, mark_derivative_running,
  fail_derivative_task, retry_derivative_task,
}

pub data TaskCall : Type 0 where
  create : Bool → Option SourceFile → String → ℕ → String → ℕ → TaskCall
  start : String → ℕ → TaskCall
  fail : String → String → String → Option ℕ → ℕ → TaskCall
  retry : (String → ItemView) → String → ℕ → TaskCall

-- What a predicate of the table must survive: a write that leaves the item of a task alone, and the
-- first task of an item.
pub record Kept (P : Tasks → Type 0) : Type 0 where
  pub by_update :
      (id : String) (f : MediaDerivativeTask → MediaDerivativeTask)
      → ((task : MediaDerivativeTask) → (f task).media_item_id ≡ task.media_item_id)
      → Keeps {E = Failure} P (modify (update id f))
  pub by_insert :
      (id : String) (task : MediaDerivativeTask) (t : Tasks)
      → find_row (of_item task.media_item_id) t ≡ none
      → P t
      → P (insert_task id task t).1

then_pure-state : {A : Type 0} (m : Call Unit) (a : A) (t : Tasks) → ((m >> pure a) t).1 ≡ (m t).1
then_pure-state m a t = elim (Result-cases (m t).0) [
  | inl (u, e) ↦ rw (e, ◌>>=◌) refl
  | inr (x, e) ↦ rw (e, ◌>>=◌) refl
]

task_uuid-none :
    (uuid : String → Option String) (cut : ℕ → String → String) (id : String) (t : Tasks)
    → uuid id ≡ none
    → task_uuid uuid cut id t ≡ (err (value_error "asset identity must be a UUID"), t)
unfolding task_uuid
task_uuid-none uuid cut id t e = rw e refl

task_uuid-some :
    (uuid : String → Option String) (cut : ℕ → String → String) (id : String) (t : Tasks)
    (key : String)
    → uuid id ≡ some key
    → task_uuid uuid cut id t ≡ (ok key, t)
unfolding task_uuid
task_uuid-some uuid cut id t key e = rw e refl

module _ (uuid : String → Option String) (cut : ℕ → String → String) where
  unfoldable pub run_call : TaskCall → Tasks → Tasks
  run_call (create has_item file item_id file_id task_id now) t =
      (create_derivative_task uuid cut has_item file item_id file_id task_id now t).1
  run_call (start task_id now) t = (mark_derivative_running uuid cut task_id now t).1
  run_call (fail task_id code error retry_at now) t =
      (fail_derivative_task uuid cut task_id code error retry_at now t).1
  run_call (retry items task_id now) t = (retry_derivative_task uuid cut items task_id now t).1

  unfoldable pub run_calls : List TaskCall → Tasks → Tasks
  run_calls [] t = t
  run_calls (c ∷ cs) t = run_calls cs (run_call c t)

  module _ {P : Tasks → Type 0} (k : Kept P) where
    task_uuid-Keeps : (id : String) → Keeps P (task_uuid uuid cut id)
    unfolding task_uuid
    task_uuid-Keeps id = record {
      kept = λ t q. elim (Option-cases (uuid id)) [ inl e ↦ rw e q | inr (c, e) ↦ rw e q ];
    }

    require_task-Keeps : (id : String) → Keeps P (require_task id)
    unfolding require_task
    require_task-Keeps id = record {
      kept = λ t q. elim (Option-cases (lookup id t)) [ inl e ↦ rw e q | inr (c, e) ↦ rw e q ];
    }

    start-Keeps : (id : String) (now : ℕ) → Keeps P (mark_derivative_running uuid cut id now)
    unfolding mark_derivative_running
    start-Keeps id now = Keeps-bind (task_uuid-Keeps id) (λ key.
        Keeps-bind (require_task-Keeps key) (λ task.
          Keeps-if (is_ready task.status) (Keeps-pure tt)
            (k.by_update key (running_task now) (λ _. refl))))

    fail-Keeps :
        (id code error : String) (retry_at : Option ℕ) (now : ℕ)
        → Keeps P (fail_derivative_task uuid cut id code error retry_at now)
    unfolding fail_derivative_task
    fail-Keeps id code error retry_at now = Keeps-bind (task_uuid-Keeps id) (λ key.
        Keeps-bind (require_task-Keeps key) (λ _.
          k.by_update key (failed_task (cut 64 code) (cut 500 error) retry_at now) (λ _. refl)))

    retry-Keeps :
        (items : String → ItemView) (id : String) (now : ℕ)
        → Keeps P (retry_derivative_task uuid cut items id now)
    unfolding retry_derivative_task
    retry-Keeps items id now = Keeps-bind (task_uuid-Keeps id) (λ key.
        Keeps-bind (require_task-Keeps key) (λ task.
          Keeps-then
            (Keeps-raise_if (not (is_failed task.status))
              (value_error "only failed derivative tasks can be retried"))
            (Keeps-then
              (Keeps-raise_if
                (not (items task.media_item_id).is_active
                  || not (items task.media_item_id).has_generated_output)
                (value_error "deleted media cannot retry its playback derivative"))
              (k.by_update key (retried_task now) (λ _. refl)))))

    -- The insertion, behind its id.
    abbrev behind_id : String → ℕ → ℕ → String → Call String
    behind_id item_id file_id now key = insert_task key (new_task item_id file_id now) >> pure key

    insertion-Keeps :
        (item_id : String) (file_id : ℕ) (task_id : String) (now : ℕ) (t : Tasks)
        → find_row (of_item item_id) t ≡ none
        → P t
        → P (existing_or_new uuid cut item_id file_id task_id now none t).1
    unfolding existing_or_new
    insertion-Keeps item_id file_id task_id now t e q = elim (Option-cases (uuid task_id)) [
      | inl u ↦
          subst (λ y. P (after (behind_id item_id file_id now) y).1)
            (sym (task_uuid-none uuid cut task_id t u)) q
      | inr (key, u) ↦
          subst (λ y. P (after (behind_id item_id file_id now) y).1)
            (sym (task_uuid-some uuid cut task_id t key u))
            (subst P (sym (then_pure-state (insert_task key (new_task item_id file_id now)) key t))
              (k.by_insert key (new_task item_id file_id now) t e q))
    ]

    found-Keeps :
        (item_id : String) (file_id : ℕ) (task_id : String) (now : ℕ) (t : Tasks)
        → P t
        → P
            (existing_or_new uuid cut item_id file_id task_id now
              (find_row (of_item item_id) t)
              t).1
    unfolding existing_or_new
    found-Keeps item_id file_id task_id now t q =
        elim (Option-cases (find_row (of_item item_id) t)) [
          | inl e ↦
              subst (λ o. P (existing_or_new uuid cut item_id file_id task_id now o t).1) (sym e)
                (insertion-Keeps item_id file_id task_id now t e q)
          | inr ((id, task), e) ↦
              subst (λ o. P (existing_or_new uuid cut item_id file_id task_id now o t).1) (sym e) q
        ]

    create-Keeps :
        (has_item : Bool) (file : Option SourceFile) (item_id : String) (file_id : ℕ)
        (task_id : String) (now : ℕ)
        → Keeps P (create_derivative_task uuid cut has_item file item_id file_id task_id now)
    unfolding create_derivative_task
    create-Keeps has_item file item_id file_id task_id now = record {
      kept = λ t q. elim (Bool-cases (has_item && is_source_of item_id file)) [
        | inr b ↦ rw b q
        | inl b ↦ elim (Bool-cases (is_lossless_file file)) [
          | inr c ↦ rw (b, c) q
          | inl c ↦ rw (b, c) (found-Keeps item_id file_id task_id now t q)
        ]
      ];
    }

    run_call-Keeps : (c : TaskCall) (t : Tasks) → P t → P (run_call c t)
    unfolding run_call
    run_call-Keeps (create has_item file item_id file_id task_id now) t q =
        (create-Keeps has_item file item_id file_id task_id now).kept t q
    run_call-Keeps (start id now) t q = (start-Keeps id now).kept t q
    run_call-Keeps (fail id code error retry_at now) t q =
        (fail-Keeps id code error retry_at now).kept t q
    run_call-Keeps (retry items id now) t q = (retry-Keeps items id now).kept t q

    pub run_calls-Keeps : (cs : List TaskCall) (t : Tasks) → P t → P (run_calls cs t)
    unfolding run_calls
    run_calls-Keeps [] t q = q
    run_calls-Keeps (c ∷ cs) t q = run_calls-Keeps cs (run_call c t) (run_call-Keeps c t q)
