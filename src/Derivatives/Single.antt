-- ===== src/Derivatives/Single.antt =====
-- A media item of src/ace_service/repository.py has at most one derivative task.
use audio_ventura.Base.{
  ℕ, ◌≡◌, inl, inr, refl, ◌∙◌, Bool, true, false, not, ◌&&◌, Option, none, some, List, [], ◌∷◌,
  String, ◌==◌, string_eq, nat_eq, lookup, update, insert, find_row, arith, Bool-cases, is_some,
  is_none,
}
use audio_ventura.Derivatives.{MediaDerivativeTask, Tasks, of_item, insert_task}
use audio_ventura.Derivatives.Calls.{TaskCall, run_calls, Kept, run_calls-Keeps}

-- No later task is of the same item.
unfoldable one_each : Tasks → Bool
one_each [] = true
one_each ((id, task) ∷ t) = is_none (find_row (of_item task.media_item_id) t) && one_each t

find_row-update :
    (item : String) (k : String) (f : MediaDerivativeTask → MediaDerivativeTask) (t : Tasks)
    → ((task : MediaDerivativeTask) → (f task).media_item_id ≡ task.media_item_id)
    → is_none (find_row (of_item item) (update k f t)) ≡ is_none (find_row (of_item item) t)
unfolding find_row update
find_row-update item k f [] h = refl
find_row-update item k f ((j, task) ∷ t) h = ground (arith, find_row-update item k f t h, h task)

one_each-update :
    (k : String) (f : MediaDerivativeTask → MediaDerivativeTask) (t : Tasks)
    → ((task : MediaDerivativeTask) → (f task).media_item_id ≡ task.media_item_id)
    → one_each (update k f t) ≡ one_each t
unfolding one_each update
one_each-update k f [] h = refl
one_each-update k f ((j, task) ∷ t) h = elim (Bool-cases (j == k)) [
  | inl b ↦ rw (b, h task, find_row-update task.media_item_id k f t h, one_each-update k f t h) refl
  | inr b ↦ rw (b, find_row-update task.media_item_id k f t h, one_each-update k f t h) refl
]

find_row-insert :
    (item : String) (k : String) (x : MediaDerivativeTask) (t : Tasks)
    → is_none (find_row (of_item item) (insert k x t))
      ≡ (is_none (find_row (of_item item) t) && not (of_item item x))
unfolding find_row insert
find_row-insert item k x [] = ground arith
find_row-insert item k x ((j, task) ∷ t) = ground (arith, find_row-insert item k x t)

one_each-insert :
    (k : String) (x : MediaDerivativeTask) (t : Tasks)
    → is_none (find_row (of_item x.media_item_id) t) ≡ true
    → one_each t ≡ true
    → one_each (insert k x t) ≡ true
unfolding one_each insert find_row
one_each-insert k x [] n h = refl
one_each-insert k x ((j, task) ∷ t) n h = ground (
  arith,
  one_each-insert k x t,
  find_row-insert task.media_item_id k x t,
  n,
  h,
  string_eq.same_iff x.media_item_id task.media_item_id,
  string_eq.same_iff task.media_item_id x.media_item_id,
)

abbrev IsSingle : Tasks → Type 0
IsSingle t = one_each t ≡ true

empty_table : IsSingle []
unfolding one_each
empty_table = refl

insert_task-IsSingle :
    (id : String) (task : MediaDerivativeTask) (t : Tasks)
    → find_row (of_item task.media_item_id) t ≡ none
    → IsSingle t
    → IsSingle (insert_task id task t).1
unfolding insert_task
insert_task-IsSingle id task t e q = elim (Bool-cases (is_some (lookup id t))) [
  | inl b ↦ rw b q
  | inr b ↦ rw b (one_each-insert id task t (rw e refl) q)
]

IsSingle-Kept : Kept IsSingle
IsSingle-Kept = record {
  by_update = λ id f h. record { kept = λ t q. one_each-update id f t h ∙ q };
  by_insert = insert_task-IsSingle;
}

lookup-find_row :
    (i : String) (t : Tasks) (a : MediaDerivativeTask)
    → lookup i t ≡ some a
    → is_none (find_row (of_item a.media_item_id) t) ≡ false
unfolding lookup find_row
lookup-find_row i [] a e = cc
lookup-find_row i ((j, task) ∷ t) a e =
    ground (arith, lookup-find_row i t a, e, string_eq.same_iff a.media_item_id a.media_item_id)

single :
    (i j : String) (t : Tasks) (a b : MediaDerivativeTask)
    → IsSingle t
    → lookup i t ≡ some a
    → lookup j t ≡ some b
    → a.media_item_id ≡ b.media_item_id
    → i ≡ j
unfolding lookup one_each
single i j [] a b q e f h = cc
single i j ((k, task) ∷ t) a b q e f h = ground (
  arith,
  single i j t a b,
  lookup-find_row i t a,
  lookup-find_row j t b,
  q,
  e,
  f,
  h,
  string_eq.same_iff k i,
  string_eq.same_iff k j,
)

-- In every table that the calls of `TaskCall` make from the empty one, two tasks of one media item are
-- the same task.
pub one_task_per_item :
    (uuid : String → Option String) (cut : ℕ → String → String) (cs : List TaskCall) (i j : String)
    (a b : MediaDerivativeTask)
    → lookup i (run_calls uuid cut cs []) ≡ some a
    → lookup j (run_calls uuid cut cs []) ≡ some b
    → a.media_item_id ≡ b.media_item_id
    → i ≡ j
one_task_per_item uuid cut cs i j a b e f h =
    single i j (run_calls uuid cut cs []) a b
      (run_calls-Keeps uuid cut IsSingle-Kept cs [] empty_table) e f h
