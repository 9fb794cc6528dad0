-- ===== src/Derivatives.antt =====
-- The derivative tasks of src/ace_service/repository.py, over the rows of `MediaDerivativeTask` in
-- src/ace_service/models.py. What a call reads of a media item and of its files is an argument, as are
-- an id made by `uuid4` and the time; `uuid.UUID` gives nothing where it raises. An error text is cut
-- by `cut`, Python's slice of a `str`. These calls never write the output file and the time of
-- completion, which are left out.
use audio_ventura.Base.{
  ℕ, suc, ◌+◌, Bool, true, false, not, ◌&&◌, ◌||◌, Option, none, some, List, [], ◌∷◌, String, ◌==◌,
  nat_eq, string_eq, is_some, if◌then◌else◌, Result, ok, err, Exec, pure, raise, raise_if, gets,
  modify, or_raise, ◌>>=◌, ◌>>◌, Table, lookup, update, insert, find_row,
}
use audio_ventura.Errors.{Failure, value_error, key_error, integrity_error}
pub mod Calls
pub mod Single
mod Tests

pub data DerivativeStatus : Type 0 where
  pending running ready failed : DerivativeStatus

pub record MediaDerivativeTask : Type 0 where
  pub media_item_id : String
  pub source_media_file_id : ℕ
  pub status : DerivativeStatus
  pub attempt_count : ℕ
  pub next_attempt_at : Option ℕ
  pub error_code : Option String
  pub user_facing_error : Option String
  pub started_at : Option ℕ
  pub created_at : ℕ
  pub updated_at : ℕ

abbrev pub Tasks : Type 0
Tasks = Table String MediaDerivativeTask

abbrev pub Call : Type 0 → Type 0
Call A = Exec Tasks Failure A

abbrev pub is_ready : DerivativeStatus → Bool
is_ready ready = true
is_ready _ = false

abbrev pub is_failed : DerivativeStatus → Bool
is_failed failed = true
is_failed _ = false

-- A source file, and whether its format is FLAC or WAV.
pub record SourceFile : Type 0 where
  pub media_item_id : String
  pub is_lossless : Bool

-- Whether the task's media item is active and still has its generated output.
pub record ItemView : Type 0 where
  pub is_active : Bool
  pub has_generated_output : Bool

abbrev pub new_task : String → ℕ → ℕ → MediaDerivativeTask
new_task item_id file_id now = record {
  media_item_id = item_id;
  source_media_file_id = file_id;
  status = pending;
  attempt_count = 0;
  next_attempt_at = none;
  error_code = none;
  user_facing_error = none;
  started_at = none;
  created_at = now;
  updated_at = now;
}

abbrev pub running_task : ℕ → MediaDerivativeTask → MediaDerivativeTask
running_task now task = record task {
  status = running;
  attempt_count = task.attempt_count + 1;
  started_at = some now;
  next_attempt_at = none;
  error_code = none;
  user_facing_error = none;
  updated_at = now;
}

abbrev pub failed_task : String → String → Option ℕ → ℕ → MediaDerivativeTask → MediaDerivativeTask
failed_task code error retry_at now task = record task {
  status = failed;
  error_code = some code;
  user_facing_error = some error;
  next_attempt_at = retry_at;
  updated_at = now;
}

abbrev pub retried_task : ℕ → MediaDerivativeTask → MediaDerivativeTask
retried_task now task = record task {
  status = pending;
  next_attempt_at = none;
  error_code = none;
  user_facing_error = none;
  updated_at = now;
}

abbrev pub of_item : String → MediaDerivativeTask → Bool
of_item item_id task = task.media_item_id == item_id

-- The table's key; a second task of the item was looked for before.
unfoldable pub insert_task : String → MediaDerivativeTask → Call Unit
insert_task id task t =
    if is_some (lookup id t) then (err integrity_error, t) else (ok tt, insert id task t)

unfoldable pub require_task : String → Call MediaDerivativeTask
require_task id t = or_raise (lookup id t) key_error t

-- The item owns no such file, or there is none.
abbrev pub is_source_of : String → Option SourceFile → Bool
is_source_of item_id none = false
is_source_of item_id (some file) = file.media_item_id == item_id

abbrev pub is_lossless_file : Option SourceFile → Bool
is_lossless_file none = false
is_lossless_file (some file) = file.is_lossless

module _ (uuid : String → Option String) (cut : ℕ → String → String) where
  unfoldable pub task_uuid : String → Call String
  task_uuid value t = or_raise (uuid value) (value_error "asset identity must be a UUID") t

  unfoldable pub existing_or_new :
      String → ℕ → String → ℕ → Option (String × MediaDerivativeTask) → Call String
  unfolding task_uuid insert_task
  existing_or_new item_id file_id task_id now (some (id, task)) = pure id
  existing_or_new item_id file_id task_id now none = do
    id ← task_uuid task_id
    insert_task id (new_task item_id file_id now)
    pure id

  -- The answer is the id of the task that is returned.
  unfoldable pub create_derivative_task :
      Bool → Option SourceFile → String → ℕ → String → ℕ → Call String
  unfolding existing_or_new
  create_derivative_task has_item file item_id file_id task_id now = do
    raise_if (not (has_item && is_source_of item_id file)) key_error
    raise_if (not (is_lossless_file file))
        (value_error "playback derivatives require a FLAC or WAV source")
    existing ← gets (find_row (of_item item_id))
    existing_or_new item_id file_id task_id now existing

  -- Every status may be run, so the test for another one never raises.
  unfoldable pub mark_derivative_running : String → ℕ → Call Unit
  unfolding task_uuid require_task
  mark_derivative_running task_id now = do
    id ← task_uuid task_id
    task ← require_task id
    if is_ready task.status then pure tt else modify (update id (running_task now))

  unfoldable pub fail_derivative_task : String → String → String → Option ℕ → ℕ → Call Unit
  unfolding task_uuid require_task
  fail_derivative_task task_id code error retry_at now = do
    id ← task_uuid task_id
    _ ← require_task id
    modify (update id (failed_task (cut 64 code) (cut 500 error) retry_at now))

  unfoldable pub retry_derivative_task : (String → ItemView) → String → ℕ → Call Unit
  unfolding task_uuid require_task
  retry_derivative_task items task_id now = do
    id ← task_uuid task_id
    task ← require_task id
    raise_if (not (is_failed task.status))
        (value_error "only failed derivative tasks can be retried")
    raise_if
        (not (items task.media_item_id).is_active
          || not (items task.media_item_id).has_generated_output)
        (value_error "deleted media cannot retry its playback derivative")
    modify (update id (retried_task now))
