-- ===== src/Node/Database.antt =====
-- `NodeDatabase` of src/ace_node/db.py over its table `node_jobs`. A job id made by `uuid4` and the time
-- are arguments. SQLite's transactions are taken as they are used: a call writes what it commits, and
-- one that rolls back writes nothing.
use audio_ventura.Base.{
  ℕ, ◌+◌, Bool, true, false, not, ◌&&◌, ◌||◌, Option, none, some, List, [], ◌∷◌, String, ◌==◌,
  nat_eq, string_eq, ltb, leb, is_some, if◌then◌else◌, Result, ok, err, Exec, pure, raise, raise_if,
  gets, ◌>>=◌, ◌>>◌, Table, lookup, update, insert,
}
use audio_ventura.Node.Values.{
  NodeFailure, submission_conflict, node_database_error, Value, object, one_of,
  validate_durable_result,
}

pub data NodeState : Type 0 where
  queued running succeeded failed cancelled : NodeState

abbrev pub is_queued : NodeState → Bool
is_queued queued = true
is_queued _ = false

abbrev pub is_running : NodeState → Bool
is_running running = true
is_running _ = false

abbrev pub is_terminal : NodeState → Bool
is_terminal succeeded = true
is_terminal failed = true
is_terminal cancelled = true
is_terminal _ = false

-- A row of the table, behind its `job_id`.
pub record NodeRow : Type 0 where
  pub application_job_id : String
  pub variation_index : ℕ
  pub submission_nonce : String
  pub state : NodeState
  pub error_code : Option String
  pub result_json : Option String
  pub created_at : ℕ
  pub updated_at : ℕ

abbrev pub NodeJobs : Type 0
NodeJobs = Table String NodeRow

pub record NodeJob : Type 0 where
  pub job_id : String
  pub application_job_id : String
  pub variation_index : ℕ
  pub submission_nonce : String
  pub state : NodeState
  pub error_code : Option String
  pub result : Option Value
  pub created_at : ℕ
  pub updated_at : ℕ

abbrev pub Call : Type 0 → Type 0
Call A = Exec NodeJobs NodeFailure A

-- What the database calls of Python: the methods of `str`, `json` and the length in UTF-8. `loads` gives
-- nothing where it raises.
pub record Runtime : Type 0 where
  pub strip : String → String
  pub lower : String → String
  pub dumps : Value → String
  pub loads : String → Option Value
  pub utf8_size : String → ℕ

-- `UPDATE … WHERE job_id=? AND state …`, and whether it hit a row.
unfoldable pub update_where : String → (NodeState → Bool) → (NodeRow → NodeRow) → Call Bool
update_where job_id test f t = elim (lookup job_id t) [
  | none ↦ (ok false, t)
  | some row ↦ if test row.state then (ok true, update job_id f t) else (ok false, t)
]

abbrev pub recovered_row : ℕ → NodeRow → NodeRow
recovered_row now row =
    if is_queued row.state || is_running row.state
    then record row { state = failed; error_code = some "worker_restarted"; updated_at = now }
    else row

unfoldable pub recovered : ℕ → NodeJobs → NodeJobs
recovered now [] = []
recovered now ((id, row) ∷ t) = (id, recovered_row now row) ∷ recovered now t

-- How many rows wait or run.
unfoldable pub unfinished : NodeJobs → ℕ
unfinished [] = 0
unfinished ((id, row) ∷ t) =
    (if is_queued row.state || is_running row.state then 1 else 0) + unfinished t

unfoldable pub recover : ℕ → Call ℕ
unfolding recovered unfinished
recover now t = (ok (unfinished t), recovered now t)

unfoldable pub find_nonce : String → NodeJobs → Option (String × NodeRow)
find_nonce nonce [] = none
find_nonce nonce ((id, row) ∷ t) =
    if row.submission_nonce == nonce then some (id, row) else find_nonce nonce t

abbrev pub running_row : ℕ → NodeRow → NodeRow
running_row now row = record row { state = running; updated_at = now }

unfoldable pub set_running : String → ℕ → Call Bool
unfolding update_where
set_running job_id now = update_where job_id is_queued (running_row now)

abbrev pub safe_error_codes : List String
safe_error_codes = "worker_restarted" ∷ "worker_timeout" ∷ "worker_failed" ∷ "upload_failed" ∷ []

abbrev pub safe_error_code : String → String
safe_error_code code = if one_of safe_error_codes code then code else "worker_failed"

abbrev pub max_result_bytes : ℕ
max_result_bytes = 65536

abbrev pub new_row : String → ℕ → String → ℕ → NodeRow
new_row application_job_id variation_index nonce now = record {
  application_job_id = application_job_id;
  variation_index = variation_index;
  submission_nonce = nonce;
  state = queued;
  error_code = none;
  result_json = none;
  created_at = now;
  updated_at = now;
}

-- The primary key and the check of the column `variation_index`. The nonce is known to be new here.
abbrev pub breaks_constraint : String → ℕ → NodeJobs → Bool
breaks_constraint job_id variation_index t =
    is_some (lookup job_id t) || not (leb 1 variation_index && leb variation_index 4)

unfoldable pub insert_row : String → NodeRow → Call Unit
insert_row job_id row t =
    if breaks_constraint job_id row.variation_index t
    then (err (node_database_error "node submission could not be recorded"), t)
    else (ok tt, insert job_id row t)

abbrev pub malformed : NodeFailure
malformed = node_database_error "node result metadata is malformed"

-- The queries that end with a row, and say so where there is none.
abbrev pub answered_by :
    {A : Type 0} → String → (NodeRow → Result NodeFailure A) → Option NodeRow → Result NodeFailure A
answered_by message f none = err (node_database_error message)
answered_by message f (some row) = f row

abbrev pub paired : {A B : Type 0} → B → Result NodeFailure A → Result NodeFailure (A × B)
paired b (ok a) = ok (a, b)
paired b (err e) = err e

abbrev pub cancelled_row : ℕ → NodeRow → NodeRow
cancelled_row now row = record row { state = cancelled; updated_at = now }

abbrev pub is_identity : String → ℕ → NodeRow → Bool
is_identity application_job_id variation_index row =
    row.application_job_id == application_job_id && row.variation_index == variation_index

abbrev pub lifted : {A : Type 0} → Result NodeFailure A → Call A
lifted r t = (r, t)

abbrev pub succeeded_row : String → ℕ → NodeRow → NodeRow
succeeded_row encoded now row = record row {
  state = succeeded;
  error_code = none;
  result_json = some encoded;
  updated_at = now;
}

abbrev pub failed_row : String → ℕ → NodeRow → NodeRow
failed_row code now row = record row { state = failed; error_code = some code; updated_at = now }

module _ (p : Runtime) where
  unfoldable pub checked_result : Option Value → Result NodeFailure (Option Value)
  checked_result (some (object ms)) = elim (validate_durable_result p.lower 0 (object ms)) [
    | ok u ↦ ok (some (object ms))
    | err e ↦ err e
  ]
  checked_result _ = err malformed

  unfoldable pub read_result : Option String → Result NodeFailure (Option Value)
  unfolding checked_result
  read_result none = ok none
  read_result (some raw) = checked_result (p.loads raw)

  unfoldable pub row_to_job : String → NodeRow → Result NodeFailure NodeJob
  unfolding read_result
  row_to_job job_id row = elim (read_result row.result_json) [
    | err e ↦ err e
    | ok result ↦ ok (record {
      job_id = job_id;
      application_job_id = row.application_job_id;
      variation_index = row.variation_index;
      submission_nonce = row.submission_nonce;
      state = row.state;
      error_code = row.error_code;
      result = result;
      created_at = row.created_at;
      updated_at = row.updated_at;
    })
  ]

  unfoldable pub select_job : String → String → Call NodeJob
  unfolding row_to_job
  select_job message job_id t = (answered_by message (row_to_job job_id) (lookup job_id t), t)

  unfoldable pub get : String → Call (Option NodeJob)
  unfolding row_to_job
  get job_id t = elim (lookup job_id t) [
    | none ↦ (ok none, t)
    | some row ↦ elim (row_to_job job_id row) [ ok job ↦ (ok (some job), t) | err e ↦ (err e, t) ]
  ]

  unfoldable pub submitted :
      String → ℕ → String → String → ℕ → Option (String × NodeRow) → Call (NodeJob × Bool)
  unfolding row_to_job insert_row select_job
  submitted application_job_id variation_index nonce job_id now (some (id, row)) =
      if not (is_identity application_job_id variation_index row)
      then raise (submission_conflict "submission nonce conflicts with immutable identity")
      else lifted (paired false (row_to_job id row))
  submitted application_job_id variation_index nonce job_id now none = do
    insert_row job_id (new_row application_job_id variation_index nonce now)
    job ← select_job "node submission was not recorded" job_id
    pure (job, true)

  unfoldable pub submit : String → ℕ → String → String → ℕ → Call (NodeJob × Bool)
  unfolding submitted find_nonce
  submit application_job_id variation_index nonce job_id now =
      gets (find_nonce nonce) >>= submitted application_job_id variation_index nonce job_id now

  unfoldable pub succeed : String → Value → ℕ → Call NodeJob
  unfolding update_where select_job
  succeed job_id result now = do
    lifted (validate_durable_result p.lower 0 result)
    raise_if (ltb max_result_bytes (p.utf8_size (p.dumps result)))
        (node_database_error "node result metadata is too large")
    hit ← update_where job_id is_running (succeeded_row (p.dumps result) now)
    raise_if (not hit) (node_database_error "node job is not running")
    select_job "node job disappeared" job_id

  -- Whether the update hits a row or not, the row is read next.
  unfoldable pub fail : String → String → ℕ → Call NodeJob
  unfolding update_where select_job
  fail job_id error_code now = do
    _ ←
        update_where job_id (λ state. not (is_terminal state))
          (failed_row (safe_error_code (p.lower (p.strip error_code))) now)
    select_job "node job disappeared" job_id

  unfoldable pub cancelled_pending : String → ℕ → Option NodeRow → Call (Option NodeJob × Bool)
  unfolding row_to_job update_where select_job
  cancelled_pending job_id now none = pure (none, false)
  cancelled_pending job_id now (some row) =
      if not (is_queued row.state)
      then lifted (row_to_job job_id row) >>= (λ job. pure (some job, false))
      else do
        _ ← update_where job_id is_queued (cancelled_row now)
        job ← select_job "node job disappeared" job_id
        pure (some job, true)

  unfoldable pub cancel_pending : String → ℕ → Call (Option NodeJob × Bool)
  unfolding cancelled_pending
  cancel_pending job_id now = gets (lookup job_id) >>= cancelled_pending job_id now
