-- ===== src/Lib.antt =====
-- AudioVentura: a FastAPI control plane that turns a request for music into jobs, submits the
-- variations of a job to one of several inference providers, and keeps the provider's GPU capacity
-- warm no longer than the user asked for. The library models the parts that hold the program's durable
-- state and decide about money: the lifecycle of jobs and attempts, the submission of a variation,
-- the capacity leases with their controller, the notification events, the tokens by which files move
-- between the services, the sources that users bring, the job queue of a node, playlists, and cost
-- estimates.
--
-- How the parts interact. The web handlers and the worker call src/ace_service/repository.py inside a
-- database session; the modelled calls change a status through a validator of
-- src/ace_service/state.py. The
-- controller of src/ace_service/capacity/controller.py reads the jobs that count as work, takes an
-- action lease with a fencing token before it calls a provider, and settles the lease afterwards; it
-- leaves notification events behind, which the dispatcher of notifications.py delivers.
--
-- The files:
--   Base           Boolean tests, calls with a state and exceptions (Calls), tables of rows (Rows),
--                  texts (Text)
--   Errors         the exceptions of the repository
--   Providers      ProviderName of src/ace_service/providers/base.py
--   Lifecycle      src/ace_service/state.py; Graph is about its tables
--   Notifications  insert_notification_event of src/ace_service/repository.py, and Laws about it;
--                  Subscriptions, Claims and Dispatch: src/ace_service/notifications.py; Rounds and
--                  Draining are about one dispatcher alone, Undisturbed, Others and Answers about one
--                  among others
--   Paths          normalize_relative_path, normalize_extension and validate_sha256 of
--                  src/ace_service/schemas.py; Safe is about the first
--   Transfers      the transfer capabilities of src/ace_service/repository.py; Calls: sequences of its
--                  calls; Spent and Active are about them
--   Assets         Policy, Rows and Capabilities: the asset transfer capabilities of
--                  src/ace_service/repository.py; Calls: sequences of its calls; Completion, Keeping,
--                  Uploads, Recorded, Retry, Counting and Opens are about
--                  them
--   Node           Values and Database: src/ace_node/db.py; Calls: sequences of its calls; Privacy,
--                  Settled, Results, Bound and Replay are about them
--   Costs          src/ace_service/costs.py over whole micro-dollars; Rounding is about the estimates,
--                  Quotes about the reasons against a quote
--   Playlists      the playlist calls of src/ace_service/repository.py; Sorting, Placing, Order and Appending
--                  are about them
--   Derivatives    the derivative tasks of src/ace_service/repository.py; Calls: sequences of its calls;
--                  Single is about them
--   Sources        the source assets: Rows, Creation and Sources itself are the calls of
--                  src/ace_service/repository.py, Work those of src/ace_service/source_assets.py and the
--                  cancellation in src/ace_service/web.py; Moves and Steps: what a call may do to a source;
--                  Calls: sequences of calls, each in a transaction; Sound, Store, Final and Stale are
--                  about them
--   Capacity       Leases: the lease calls of src/ace_service/repository.py; Manager:
--                  src/ace_service/capacity/base.py as the interface CapacityManager, and the queries
--                  count_eligible_work and latest_terminal_activity; Actions, Idle, Observed, Reconcile
--                  and Retain: _provider_action, _idle_progress, _reconcile_manager and reconcile_once,
--                  ensure_retained of src/ace_service/capacity/controller.py; Steps, Fencing,
--                  Safety, Idle.Timing and Retain.Laws are about them
--   Jobs           Store: the rows of src/ace_service/models.py; Transitions, Submission, Uncertain and
--                  Endings: the calls of src/ace_service/repository.py on jobs and attempts; Calls:
--                  sequences of them; Outcomes, Guards, Kept, Settled, Once, Refusal, Resubmission,
--                  Closing, Handing, Completion are about them
--   */Tests        runs on small concrete states
--
-- How the code is modelled. A table is a list of rows behind their keys, and a call is a function from
-- the state to a result and a state. An exception carries the state that was written so far, since the
-- session decides about it: the controller's own `with session` blocks drop what a raising block
-- wrote, and the calls of Jobs leave that to their callers. A time is a number of microseconds and an
-- argument, so that the clock of one call is read once; an id, a nonce or a token made by `uuid4` is an
-- argument too. The messages of exceptions leave out the values that the code formats into them. A
-- capacity manager is a record of three calls that return a reply for the moment at which they are
-- made; every such call may find the rows changed by other processes, who act only where the
-- controller awaits. No definition runs on fuel but the printing of a decimal number, where the number
-- of steps is one more than the number, and a number has no more digits than that.
--
-- What the code takes from elsewhere is an argument: `hashlib`, the methods of `str`, `uuid.UUID`,
-- `json` and the length in UTF-8, and the printing of a decimal amount. SQLite and SQLAlchemy are read
-- as their documentation says: a unique column refuses a second row, and a block that rolls back writes
-- nothing.
--
-- Not modelled: the loop that schedules the controller, the file lock of state.py, the evidence calls of
-- repository.py, its recovery of uncertain variations and its prepare_runpod_submission, media items,
-- what a publication writes beside its source, the raw files of sources, decimal amounts, the removal of
-- playlist entries, the providers' adapters and managers (third-party services), the worker, the HTTP
-- applications, the migrations, the offline quality campaign, the node's service around its queue, and
-- the separate services (home ingest, RunPod worker, MIDI mock).
pub mod Base
pub mod Errors
pub mod Providers
pub mod Lifecycle
pub mod Notifications
pub mod Capacity
pub mod Paths
pub mod Transfers
pub mod Assets
pub mod Costs
pub mod Derivatives
pub mod Sources
pub mod Jobs
pub mod Playlists
pub mod Node
