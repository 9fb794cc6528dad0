-- ===== src/Errors.antt =====
-- The exceptions of the repository calls: `ValueError` with its message, `KeyError`, the
-- `InvalidJobTransition` of src/ace_service/state.py, and the database's `IntegrityError` at a
-- primary key that is taken.
use audio_ventura.Base.{String}
use audio_ventura.Lifecycle.{LifecycleError}

pub data Failure : Type 0 where
  value_error : String → Failure
  key_error : Failure
  illegal_transition : LifecycleError → Failure
  integrity_error : Failure
