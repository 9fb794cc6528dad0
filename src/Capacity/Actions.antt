-- ===== src/Capacity/Actions.antt =====
-- `_provider_action`, `_record_error` and `_current_result` of
-- src/ace_service/capacity/controller.py. Each `with session` block is a transaction: what it
-- wrote is dropped if it raises.
use audio_ventura.Base.{
  ℕ, Bool, true, false, Option, none, some, [], ◌∷◌, String, ◌==◌, nat_eq, string_eq, if◌then◌else◌,
  Result, ok, err, Exec, pure, raise, ◌>>=◌, ◌>>◌,
}
use audio_ventura.Errors.{Failure}
use audio_ventura.Capacity.Leases.{
  CapacityLease, Leases, set_last_error_code, ensure_capacity_lease, acquire_capacity_action_lease,
  mark_capacity_action_started, update_capacity_lease_if_owner,
}
use audio_ventura.Capacity.Manager.{
  CapacityErrorKind, transient, invalid_response, error_kind_value, CapacitySnapshot, CapacityDb,
  observed, capacity_failed, crashed, CapacityManager,
}

-- What a method of the controller raises: a `CapacityError`, a `_CapacityActionLost`, or what a
-- repository call raised.
pub data Fault : Type 0 where
  capacity_error : CapacityErrorKind → Fault
  action_lost : Fault
  repository_error : Failure → Fault

abbrev pub Step : Type 0 → Type 0
Step A = Exec CapacityDb Fault A

module _ {A : Type 0} where
  abbrev pub on_leases : Exec Leases Failure A → Step A
  on_leases m db =
      let (r, t) = m db.leases in
      elim r [
        | ok a ↦ (ok a, record db { leases = t })
        | err e ↦ (err (repository_error e), record db { leases = t })
      ]

  abbrev pub transaction : Step A → Step A
  transaction m db = let (r, db') = m db in elim r [ ok a ↦ (ok a, db') | err e ↦ (err e, db) ]

pub data Operation : Type 0 where
  retain release : Operation

abbrev pub is_release : Operation → Bool
is_release retain = false
is_release release = true

-- A finished action: the snapshot behind it, and the fencing token under which it ran.
pub record Action : Type 0 where
  pub after : CapacitySnapshot
  pub token : ℕ

-- The call of the manager; a retain that does not leave the floor at one is refused.
unfoldable pub call_manager :
    CapacityManager
    → Operation
    → CapacitySnapshot
    → CapacityDb
    → Result CapacityErrorKind CapacitySnapshot × CapacityDb
call_manager m retain s db =
    let (reply, db') = m.retain_one s db in
    elim reply [
      | observed after ↦
          (if after.configured_floor == 1 then ok after else err invalid_response, db')
      | capacity_failed kind ↦ (err kind, db')
      | crashed ↦ (err transient, db')
    ]
call_manager m release s db =
    let (reply, db') = m.release_one s db in
    elim reply [
      | observed after ↦ (ok after, db')
      | capacity_failed kind ↦ (err kind, db')
      | crashed ↦ (err transient, db')
    ]

-- The first transaction: the row is there, and the action lease is taken for 300 seconds.
unfoldable pub take_action : CapacityManager → String → ℕ → Step (Option ℕ)
take_action m owner now = transaction (do
  on_leases (ensure_capacity_lease m.key m.provider now)
  on_leases (acquire_capacity_action_lease m.key owner now 300))

-- The second, for a release only: the intent is durable before the provider is called.
mark_started : CapacityManager → Operation → String → ℕ → ℕ → Step (Option CapacityLease)
mark_started m operation owner token now =
    transaction (on_leases (mark_capacity_action_started m.key owner token "release" now))

-- The call, and the error code that is left on the lease while it is still owned.
perform : CapacityManager → Operation → CapacitySnapshot → String → ℕ → ℕ → Step (Option Action)
perform m operation snapshot owner token now db =
    let (r, db') = call_manager m operation snapshot db in
    elim r [
      | ok after ↦ (ok (some (record { after = after; token = token })), db')
      | err kind ↦
          (do
            transaction (
                on_leases (
                  update_capacity_lease_if_owner m.key owner token now
                    (set_last_error_code (some (error_kind_value kind)) ∷ [])))
            raise (capacity_error kind))
            db'
    ]

perform_marked :
    CapacityManager
    → Operation
    → CapacitySnapshot
    → String
    → ℕ
    → ℕ
    → Option CapacityLease
    → Step (Option Action)
perform_marked m operation snapshot owner token now none = pure none
perform_marked m operation snapshot owner token now (some _) =
    perform m operation snapshot owner token now

perform_taken :
    CapacityManager → Operation → CapacitySnapshot → String → ℕ → Option ℕ → Step (Option Action)
unfolding perform perform_marked mark_started
perform_taken m operation snapshot owner now none = pure none
perform_taken m retain snapshot owner now (some token) = perform m retain snapshot owner token now
perform_taken m release snapshot owner now (some token) = do
  marked ← mark_started m release owner token now
  perform_marked m release snapshot owner token now marked

unfoldable pub provider_action :
    CapacityManager → Operation → CapacitySnapshot → String → ℕ → Step (Option Action)
unfolding perform_taken take_action
provider_action m operation snapshot owner now = do
  token ← take_action m owner now
  perform_taken m operation snapshot owner now token
