-- ===== src/Capacity/Steps.antt =====
-- Sequences of the lease calls of src/ace_service/repository.py, and what they do to one row.
use text.Mathlib.TextEquality.{eq_iff}
use audio_ventura.Base.{
  ℕ, ◌≡◌, inl, inr, not, ◌&&◌, ◌||◌, some, List, [], ◌∷◌, String, ◌==◌, nat_eq, string_eq, is_empty,
  longer_than, if◌then◌else◌, arith, lookup, lookup-update, lookup-insert, Option-cases,
}
use audio_ventura.Providers.{ProviderName}
use audio_ventura.Capacity.Leases.{
  CapacityLease, Leases, LeaseChange, ensure_capacity_lease, acquire_capacity_action_lease,
  mark_capacity_action_started, update_capacity_lease_if_owner, may_acquire, holds, acquired,
  marked, cold_lease, settled,
}

-- One call of the repository by some process.
pub data LeaseCall : Type 0 where
  ensure : String → ProviderName → ℕ → LeaseCall
  acquire : String → String → ℕ → ℕ → LeaseCall
  mark : String → String → ℕ → String → ℕ → LeaseCall
  settle : String → String → ℕ → ℕ → List LeaseChange → LeaseCall

unfoldable pub run_call : LeaseCall → Leases → Leases
run_call (ensure key provider now) t = (ensure_capacity_lease key provider now t).1
run_call (acquire key owner now ttl) t = (acquire_capacity_action_lease key owner now ttl t).1
run_call (mark key owner token operation now) t =
    (mark_capacity_action_started key owner token operation now t).1
run_call (settle key owner token now changes) t =
    (update_capacity_lease_if_owner key owner token now changes t).1

unfoldable pub run_calls : List LeaseCall → Leases → Leases
run_calls [] t = t
run_calls (c ∷ cs) t = run_calls cs (run_call c t)

-- What a call does to the row of one key.
unfoldable pub step_row : String → LeaseCall → CapacityLease → CapacityLease
step_row key (ensure _ _ _) l = l
step_row key (acquire k owner now ttl) l =
    if key == k
      && not (is_empty owner || longer_than owner 128 || ttl == 0)
      && may_acquire owner now l
    then acquired owner now ttl l
    else l
step_row key (mark k owner token operation now) l =
    if key == k && operation == "release" && holds owner token l then marked now l else l
step_row key (settle k owner token now changes) l =
    if key == k && holds owner token l then settled changes now l else l

lookup-ensure :
    (key k : String) (p : ProviderName) (now : ℕ) (t : Leases) {l : CapacityLease}
    → lookup key t ≡ some l
    → lookup key (ensure_capacity_lease k p now t).1 ≡ some l
unfolding ensure_capacity_lease
lookup-ensure key k p now t {l} h = elim (Option-cases (lookup k t)) [
  | inl new ↦ rw new (ground (arith, lookup-insert k key (cold_lease p now) t))
  | inr (v, old) ↦ rw old (ground arith)
]

lookup-acquire :
    (key k owner : String) (now ttl : ℕ) (t : Leases) {l : CapacityLease}
    → lookup key t ≡ some l
    → lookup key (acquire_capacity_action_lease k owner now ttl t).1
      ≡ some (step_row key (acquire k owner now ttl) l)
unfolding acquire_capacity_action_lease step_row
lookup-acquire key k owner now ttl t {l} h = elim (Option-cases (lookup k t)) [
  | inl new ↦ rw new (ground (arith, eq_iff key k))
  | inr (v, old) ↦
      rw old (ground (arith, lookup-update k key (acquired owner now ttl) t, eq_iff key k))
]

lookup-mark :
    (key k owner : String) (token : ℕ) (operation : String) (now : ℕ) (t : Leases)
    {l : CapacityLease}
    → lookup key t ≡ some l
    → lookup key (mark_capacity_action_started k owner token operation now t).1
      ≡ some (step_row key (mark k owner token operation now) l)
unfolding mark_capacity_action_started step_row
lookup-mark key k owner token operation now t {l} h = elim (Option-cases (lookup k t)) [
  | inl new ↦ rw new (ground (arith, eq_iff key k))
  | inr (v, old) ↦ rw old (ground (arith, lookup-update k key (marked now) t, eq_iff key k))
]

lookup-settle :
    (key k owner : String) (token now : ℕ) (changes : List LeaseChange) (t : Leases)
    {l : CapacityLease}
    → lookup key t ≡ some l
    → lookup key (update_capacity_lease_if_owner k owner token now changes t).1
      ≡ some (step_row key (settle k owner token now changes) l)
unfolding update_capacity_lease_if_owner step_row
lookup-settle key k owner token now changes t {l} h = elim (Option-cases (lookup k t)) [
  | inl new ↦ rw new (ground (arith, eq_iff key k))
  | inr (v, old) ↦
      rw old (ground (arith, lookup-update k key (settled changes now) t, eq_iff key k))
]

lookup-run_call :
    (key : String) (c : LeaseCall) (t : Leases) {l : CapacityLease}
    → lookup key t ≡ some l
    → lookup key (run_call c t) ≡ some (step_row key c l)
unfolding run_call
lookup-run_call key (ensure k p now) t h = unfold step_row in lookup-ensure key k p now t h
lookup-run_call key (acquire k o now ttl) t h = lookup-acquire key k o now ttl t h
lookup-run_call key (mark k o n op now) t h = lookup-mark key k o n op now t h
lookup-run_call key (settle k o n now cs) t h = lookup-settle key k o n now cs t h

-- The row after a list of calls.
unfoldable pub step_rows : String → List LeaseCall → CapacityLease → CapacityLease
step_rows key [] l = l
step_rows key (c ∷ cs) l = step_rows key cs (step_row key c l)

pub lookup-run_calls :
    (key : String) (cs : List LeaseCall) (t : Leases) {l : CapacityLease}
    → lookup key t ≡ some l
    → lookup key (run_calls cs t) ≡ some (step_rows key cs l)
unfolding run_calls step_rows
lookup-run_calls key [] t h = h
lookup-run_calls key (c ∷ cs) t h =
    lookup-run_calls key cs (run_call c t) (lookup-run_call key c t h)
