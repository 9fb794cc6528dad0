-- ===== src/Capacity/Fencing.antt =====
-- Action leases and fencing tokens of src/ace_service/repository.py under any sequence of calls.
use text.Mathlib.TextEquality.{eq_iff}
use audio_ventura.Base.{
  ℕ, ◌+◌, ◌≤◌, ◌<◌, ◌≡◌, ◌∙◌, ◌≢◌, refl, ap, sym, inl, inr, true, none, some, List, [], ◌∷◌, String,
  nat_eq, string_eq, ok, arith, lookup, lookup-update, Option-cases,
}
use audio_ventura.Capacity.Leases.{
  CapacityLease, Leases, LeaseChange, acquire_capacity_action_lease, mark_capacity_action_started,
  update_capacity_lease_if_owner, holds, acquired, settled, apply_change, apply_changes, seconds,
}
use audio_ventura.Capacity.Steps.{
  LeaseCall, acquire, ensure, lookup-run_calls, mark, run_calls, settle, step_row, step_rows,
}

fencing_token-apply_change :
    (c : LeaseChange) (l : CapacityLease) → (apply_change c l).fencing_token ≡ l.fencing_token
fencing_token-apply_change c l = ground arith

fencing_token-apply_changes :
    (cs : List LeaseChange) (l : CapacityLease)
    → (apply_changes cs l).fencing_token ≡ l.fencing_token
unfolding apply_changes
fencing_token-apply_changes [] l = refl
fencing_token-apply_changes (c ∷ cs) l =
    fencing_token-apply_changes cs (apply_change c l) ∙ fencing_token-apply_change c l

token_grows :
    (key : String) (c : LeaseCall) (l : CapacityLease)
    → l.fencing_token ≤ (step_row key c l).fencing_token
unfolding step_row
token_grows key (ensure _ _ _) l = omega arith
token_grows key (acquire k o now ttl) l = ground arith
token_grows key (mark k o n op now) l = ground arith
token_grows key (settle k o n now cs) l = ground (arith, fencing_token-apply_changes cs l)

tokens_grow :
    (key : String) (cs : List LeaseCall) (l : CapacityLease)
    → l.fencing_token ≤ (step_rows key cs l).fencing_token
unfolding step_rows
tokens_grow key [] l = omega arith
tokens_grow key (c ∷ cs) l =
    omega (arith, token_grows key c l, tokens_grow key cs (step_row key c l))

-- What a successful acquisition says of the row, before and after.
acquired_row :
    (key owner : String) (now ttl n : ℕ) (t : Leases)
    → (acquire_capacity_action_lease key owner now ttl t).0 ≡ ok (some n)
    → (l : CapacityLease) × (lookup key t ≡ some l)
      × (n ≡ l.fencing_token + 1)
      × (lookup key (acquire_capacity_action_lease key owner now ttl t).1
          ≡ some (acquired owner now ttl l))
unfolding acquire_capacity_action_lease
acquired_row key owner now ttl n t h = elim (Option-cases (lookup key t)) [
  | inl new ↦ absurd (ground arith)
  | inr (v, old) ↦ (
    v,
    old,
    ground arith,
    ground (arith, lookup-update key key (acquired owner now ttl) t, eq_iff key key),
  )
]

overtaken :
    (key owner : String) (n now : ℕ) (changes : List LeaseChange) (t : Leases) {l : CapacityLease}
    → lookup key t ≡ some l
    → n < l.fencing_token
    → update_capacity_lease_if_owner key owner n now changes t ≡ (ok none, t)
unfolding update_capacity_lease_if_owner
overtaken key owner n now changes t h lt = rw h (ground arith)

overtaken_mark :
    (key owner : String) (n now : ℕ) (t : Leases) {l : CapacityLease}
    → lookup key t ≡ some l
    → n < l.fencing_token
    → mark_capacity_action_started key owner n "release" now t ≡ (ok none, t)
unfolding mark_capacity_action_started
overtaken_mark key owner n now t h lt = rw h (ground arith)

-- Neither write of a holder goes through.
abbrev pub IsFenced : String → String → ℕ → Leases → Type 0
IsFenced key owner n t =
    ((at : ℕ) (changes : List LeaseChange)
      → update_capacity_lease_if_owner key owner n at changes t ≡ (ok none, t))
    × ((at : ℕ) → mark_capacity_action_started key owner n "release" at t ≡ (ok none, t))

-- An acquisition, at the row that it finds.
acquired_row_at :
    (key owner : String) (now ttl m : ℕ) (t : Leases) {v : CapacityLease}
    → lookup key t ≡ some v
    → (acquire_capacity_action_lease key owner now ttl t).0 ≡ ok (some m)
    → (m ≡ v.fencing_token + 1)
      × (lookup key (acquire_capacity_action_lease key owner now ttl t).1
          ≡ some (acquired owner now ttl v))
unfolding acquire_capacity_action_lease
acquired_row_at key owner now ttl m t {v} old h =
    (ground arith, ground (arith, lookup-update key key (acquired owner now ttl) t, eq_iff key key))

-- Fencing. After an acquisition that returned token `n` and any calls by anybody, let a second
-- acquisition for the key succeed. It returns a greater token; and whatever calls follow, the first
-- holder can neither settle nor mark the lease any more: both return `None` and write nothing.
pub overtaken_holder-IsFenced :
    (key owner owner' : String) (now ttl now' ttl' n m : ℕ) (t : Leases)
    (between after : List LeaseCall)
    → (acquire_capacity_action_lease key owner now ttl t).0 ≡ ok (some n)
    → let t₁ = run_calls between (acquire_capacity_action_lease key owner now ttl t).1 in
      (acquire_capacity_action_lease key owner' now' ttl' t₁).0 ≡ ok (some m)
      → (n < m)
        × IsFenced key owner n
            (run_calls after (acquire_capacity_action_lease key owner' now' ttl' t₁).1)
overtaken_holder-IsFenced key owner owner' now ttl now' ttl' n m t between after first second =
    let (l, _, e, row) = acquired_row key owner now ttl n t first in
    let t₁ = run_calls between (acquire_capacity_action_lease key owner now ttl t).1 in
    let row₁ = lookup-run_calls key between _ row in
    let (e', row') = acquired_row_at key owner' now' ttl' m t₁ row₁ second in
    let row₂ = lookup-run_calls key after _ row' in
    let v = step_rows key between (acquired owner now ttl l) in
    let grown = tokens_grow key between (acquired owner now ttl l) in
    let grown' = tokens_grow key after (acquired owner' now' ttl' v) in
    let late : n < (step_rows key after (acquired owner' now' ttl' v)).fencing_token =
      omega arith in
    (
      omega arith,
      (
        λ at changes. overtaken key owner n at changes _ row₂ late,
        λ at. overtaken_mark key owner n at _ row₂ late,
      ),
    )

-- A call by another owner, and an acquisition only before `expires`.
abbrev pub IsForeign : String → ℕ → LeaseCall → Type 0
IsForeign owner expires (ensure _ _ _) = Unit
IsForeign owner expires (acquire _ o now _) = (owner ≢ o) × (now < expires)
IsForeign owner expires (mark _ o _ _ _) = owner ≢ o
IsForeign owner expires (settle _ o _ _ _) = owner ≢ o

abbrev pub AllForeign : String → ℕ → List LeaseCall → Type 0
AllForeign owner expires [] = Unit
AllForeign owner expires (c ∷ cs) = IsForeign owner expires c × AllForeign owner expires cs

foreign_step :
    (key owner : String) (expires : ℕ) (c : LeaseCall) (l : CapacityLease)
    → l.action_owner ≡ some owner
    → l.action_lease_expires_at ≡ some expires
    → IsForeign owner expires c
    → step_row key c l ≡ l
unfolding step_row
foreign_step key owner expires (ensure _ _ _) l o x f = refl
foreign_step key owner expires (acquire k o' now ttl) l o x f = ground (arith, eq_iff owner o')
foreign_step key owner expires (mark k o' n op now) l o x f = ground (arith, eq_iff owner o')
foreign_step key owner expires (settle k o' n now cs) l o x f = ground (arith, eq_iff owner o')

foreign_steps :
    (key owner : String) (expires : ℕ) (cs : List LeaseCall) (l : CapacityLease)
    → l.action_owner ≡ some owner
    → l.action_lease_expires_at ≡ some expires
    → AllForeign owner expires cs
    → step_rows key cs l ≡ l
unfolding step_rows
foreign_steps key owner expires [] l o x f = refl
foreign_steps key owner expires (c ∷ cs) l o x f =
    rw (foreign_step key owner expires c l o x f.0) (foreign_steps key owner expires cs l o x f.1)

settle_at :
    (key owner : String) (n at : ℕ) (changes : List LeaseChange) (t : Leases) {l : CapacityLease}
    → lookup key t ≡ some l
    → holds owner n l ≡ true
    → (update_capacity_lease_if_owner key owner n at changes t).0 ≡ ok (some (settled changes at l))
unfolding update_capacity_lease_if_owner
settle_at key owner n at changes t row h = rw (row, h) refl

-- Exclusion. After an acquisition that returned token `n`, calls by other owners change nothing of
-- the row as long as their acquisitions come before the lease expires, and the holder's update then
-- goes through.
pub holder_settles :
    (key owner : String) (now ttl n at : ℕ) (changes : List LeaseChange) (t : Leases)
    (others : List LeaseCall)
    → (acquire_capacity_action_lease key owner now ttl t).0 ≡ ok (some n)
    → AllForeign owner (now + seconds ttl) others
    → let t₁ = (acquire_capacity_action_lease key owner now ttl t).1 in
      (lookup key (run_calls others t₁) ≡ lookup key t₁)
      × ((l : CapacityLease) × ((update_capacity_lease_if_owner key owner n at changes
              (run_calls others t₁)).0
            ≡ ok (some (settled changes at l)))
          × (l.fencing_token ≡ n))
holder_settles key owner now ttl n at changes t others first foreign =
    let (l, _, e, row) = acquired_row key owner now ttl n t first in
    let same =
      foreign_steps key owner (now + seconds ttl) others (acquired owner now ttl l) refl refl
        foreign in
    let row₁ = lookup-run_calls key others _ row ∙ ap some same in
    (
      row₁ ∙ sym row,
      (
        acquired owner now ttl l,
        settle_at key owner n at changes _ row₁ (ground (arith, eq_iff owner owner)),
        sym e,
      ),
    )
