-- ===== src/Capacity/Retain/Laws.antt =====
-- The normal return of `ensure_retained` of src/ace_service/capacity/controller.py.
use text.Mathlib.TextEquality.{eq_iff}
use audio_ventura.Base.{
  ℕ, ◌≡◌, refl, ap, ◌∙◌, inl, inr, true, Option, none, some, List, String, nat_eq, string_eq, ok,
  arith, lookup, lookup-insert, lookup-update, Option-cases, Result-cases,
}
use audio_ventura.Providers.{ProviderName}
use audio_ventura.Capacity.Leases.{
  CapacityLease, Leases, cold_lease, retained, settled, apply_changes, LeaseChange,
  ensure_capacity_lease, update_capacity_lease_if_owner,
}
use audio_ventura.Capacity.Manager.{
  CapacitySnapshot, CapacityDb, Reply, observed, capacity_failed, crashed, CapacityManager,
  is_ready,
}
use audio_ventura.Capacity.Actions.{provider_action, Action, retain}
use audio_ventura.Capacity.Idle.{Fresh}
use audio_ventura.Capacity.Reconcile.{retain_changes}
use audio_ventura.Capacity.Observed.{ensure_lease}
use audio_ventura.Capacity.Retain.{ensure_retained, hold, held_lease, retained_by, retain_from}

-- The row of the manager is there and says `retained`.
abbrev pub IsRetained : CapacityManager → CapacityDb → Type 0
IsRetained m db = (l : CapacityLease) × (lookup m.key db.leases ≡ some l) × (l.state ≡ retained)

ensured_row :
    (key : String) (p : ProviderName) (now : ℕ) (t : Leases) (l : CapacityLease)
    → (ensure_capacity_lease key p now t).0 ≡ ok l
    → lookup key (ensure_capacity_lease key p now t).1 ≡ some l
unfolding ensure_capacity_lease
ensured_row key p now t l h = elim (Option-cases (lookup key t)) [
  | inl new ↦ ground (arith, lookup-insert key key (cold_lease p now) t, eq_iff key key)
  | inr (v, old) ↦ ground arith
]

settled_row :
    (key owner : String) (token now : ℕ) (changes : List LeaseChange) (t : Leases)
    (l : CapacityLease)
    → (update_capacity_lease_if_owner key owner token now changes t).0 ≡ ok (some l)
    → (v : CapacityLease) × (l ≡ settled changes now v)
      × (lookup key (update_capacity_lease_if_owner key owner token now changes t).1 ≡ some l)
unfolding update_capacity_lease_if_owner
settled_row key owner token now changes t l h = elim (Option-cases (lookup key t)) [
  | inl new ↦ absurd (ground arith)
  | inr (v, old) ↦ (
    v,
    ground arith,
    ground (arith, lookup-update key key (settled changes now) t, eq_iff key key),
  )
]

state-retained :
    (lease v : CapacityLease) (before after : CapacitySnapshot) (fresh : Fresh) (now : ℕ)
    → is_ready after.phase ≡ true
    → (settled (retain_changes lease before after fresh now) now v).state ≡ retained
unfolding apply_changes
state-retained lease v before after fresh now h = rw h refl

hold-IsRetained :
    (m : CapacityManager) (fresh : Fresh) (before : CapacitySnapshot) (now : ℕ) (db : CapacityDb)
    → (hold m fresh before now db).0 ≡ ok tt
    → IsRetained m (hold m fresh before now db).1
unfolding hold ensure_lease
hold-IsRetained m fresh before now db h =
    elim (Result-cases (ensure_capacity_lease m.key m.provider now db.leases).0) [
      | inr (x, e) ↦ absurd (ground arith)
      | inl (l, e) ↦ (
        held_lease fresh before now l,
        ground (
          arith,
          lookup-update m.key m.key (λ _. held_lease fresh before now l)
              (ensure_capacity_lease m.key m.provider now db.leases).1,
          ensured_row m.key m.provider now db.leases l,
          eq_iff m.key m.key,
        ),
        ground arith,
      )
    ]

retained_by-IsRetained :
    (m : CapacityManager) (fresh : Fresh) (before : CapacitySnapshot) (now : ℕ) (a : Option Action)
    (db : CapacityDb)
    → (retained_by m fresh before now a db).0 ≡ ok tt
    → IsRetained m (retained_by m fresh before now a db).1
unfolding retained_by ensure_lease
retained_by-IsRetained m fresh before now none db h = cc
retained_by-IsRetained m fresh before now (some a) db h =
    elim (Result-cases (ensure_capacity_lease m.key m.provider now db.leases).0) [
      | inr (x, e) ↦ absurd (ground arith)
      | inl (lease, e) ↦
          let t = (ensure_capacity_lease m.key m.provider now db.leases).1 in
          let changes = retain_changes lease before a.after fresh now in
          let o = (update_capacity_lease_if_owner m.key fresh.owner a.token now changes t).0 in
          elim (Result-cases o) [
            | inr (x, e') ↦ absurd (ground arith)
            | inl (none, e') ↦ absurd (ground arith)
            | inl (some l, e') ↦
                let (v, same, row) = settled_row m.key fresh.owner a.token now changes t l e' in
                let ready : is_ready a.after.phase ≡ true = ground arith in
                (
                  l,
                  ground arith,
                  ap (λ (c : CapacityLease). c.state) same
                      ∙ state-retained lease v before a.after fresh now ready,
                )
          ]
    ]

retain_from-IsRetained :
    (m : CapacityManager) (fresh : Fresh) (now : ℕ) (reply : Reply) (db : CapacityDb)
    → (retain_from m fresh now reply db).0 ≡ ok tt
    → IsRetained m (retain_from m fresh now reply db).1
unfolding retain_from
retain_from-IsRetained m fresh now (capacity_failed kind) db h = absurd (ground arith)
retain_from-IsRetained m fresh now crashed db h = absurd (ground arith)
retain_from-IsRetained m fresh now (observed before) db h =
    elim (Result-cases (provider_action m retain before fresh.owner now db).0) [
      | inl (a, e) ↦
          let db' = (provider_action m retain before fresh.owner now db).1 in
          ground (
            arith,
            hold-IsRetained m fresh before now db,
            retained_by-IsRetained m fresh before now a db',
          )
      | inr (x, e) ↦ ground (arith, hold-IsRetained m fresh before now db)
    ]

-- When `ensure_retained` returns without an exception, the lease row of the manager is there and
-- its state is `retained`.
pub ensure_retained-IsRetained :
    (m : CapacityManager) (fresh : Fresh) (now : ℕ) (db : CapacityDb)
    → (ensure_retained (some m) fresh now db).0 ≡ ok tt
    → IsRetained m (ensure_retained (some m) fresh now db).1
unfolding ensure_retained
ensure_retained-IsRetained m fresh now db h =
    let (reply, db₁) = m.inspect db in
    elim (Result-cases (retain_from m fresh now reply db₁).0) [
      | inl (x, e) ↦
          rw (e, ensure_retained) (retain_from-IsRetained m fresh now reply db₁ (ground arith))
      | inr (x, e) ↦ absurd (ground arith)
    ]
