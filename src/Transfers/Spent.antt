-- ===== src/Transfers/Spent.antt =====
-- Transfer capabilities of src/ace_service/repository.py that are no longer issued.
use audio_ventura.Base.{
  raised, lookup-update_self, ◌∙◌, ℕ, ◌≡◌, ◌⊎◌, refl, sym, subst, ap, Option, none, some, List, [],
  ◌∷◌, String, Bool, false, ok, err, inl, inr, lookup, update, map_row, viewed, viewed-update_all,
  viewed-insert, nat_eq, string_eq, leb, Option-cases, Bool-cases, arith, Keeps, after,
}
use audio_ventura.Errors.{Failure, key_error, value_error}
use audio_ventura.Transfers.{
  Transfers, is_taken, TransferCapability, consumed, is_issued, revoke_rows, revoke_row,
  add_capability, require_transfer, consume_row, consume_transfer, revoke_active_transfers,
}
use audio_ventura.Transfers.Calls.{TransferCall, Kept, run_calls, run_calls-Keeps}

abbrev usable : TransferCapability → Bool
usable c = is_issued c.status

-- Whether the capability is there and can still be used.
abbrev pub transfer_usable : String → Transfers → Option Bool
transfer_usable id t = viewed usable (lookup id t)

lookup-revoke_rows :
    (job_id id : String) (now : ℕ) (t : Transfers)
    → lookup id (revoke_rows job_id now t) ≡ map_row (revoke_row job_id now) (lookup id t)
unfolding lookup revoke_rows
lookup-revoke_rows job_id id now [] = refl
lookup-revoke_rows job_id id now ((j, c) ∷ t) = ground (arith, lookup-revoke_rows job_id id now t)

revoked_view :
    (job_id : String) (now : ℕ) (o : Option TransferCapability)
    → viewed usable o ≡ some false
    → viewed usable (map_row (revoke_row job_id now) o) ≡ some false
revoked_view job_id now none h = cc
revoked_view job_id now (some c) h = ground (arith, h)

module _ (id : String) where
  abbrev Spent : Transfers → Type 0
  Spent t = transfer_usable id t ≡ some false

  revoke_rows-Spent :
      (job_id : String) (now : ℕ) (t : Transfers) → Spent t → Spent (revoke_rows job_id now t)
  revoke_rows-Spent job_id now t p =
      rw (lookup-revoke_rows job_id id now t) (revoked_view job_id now (lookup id t) p)

  add-Spent : (k : String) (c : TransferCapability) → Keeps Spent (add_capability k c)
  unfolding add_capability
  add-Spent k c = record {
    kept = λ t p. elim (Bool-cases (is_taken k c.token_sha256 t)) [
      | inl b ↦ rw b p
      | inr b ↦ rw b (viewed-insert usable k id c t p)
    ];
  }

  Spent-Kept : Kept Spent
  unfolding revoke_active_transfers
  Spent-Kept = record {
    by_spending =
        λ k f h. record { kept = λ t p. viewed-update_all usable k id f t (λ c q. h c) p };
    by_revoking = λ job_id now. record { kept = λ t p. revoke_rows-Spent job_id now t p };
    by_adding = add-Spent;
  }

pub require_transfer-cases :
    (id : String) (t : Transfers)
    → ((lookup id t ≡ none) × (require_transfer id t ≡ (err key_error, t)))
      ⊎ ((c : TransferCapability) × (lookup id t ≡ some c) × (require_transfer id t ≡ (ok c, t)))
unfolding require_transfer
require_transfer-cases id t = elim (Option-cases (lookup id t)) [
  | inl e ↦ inl (e, rw e refl)
  | inr (c, e) ↦ inr (c, e, rw e refl)
]

not_issued :
    (c : TransferCapability) {o : Option TransferCapability}
    → o ≡ some c
    → viewed usable o ≡ some false
    → is_issued c.status ≡ false
not_issued c e p = ground (arith, e, p)

consume_row-Refused :
    (id : String) (now : ℕ) (t : Transfers) (c : TransferCapability)
    → is_issued c.status ≡ false
    → (x : Failure) × (consume_row id now c t ≡ (err x, t))
consume_row-Refused id now t c h = (value_error "transfer capability is not issued", rw h refl)

consume-Refused :
    (id : String) (now : ℕ) (t : Transfers)
    → Spent id t
    → (x : Failure) × (consume_transfer id now t ≡ (err x, t))
unfolding consume_transfer
consume-Refused id now t p = elim (require_transfer-cases id t) [
  | inl (e, r) ↦ (key_error, ap (after (consume_row id now)) r)
  | inr (c, e, r) ↦
      let (x, q) = consume_row-Refused id now t c (not_issued c e p) in
      (x, ap (after (consume_row id now)) r ∙ q)
]

-- A capability that was consumed was issued and not yet due, and its row says so now.
pub consume-written :
    (id : String) (now : ℕ) (t : Transfers)
    → (consume_transfer id now t).0 ≡ ok tt
    → (c : TransferCapability) × (lookup id t ≡ some c)
      × ((consume_transfer id now t).1
          ≡ update id (λ c. record c { status = consumed; consumed_at = some now }) t)
unfolding consume_transfer
consume-written id now t h = elim (require_transfer-cases id t) [
  | inl (e, r) ↦ raised (ap (λ y. (after (consume_row id now) y).0) r) h
  | inr (c, e, r) ↦ elim (Bool-cases (is_issued c.status)) [
    | inl i ↦ elim (Bool-cases (leb c.expires_at now)) [
      | inl d ↦
          raised {x = value_error "transfer capability has expired"}
            (ap (λ y. (after (consume_row id now) y).0) r ∙ rw (i, d) refl) h
      | inr d ↦ (c, e, ap (λ y. (after (consume_row id now) y).1) r ∙ rw (i, d) refl)
    ]
    | inr n ↦
        raised {x = value_error "transfer capability is not issued"}
          (ap (λ y. (after (consume_row id now) y).0) r ∙ rw n refl) h
  ]
]

consume-Spent :
    (id : String) (now : ℕ) (t : Transfers)
    → (consume_transfer id now t).0 ≡ ok tt
    → Spent id (consume_transfer id now t).1
consume-Spent id now t h =
    let (c, e, w) = consume-written id now t h in
    subst (Spent id) (sym w) (
      ap (viewed usable)
        (lookup-update_self id (λ c. record c { status = consumed; consumed_at = some now }) t e))

-- A capability that was consumed cannot be consumed again: whatever sequence of the calls of
-- `TransferCall` follows, consuming it raises and writes nothing.
pub consumed_once :
    (sha256 strip lower : String → String) (id : String) (now : ℕ) (t : Transfers)
    → (consume_transfer id now t).0 ≡ ok tt
    → (cs : List TransferCall) (later : ℕ)
    → (x : Failure) × (consume_transfer id later
          (run_calls sha256 strip lower cs (consume_transfer id now t).1)
        ≡ (err x, run_calls sha256 strip lower cs (consume_transfer id now t).1))
consumed_once sha256 strip lower id now t h cs later =
    consume-Refused id later (run_calls sha256 strip lower cs (consume_transfer id now t).1) (
      run_calls-Keeps sha256 strip lower (Spent-Kept id) cs (consume_transfer id now t).1
        (consume-Spent id now t h))
