-- ===== src/Transfers/Active.antt =====
-- `get_active_transfer` beside `consume_transfer` of src/ace_service/repository.py.
use audio_ventura.Base.{
  ℕ, ◌≡◌, ◌<◌, refl, subst, ap, ◌∙◌, Option, none, some, List, [], ◌∷◌, String, true, false, ok,
  inl, inr, lookup, unique, unique-update, unique-insert, is_none, nat_eq, string_eq, leb, is_some,
  is_empty, Bool-cases, arith, Keeps, ◌>>=◌, gets, after, raised,
}
use audio_ventura.Errors.{value_error}
use audio_ventura.Transfers.{
  Transfers, is_taken, TransferCapability, Call, is_issued, revoke_rows, add_capability,
  consume_row, consume_transfer, revoke_active_transfers, token_sha256, get_active_transfer,
  active_or_expired, find_hash,
}
use audio_ventura.Transfers.Calls.{TransferCall, Kept, run_calls, run_calls-Keeps}
use audio_ventura.Transfers.Spent.{require_transfer-cases}

find_hash-lookup :
    (hash : String) (t : Transfers) (id : String) (c : TransferCapability)
    → unique t ≡ true
    → find_hash hash t ≡ some (id, c)
    → lookup id t ≡ some c
unfolding find_hash lookup unique
find_hash-lookup hash [] id c u h = cc
find_hash-lookup hash ((j, d) ∷ t) id c u h =
    ground (arith, find_hash-lookup hash t id c, string_eq.same_iff j id)

abbrev IsKeyed : Transfers → Type 0
IsKeyed t = unique t ≡ true

lookup-revoke_rows_none :
    (job_id id : String) (now : ℕ) (t : Transfers)
    → is_none (lookup id (revoke_rows job_id now t)) ≡ is_none (lookup id t)
unfolding lookup revoke_rows
lookup-revoke_rows_none job_id id now [] = refl
lookup-revoke_rows_none job_id id now ((j, c) ∷ t) =
    ground (arith, lookup-revoke_rows_none job_id id now t)

unique-revoke_rows :
    (job_id : String) (now : ℕ) (t : Transfers) → unique (revoke_rows job_id now t) ≡ unique t
unfolding unique revoke_rows
unique-revoke_rows job_id now [] = refl
unique-revoke_rows job_id now ((j, c) ∷ t) =
    rw (lookup-revoke_rows_none job_id j now t, unique-revoke_rows job_id now t) refl

no_row : (o : Option TransferCapability) → is_some o ≡ false → o ≡ none
no_row none h = refl
no_row (some c) h = cc

not_taken :
    (k hash : String) (t : Transfers) → is_taken k hash t ≡ false → is_some (lookup k t) ≡ false
not_taken k hash t h = ground (arith, h)

add-IsKeyed : (k : String) (c : TransferCapability) → Keeps IsKeyed (add_capability k c)
unfolding add_capability
add-IsKeyed k c = record {
  kept = λ t p. elim (Bool-cases (is_taken k c.token_sha256 t)) [
    | inl b ↦ rw b p
    | inr b ↦ rw b (unique-insert k c t p (no_row (lookup k t) (not_taken k c.token_sha256 t b)))
  ];
}

IsKeyed-Kept : Kept IsKeyed
unfolding revoke_active_transfers
IsKeyed-Kept = record {
  by_spending = λ k f h. record { kept = λ t p. unique-update k f t ∙ p };
  by_revoking = λ job_id now. record { kept = λ t p. unique-revoke_rows job_id now t ∙ p };
  by_adding = add-IsKeyed;
}

-- What a look that found a capability says of it.
abbrev pub IsActive : String → String → TransferCapability → ℕ → Type 0
IsActive hash id c now =
    (c.token_sha256 ≡ hash) × (is_issued c.status ≡ true) × (now < c.expires_at)

find_hash-hash :
    (hash : String) (t : Transfers) (id : String) (c : TransferCapability)
    → find_hash hash t ≡ some (id, c)
    → c.token_sha256 ≡ hash
unfolding find_hash
find_hash-hash hash [] id c h = cc
find_hash-hash hash ((j, d) ∷ t) id c h =
    ground (arith, find_hash-hash hash t id c, string_eq.same_iff d.token_sha256 hash)

active_or_expired-some :
    (now : ℕ) (o : Option (String × TransferCapability)) (t : Transfers) (id : String)
    (c : TransferCapability)
    → (active_or_expired now o t).0 ≡ ok (some (id, c))
    → (o ≡ some (id, c))
      × (is_issued c.status ≡ true)
      × (now < c.expires_at)
      × ((active_or_expired now o t).1 ≡ t)
unfolding active_or_expired
active_or_expired-some now none t id c h = cc
active_or_expired-some now (some (j, d)) t id c h = ground arith

-- The rest of a look, behind the hash and behind the search.
abbrev from_hash : ℕ → String → Call (Option (String × TransferCapability))
from_hash now hash = gets (find_hash hash) >>= active_or_expired now

absent :
    {o : Option TransferCapability} {c : TransferCapability} {B : Type 0}
    → o ≡ none
    → o ≡ some c
    → B
absent n e = cc

same_row :
    {o : Option TransferCapability} {c d : TransferCapability} → o ≡ some c → o ≡ some d → c ≡ d
same_row e f = cc

not_due : (a b : ℕ) → b < a → leb a b ≡ false
not_due a b h = ground arith

returns_at :
    (id : String) (now : ℕ) (t : Transfers) (c : TransferCapability)
    → is_issued c.status ≡ true
    → leb c.expires_at now ≡ false
    → (consume_row id now c t).0 ≡ ok tt
returns_at id now t c i l = rw (i, l) refl

consume_row-active :
    (id : String) (now : ℕ) (t : Transfers) (d c : TransferCapability)
    → lookup id t ≡ some d
    → lookup id t ≡ some c
    → is_issued c.status ≡ true
    → now < c.expires_at
    → (consume_row id now d t).0 ≡ ok tt
consume_row-active id now t d c f e i l =
    subst (λ x. (consume_row id now x t).0 ≡ ok tt) (same_row e f)
      (returns_at id now t c i (not_due c.expires_at now l))

empty-IsKeyed : IsKeyed []
unfolding unique
empty-IsKeyed = refl

module _ (sha256 strip lower : String → String) where
  look-some :
      (token : String) (now : ℕ) (t : Transfers) (id : String) (c : TransferCapability)
      → (get_active_transfer sha256 strip lower token now t).0 ≡ ok (some (id, c))
      → (find_hash (sha256 token) t ≡ some (id, c))
        × (is_issued c.status ≡ true)
        × (now < c.expires_at)
        × ((get_active_transfer sha256 strip lower token now t).1 ≡ t)
  unfolding get_active_transfer token_sha256
  look-some token now t id c h = elim (Bool-cases (is_empty token)) [
    | inl b ↦ raised {x = value_error "transfer token must not be empty"} refl (rw b at h)
    | inr b ↦ rw b (active_or_expired-some now (find_hash (sha256 token) t) t id c (rw b at h))
  ]

  consume-active :
      (id : String) (now : ℕ) (t : Transfers) (c : TransferCapability)
      → lookup id t ≡ some c
      → is_issued c.status ≡ true
      → now < c.expires_at
      → (consume_transfer id now t).0 ≡ ok tt
  unfolding consume_transfer
  consume-active id now t c e i l = elim (require_transfer-cases id t) [
    | inl (n, r) ↦ absent n e
    | inr (d, f, r) ↦
        ap (λ y. (after (consume_row id now) y).0) r ∙ consume_row-active id now t d c f e i l
  ]

  -- In a table that the calls made from the empty one, a capability that `get_active_transfer` returns
  -- holds the hash of the token, is issued and not yet due; the table is as it was, and consuming the
  -- capability at once returns.
  pub get_active_transfer-consume :
      (cs : List TransferCall) (token : String) (now : ℕ) (id : String) (c : TransferCapability)
      → (get_active_transfer sha256 strip lower token now (run_calls sha256 strip lower cs [])).0
        ≡ ok (some (id, c))
      → IsActive (sha256 token) id c now
        × ((get_active_transfer sha256 strip lower token now (run_calls sha256 strip lower cs [])).1
            ≡ run_calls sha256 strip lower cs [])
        × ((consume_transfer id now (run_calls sha256 strip lower cs [])).0 ≡ ok tt)
  get_active_transfer-consume cs token now id c h =
      let t = run_calls sha256 strip lower cs [] in
      let u = run_calls-Keeps sha256 strip lower IsKeyed-Kept cs [] empty-IsKeyed in
      let (f, i, l, w) = look-some token now t id c h in
      (
        (find_hash-hash (sha256 token) t id c f, i, l),
        w,
        consume-active id now t c (find_hash-lookup (sha256 token) t id c u f) i l,
      )
