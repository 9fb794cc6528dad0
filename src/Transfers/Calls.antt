-- ===== src/Transfers/Calls.antt =====
-- Sequences of the calls of src/ace_service/repository.py on transfer capabilities, taken apart into
-- their writes.
use audio_ventura.Base.{
  ℕ, ◌≡◌, refl, Option, none, some, List, [], ◌∷◌, String, false, not, Result, inl, inr, lookup,
  nat_eq, string_eq, ◌==◌, leb, is_empty, if◌then◌else◌, Option-cases, Keeps, Keeps-then, Keeps-if,
  Keeps-raise_if, Keeps-raise, Keeps-pure, Keeps-gets, Keeps-bind, ◌&&◌,
}
use audio_ventura.Errors.{Failure, value_error}
use audio_ventura.Paths.{normalize_relative_path, normalize_extension}
use audio_ventura.Transfers.{
  Transfers, TransferCapability, consumed, expired, revoked, write, is_issued, IssueRequest,
  add_capability, capability_of, chosen_token, require_transfer, consume_transfer, revoke_transfer,
  revoke_active_transfers, issue_transfer_capability, token_sha256, lifted, get_active_transfer,
  active_or_expired, find_hash,
}

pub data TransferCall : Type 0 where
  issue : IssueRequest → TransferCall
  look : String → ℕ → TransferCall
  consume : String → ℕ → TransferCall
  revoke : String → ℕ → TransferCall
  revoke_job : String → ℕ → TransferCall

-- What a predicate of the table must survive.
pub record Kept (P : Transfers → Type 0) : Type 0 where
  pub by_spending :
      (id : String) (f : TransferCapability → TransferCapability)
      → ((c : TransferCapability) → is_issued (f c).status ≡ false)
      → Keeps {E = Failure} P (write id f)
  pub by_revoking : (job_id : String) (now : ℕ) → Keeps P (revoke_active_transfers job_id now)
  pub by_adding : (id : String) (c : TransferCapability) → Keeps P (add_capability id c)

Keeps-lifted : {P : Transfers → Type 0} {A : Type 0} (r : Result Failure A) → Keeps P (lifted r)
Keeps-lifted r = record { kept = λ s p. p }

module _ (sha256 strip lower : String → String) where
  unfoldable pub run_call : TransferCall → Transfers → Transfers
  run_call (issue r) t = (issue_transfer_capability sha256 strip lower r t).1
  run_call (look token now) t = (get_active_transfer sha256 strip lower token now t).1
  run_call (consume id now) t = (consume_transfer id now t).1
  run_call (revoke id now) t = (revoke_transfer id now t).1
  run_call (revoke_job job_id now) t = (revoke_active_transfers job_id now t).1

  unfoldable pub run_calls : List TransferCall → Transfers → Transfers
  run_calls [] t = t
  run_calls (c ∷ cs) t = run_calls cs (run_call c t)

  module _ {P : Transfers → Type 0} (k : Kept P) where
    require_transfer-Keeps : (id : String) → Keeps P (require_transfer id)
    unfolding require_transfer
    require_transfer-Keeps id = record {
      kept = λ s p. elim (Option-cases (lookup id s)) [ inl e ↦ rw e p | inr (c, e) ↦ rw e p ];
    }

    token_sha256-Keeps : (token : String) → Keeps P (token_sha256 sha256 strip lower token)
    unfolding token_sha256
    token_sha256-Keeps token =
        Keeps-then
          (Keeps-raise_if (is_empty token) (value_error "transfer token must not be empty"))
          (Keeps-pure (sha256 token))

    consume_transfer-Keeps : (id : String) (now : ℕ) → Keeps P (consume_transfer id now)
    unfolding consume_transfer
    consume_transfer-Keeps id now = Keeps-bind (require_transfer-Keeps id) (λ c.
        Keeps-then
          (Keeps-raise_if (not (is_issued c.status))
            (value_error "transfer capability is not issued"))
          (Keeps-if (leb c.expires_at now)
            (Keeps-then (k.by_spending id (λ c. record c { status = expired }) (λ c. refl))
              (Keeps-raise (value_error "transfer capability has expired")))
            (k.by_spending id (λ c. record c { status = consumed; consumed_at = some now })
              (λ c. refl))))

    revoke_transfer-Keeps : (id : String) (now : ℕ) → Keeps P (revoke_transfer id now)
    unfolding revoke_transfer
    revoke_transfer-Keeps id now = Keeps-bind (require_transfer-Keeps id) (λ _.
        k.by_spending id (λ c. record c { status = revoked; revoked_at = some now }) (λ c. refl))

    active_or_expired-Keeps :
        (now : ℕ) (o : Option (String × TransferCapability)) → Keeps P (active_or_expired now o)
    unfolding active_or_expired
    active_or_expired-Keeps now none = Keeps-pure none
    active_or_expired-Keeps now (some (id, c)) =
        Keeps-if (is_issued c.status && leb c.expires_at now)
          (Keeps-then (k.by_spending id (λ c. record c { status = expired }) (λ c. refl))
            (Keeps-pure none))
          (Keeps-pure (if not (is_issued c.status) then none else some (id, c)))

    get_active_transfer-Keeps :
        (token : String) (now : ℕ) → Keeps P (get_active_transfer sha256 strip lower token now)
    unfolding get_active_transfer
    get_active_transfer-Keeps token now =
        Keeps-bind (token_sha256-Keeps token)
          (λ hash. Keeps-bind (Keeps-gets (find_hash hash)) (λ o. active_or_expired-Keeps now o))

    issue-Keeps : (r : IssueRequest) → Keeps P (issue_transfer_capability sha256 strip lower r)
    unfolding issue_transfer_capability
    issue-Keeps r =
        Keeps-then (Keeps-raise_if (r.max_bytes == 0) (value_error "max_bytes must be positive")) (
          Keeps-bind (token_sha256-Keeps (chosen_token r)) (λ hash.
            Keeps-bind (Keeps-lifted (normalize_relative_path r.expected_relative_path)) (λ path.
              Keeps-bind (Keeps-lifted (normalize_extension strip lower r.expected_extension))
                (λ extension.
                  Keeps-then (k.by_adding r.capability_id (capability_of r hash path extension))
                    (Keeps-pure (chosen_token r))))))

    run_call-Keeps : (c : TransferCall) (t : Transfers) → P t → P (run_call c t)
    unfolding run_call
    run_call-Keeps (TransferCall.issue r) t p = (issue-Keeps r).kept t p
    run_call-Keeps (TransferCall.look token now) t p =
        (get_active_transfer-Keeps token now).kept t p
    run_call-Keeps (TransferCall.consume id now) t p = (consume_transfer-Keeps id now).kept t p
    run_call-Keeps (TransferCall.revoke id now) t p = (revoke_transfer-Keeps id now).kept t p
    run_call-Keeps (TransferCall.revoke_job job_id now) t p = (k.by_revoking job_id now).kept t p

    pub run_calls-Keeps : (cs : List TransferCall) (t : Transfers) → P t → P (run_calls cs t)
    unfolding run_calls
    run_calls-Keeps [] t p = p
    run_calls-Keeps (c ∷ cs) t p = run_calls-Keeps cs (run_call c t) (run_call-Keeps c t p)
