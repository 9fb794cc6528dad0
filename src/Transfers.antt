-- ===== src/Transfers.antt =====
-- The transfer capabilities of src/ace_service/repository.py over the rows of `TransferCapability` in
-- src/ace_service/models.py: one-time tokens by which a worker fetches a source or hands in an
-- output. `sha256` stands for `hashlib`, and a token that `secrets` makes is an argument.
use audio_ventura.Base.{
  ℕ, ◌≡◌, refl, Bool, true, false, not, ◌&&◌, ◌||◌, Option, none, some, List, [], ◌∷◌, String, ◌==◌,
  nat_eq, string_eq, leb, is_empty, is_some, if◌then◌else◌, Result, ok, err, Exec, pure, raise,
  raise_if, gets, modify, or_raise, ◌>>=◌, ◌>>◌, Table, lookup, update, insert, arith,
}
use text.Mathlib.TextEquality.{eq_iff}
use audio_ventura.Errors.{Failure, value_error, key_error, integrity_error}
use audio_ventura.Paths.{normalize_relative_path, normalize_extension}
pub mod Calls
pub mod Spent
pub mod Active
mod Tests

pub data TransferDirection : Type 0 where
  source_download output_upload : TransferDirection

pub data TransferStatus : Type 0 where
  issued consumed expired revoked : TransferStatus

pub record TransferCapability : Type 0 where
  pub job_id : String
  pub direction : TransferDirection
  pub status : TransferStatus
  pub token_sha256 : String
  pub expected_relative_path : String
  pub expected_extension : String
  pub max_bytes : ℕ
  pub expires_at : ℕ
  pub consumed_at : Option ℕ
  pub revoked_at : Option ℕ

abbrev pub Transfers : Type 0
Transfers = Table String TransferCapability

abbrev pub Call : Type 0 → Type 0
Call A = Exec Transfers Failure A

abbrev pub is_issued : TransferStatus → Bool
is_issued issued = true
is_issued _ = false

abbrev pub write : String → (TransferCapability → TransferCapability) → Call Unit
write id f = modify (update id f)

abbrev pub revoke_row : String → ℕ → TransferCapability → TransferCapability
revoke_row job_id now c =
    if c.job_id == job_id && is_issued c.status
    then record c { status = revoked; revoked_at = some now }
    else c

unfoldable pub revoke_rows : String → ℕ → Transfers → Transfers
revoke_rows job_id now [] = []
revoke_rows job_id now ((id, c) ∷ t) = (id, revoke_row job_id now c) ∷ revoke_rows job_id now t

-- No capability of the job can still be used.
unfoldable pub no_issued : String → Transfers → Bool
no_issued job_id [] = true
no_issued job_id ((id, c) ∷ t) =
    not (c.job_id == job_id && is_issued c.status) && no_issued job_id t

pub revoke_rows-no_issued :
    (job_id : String) (now : ℕ) (t : Transfers) → no_issued job_id (revoke_rows job_id now t) ≡ true
unfolding no_issued revoke_rows
revoke_rows-no_issued job_id now [] = refl
revoke_rows-no_issued job_id now ((id, c) ∷ t) = ground (arith, revoke_rows-no_issued job_id now t)

unfoldable pub revoke_active_transfers : String → ℕ → Call Unit
revoke_active_transfers job_id now = modify (revoke_rows job_id now)

unfoldable pub require_transfer : String → Call TransferCapability
require_transfer id t = or_raise (lookup id t) key_error t

-- What is done with the row that was read.
abbrev pub consume_row : String → ℕ → TransferCapability → Call Unit
consume_row id now c = do
  raise_if (not (is_issued c.status)) (value_error "transfer capability is not issued")
  if leb c.expires_at now
      then write id (λ c. record c { status = expired })
        >> raise (value_error "transfer capability has expired")
      else write id (λ c. record c { status = consumed; consumed_at = some now })

unfoldable pub consume_transfer : String → ℕ → Call Unit
unfolding require_transfer
consume_transfer id now = require_transfer id >>= consume_row id now

unfoldable pub revoke_transfer : String → ℕ → Call Unit
unfolding require_transfer
revoke_transfer id now = do
  _ ← require_transfer id
  write id (λ c. record c { status = revoked; revoked_at = some now })

-- The arguments of an issue, and what the environment gives.
pub record IssueRequest : Type 0 where
  pub job_id : String
  pub direction : TransferDirection
  pub expected_relative_path : String
  pub expected_extension : String
  pub max_bytes : ℕ
  pub expires_at : ℕ
  pub token : Option String
  pub fresh_token : String
  pub capability_id : String

abbrev pub chosen_token : IssueRequest → String
chosen_token r = elim r.token [
  | none ↦ r.fresh_token
  | some token ↦ if is_empty token then r.fresh_token else token
]

abbrev pub capability_of : IssueRequest → String → String → String → TransferCapability
capability_of r hash path extension = record {
  job_id = r.job_id;
  direction = r.direction;
  status = issued;
  token_sha256 = hash;
  expected_relative_path = path;
  expected_extension = extension;
  max_bytes = r.max_bytes;
  expires_at = r.expires_at;
  consumed_at = none;
  revoked_at = none;
}

unfoldable pub find_hash : String → Transfers → Option (String × TransferCapability)
find_hash hash [] = none
find_hash hash ((id, c) ∷ t) = if c.token_sha256 == hash then some (id, c) else find_hash hash t

-- The keys of the table are unique, and so are the hashes.
abbrev pub is_taken : String → String → Transfers → Bool
is_taken id hash t = is_some (lookup id t) || is_some (find_hash hash t)

unfoldable pub add_capability : String → TransferCapability → Call Unit
unfolding find_hash
add_capability id c t =
    if is_taken id c.token_sha256 t then (err integrity_error, t) else (ok tt, insert id c t)

-- A capability that has expired is marked when it is looked at.
unfoldable pub active_or_expired :
    ℕ → Option (String × TransferCapability) → Call (Option (String × TransferCapability))
active_or_expired now none = pure none
active_or_expired now (some (id, c)) =
    if is_issued c.status && leb c.expires_at now
    then write id (λ c. record c { status = expired }) >> pure none
    else pure (if not (is_issued c.status) then none else some (id, c))

-- A check that raises, outside the session.
abbrev pub lifted : {S A : Type 0} → Result Failure A → Exec S Failure A
lifted r s = (r, s)

-- `strip` and `lower` are the methods of `str`.
module _ (sha256 strip lower : String → String) where
  unfoldable pub token_sha256 : String → Call String
  token_sha256 token = do
    raise_if (is_empty token) (value_error "transfer token must not be empty")
    pure (sha256 token)

  -- The row, and the plaintext token that is returned once.
  unfoldable pub issue_transfer_capability : IssueRequest → Call String
  unfolding token_sha256
  issue_transfer_capability r = do
    raise_if (r.max_bytes == 0) (value_error "max_bytes must be positive")
    hash ← token_sha256 (chosen_token r)
    path ← lifted (normalize_relative_path r.expected_relative_path)
    extension ← lifted (normalize_extension strip lower r.expected_extension)
    add_capability r.capability_id (capability_of r hash path extension)
    pure (chosen_token r)

  unfoldable pub get_active_transfer : String → ℕ → Call (Option (String × TransferCapability))
  unfolding token_sha256
  get_active_transfer token now = do
    hash ← token_sha256 token
    found ← gets (find_hash hash)
    active_or_expired now found
