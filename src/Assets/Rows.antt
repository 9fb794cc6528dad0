-- ===== src/Assets/Rows.antt =====
-- The rows of `AssetTransferCapability` in src/ace_service/models.py, and the arguments of the calls of
-- src/ace_service/repository.py on them.
use audio_ventura.Base.{
  ℕ, ◌+◌, Bool, true, false, not, ◌&&◌, ◌||◌, Option, none, some, String, ◌==◌, nat_eq, string_eq,
  option_eq, leb, ltb, is_empty, longer_than, is_some, if◌then◌else◌, Result, ok, err, Exec, pure,
  modify, ◌>>◌, Table, lookup, update, insert, find_row,
}
use audio_ventura.Errors.{Failure, integrity_error}
use audio_ventura.Assets.Policy.{
  AssetTransferDirection, upload, download, AssetTransferStatus, issued, consumed, expired,
  AssetTransferPurpose, asset_purpose_policy, DerivativeTask,
}

pub record AssetTransferCapability : Type 0 where
  pub token_sha256 : String
  pub direction : AssetTransferDirection
  pub purpose : AssetTransferPurpose
  pub source_asset_id : Option String
  pub job_id : Option String
  pub derivative_task_id : Option String
  pub storage_namespace : String
  pub expected_relative_path : String
  pub expected_extension : String
  pub expected_mime_type : Option String
  pub expected_byte_size : Option ℕ
  pub expected_sha256 : Option String
  pub max_bytes : ℕ
  pub status : AssetTransferStatus
  pub access_count : ℕ
  pub received_byte_size : Option ℕ
  pub received_sha256 : Option String
  pub expires_at : ℕ
  pub consumed_at : Option ℕ

abbrev pub Assets : Type 0
Assets = Table String AssetTransferCapability

abbrev pub Call : Type 0 → Type 0
Call A = Exec Assets Failure A

abbrev pub Entry : Type 0
Entry = String × AssetTransferCapability

abbrev pub is_issued : AssetTransferStatus → Bool
is_issued issued = true
is_issued _ = false

abbrev pub is_consumed : AssetTransferStatus → Bool
is_consumed consumed = true
is_consumed _ = false

abbrev pub is_upload : AssetTransferDirection → Bool
is_upload upload = true
is_upload download = false

abbrev pub write : String → (AssetTransferCapability → AssetTransferCapability) → Call Unit
write id f = modify (update id f)

abbrev pub lifted : {A : Type 0} → Result Failure A → Call A
lifted r t = (r, t)

-- The owner of a capability, one of the three.
pub record Owner : Type 0 where
  pub source_asset_id : Option String
  pub job_id : Option String
  pub derivative_task_id : Option String

abbrev pub one : {A : Type 0} → Option A → ℕ
one none = 0
one (some a) = 1

abbrev pub owner_count : Owner → ℕ
owner_count o = one o.source_asset_id + one o.job_id + one o.derivative_task_id

-- What the calls read of the other tables.
pub record OtherTables : Type 0 where
  pub has_source_asset : String → Bool
  pub has_job : String → Bool
  pub derivative_task : String → Option DerivativeTask

-- The arguments of an issue, and what the environment gives.
pub record AssetRequest : Type 0 where
  pub purpose : AssetTransferPurpose
  pub expected_relative_path : String
  pub expected_extension : String
  pub max_bytes : ℕ
  pub expires_at : ℕ
  pub owner : Owner
  pub expected_mime_type : Option String
  pub expected_byte_size : Option ℕ
  pub expected_sha256 : Option String
  pub token : Option String
  pub fresh_token : String
  pub capability_id : String

abbrev pub chosen_token : AssetRequest → String
chosen_token r = elim r.token [
  | none ↦ r.fresh_token
  | some token ↦ if is_empty token then r.fresh_token else token
]

abbrev pub bad_expected_size : ℕ → Option ℕ → Bool
bad_expected_size max_bytes none = false
bad_expected_size max_bytes (some size) = size == 0 || ltb max_bytes size

abbrev pub bad_mime_type : Option String → Bool
bad_mime_type none = false
bad_mime_type (some mime) = is_empty mime || longer_than mime 128

abbrev pub task_of : OtherTables → Option String → Option DerivativeTask
task_of tables none = none
task_of tables (some id) = tables.derivative_task id

abbrev pub unknown : {A : Type 0} → Option A → (A → Bool) → Bool
unknown none test = false
unknown (some a) test = not (test a)

abbrev pub is_taken : String → String → Assets → Bool
is_taken id hash t = is_some (lookup id t) || is_some (find_row (λ c. c.token_sha256 == hash) t)

unfoldable pub add_capability : String → AssetTransferCapability → Call Unit
add_capability id c t =
    if is_taken id c.token_sha256 t then (err integrity_error, t) else (ok tt, insert id c t)

-- The row that is issued, once every check has passed.
abbrev pub capability_of :
    AssetRequest
    → String
    → String
    → String
    → Option String
    → Option String
    → AssetTransferCapability
capability_of r hash path extension source expected_sha256 =
    let policy = asset_purpose_policy r.purpose in
    record {
      token_sha256 = hash;
      direction = policy.direction;
      purpose = r.purpose;
      source_asset_id = source;
      job_id = r.owner.job_id;
      derivative_task_id = r.owner.derivative_task_id;
      storage_namespace = policy.namespace;
      expected_relative_path = path;
      expected_extension = extension;
      expected_mime_type = r.expected_mime_type;
      expected_byte_size = r.expected_byte_size;
      expected_sha256 = expected_sha256;
      max_bytes = r.max_bytes;
      status = issued;
      access_count = 0;
      received_byte_size = none;
      received_sha256 = none;
      expires_at = r.expires_at;
      consumed_at = none;
    }

-- A capability that has expired is marked when it is looked at.
unfoldable pub active_or_expired : ℕ → Option Entry → Call (Option Entry)
active_or_expired now none = pure none
active_or_expired now (some (id, c)) =
    if is_issued c.status && leb c.expires_at now
    then write id (λ c. record c { status = expired }) >> pure none
    else pure (if is_issued c.status then some (id, c) else none)
