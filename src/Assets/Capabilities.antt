-- ===== src/Assets/Capabilities.antt =====
-- The asset transfer capabilities of src/ace_service/repository.py: issue, download claims, the
-- completion of an upload and revocation, over the rows of `AssetTransferCapability` in
-- src/ace_service/models.py.
use audio_ventura.Base.{
  ℕ, ◌+◌, Bool, false, not, ◌&&◌, ◌||◌, Option, none, some, String, ◌==◌, nat_eq, string_eq,
  option_eq, leb, ltb, is_empty, is_some, if◌then◌else◌, Result, ok, err, pure, raise, raise_if,
  gets, modify, or_raise, ◌>>=◌, ◌>>◌, lookup, map_rows, find_row,
}
use audio_ventura.Errors.{Failure, value_error, key_error}
use audio_ventura.Paths.{normalize_relative_path, normalize_extension, validate_sha256}
use audio_ventura.Assets.Policy.{
  consumed, expired, revoked, asset_purpose_policy, purpose_path, path_message, breaks_fixed,
  breaks_lossless,
}
use audio_ventura.Assets.Rows.{
  AssetRequest, AssetTransferCapability, Call, Entry, OtherTables, Owner, active_or_expired,
  add_capability, bad_expected_size, bad_mime_type, capability_of, chosen_token, is_consumed,
  is_issued, is_upload, lifted, owner_count, task_of, unknown, write,
}

-- What is done with the capability that was found.
unfoldable pub claimed : ℕ → Option Entry → Call (Option Entry)
claimed max_opens none = pure none
claimed max_opens (some (id, c)) =
    if is_upload c.direction
    then pure none
    else if leb max_opens c.access_count
    then write id (λ c. record c { status = expired }) >> pure none
    else do
      write id (λ d. record d { access_count = c.access_count + 1 })
      pure (some (id, record c { access_count = c.access_count + 1 }))

abbrev pub other_than : {A : Type 0} → (A → A → Bool) → Option A → A → Bool
other_than same none a = false
other_than same (some b) a = not (same b a)

-- The received content against the capability.
unfoldable pub check_content : AssetTransferCapability → ℕ → String → Result Failure Unit
check_content c size hash =
    if not (is_upload c.direction)
    then err (value_error "only upload capabilities can be completed")
    else if size == 0 || ltb c.max_bytes size
    then err (value_error "received asset size is invalid")
    else if other_than nat_eq.same c.expected_byte_size size
    then err (value_error "received asset size does not match the capability")
    else if other_than string_eq.same c.expected_sha256 hash
    then err (value_error "received asset hash does not match the capability")
    else ok tt

abbrev pub is_content : AssetTransferCapability → ℕ → String → Bool
is_content c size hash = c.received_byte_size == some size && c.received_sha256 == some hash

abbrev pub completed : ℕ → String → ℕ → AssetTransferCapability → AssetTransferCapability
completed size hash now c = record c {
  received_byte_size = some size;
  received_sha256 = some hash;
  status = consumed;
  consumed_at = some now;
}

-- The completion of content that fits.
unfoldable pub finish_upload :
    String → AssetTransferCapability → ℕ → String → ℕ → Call AssetTransferCapability
finish_upload id c size hash now =
    if is_consumed c.status
    then (if is_content c size hash
        then pure c
        else raise (value_error "asset upload retry conflicts with the consumed content"))
    else if not (is_issued c.status)
    then raise (value_error "asset transfer capability is not issued")
    else if leb c.expires_at now
    then write id (λ c. record c { status = expired })
      >> raise (value_error "asset transfer capability has expired")
    else write id (completed size hash now) >> pure (completed size hash now c)

unfoldable pub require_asset : String → Call AssetTransferCapability
require_asset id t = or_raise (lookup id t) key_error t

abbrev pub owned : Owner → Option String → AssetTransferCapability → Bool
owned o source c = elim source [
  | some id ↦ c.source_asset_id == some id
  | none ↦ elim o.job_id [
    | some id ↦ c.job_id == some id
    | none ↦ c.derivative_task_id == o.derivative_task_id
  ]
]

abbrev pub revoke_row :
    (AssetTransferCapability → Bool) → ℕ → AssetTransferCapability → AssetTransferCapability
revoke_row test now c =
    if is_issued c.status && test c
    then record c { status = revoked; consumed_at = some now }
    else c

abbrev pub fixed_extension : AssetRequest → String
fixed_extension r = (asset_purpose_policy r.purpose).extension

-- The path is not the one of the purpose.
unfoldable pub misplaced : OtherTables → AssetRequest → Option String → String → Bool
unfolding purpose_path
misplaced tables r source path = not (
    purpose_path r.purpose source r.owner.job_id (task_of tables r.owner.derivative_task_id)
    == some path)

-- `hashlib`, the methods of `str`, and `uuid.UUID`, which gives nothing where it raises.
pub record Library : Type 0 where
  pub sha256 : String → String
  pub strip : String → String
  pub lower : String → String
  pub uuid : String → Option String

module _ (p : Library) where
  unfoldable pub asset_uuid : String → Call String
  asset_uuid value t = or_raise (p.uuid value) (value_error "asset identity must be a UUID") t

  unfoldable pub token_sha256 : String → Call String
  token_sha256 token = do
    raise_if (is_empty token) (value_error "transfer token must not be empty")
    pure (p.sha256 token)

  -- The canonical id of an optional asset, and the check of an optional hash.
  unfoldable pub canonical : Option String → Call (Option String)
  unfolding asset_uuid
  canonical none = pure none
  canonical (some id) = asset_uuid id >>= (λ uuid. pure (some uuid))

  unfoldable pub checked_sha256 : Option String → Call (Option String)
  checked_sha256 none = pure none
  checked_sha256 (some hash) = lifted (validate_sha256 p.lower hash) >>= (λ h. pure (some h))

  -- The end of an issue: its row, with a fresh id.
  unfoldable pub recorded :
      AssetRequest → String → String → Option String → Option String → Call String
  unfolding asset_uuid token_sha256
  recorded r path extension source expected_sha256 = do
    id ← asset_uuid r.capability_id
    hash ← token_sha256 (chosen_token r)
    add_capability id (capability_of r hash path extension source expected_sha256)
    pure (chosen_token r)

  -- The checks against the other tables, and of the path.
  unfoldable pub located : OtherTables → AssetRequest → String → Option String → Call String
  unfolding canonical recorded
  located tables r extension expected_sha256 = do
    source ← canonical r.owner.source_asset_id
    raise_if (unknown source tables.has_source_asset) key_error
    raise_if (unknown r.owner.job_id tables.has_job) key_error
    raise_if (unknown r.owner.derivative_task_id (λ id. is_some (tables.derivative_task id)))
        key_error
    path ← lifted (normalize_relative_path r.expected_relative_path)
    raise_if (misplaced tables r source path) (value_error (path_message r.purpose))
    recorded r path extension source expected_sha256

  unfoldable pub issue_asset_transfer_capability : OtherTables → AssetRequest → Call String
  unfolding checked_sha256 located
  issue_asset_transfer_capability tables r = do
    extension ← lifted (normalize_extension p.strip p.lower r.expected_extension)
    raise_if (breaks_fixed (fixed_extension r) extension)
        (value_error "asset transfer extension does not match its purpose")
    raise_if (breaks_lossless (fixed_extension r) extension)
        (value_error "derivative source must be FLAC or WAV")
    raise_if (not (owner_count r.owner == 1))
        (value_error "asset transfer must have exactly one owner")
    raise_if (r.max_bytes == 0) (value_error "asset transfer maximum must be positive")
    raise_if (bad_expected_size r.max_bytes r.expected_byte_size)
        (value_error "expected asset size is invalid")
    expected_sha256 ← checked_sha256 r.expected_sha256
    raise_if (bad_mime_type r.expected_mime_type) (value_error "asset MIME type is invalid")
    located tables r extension expected_sha256

  unfoldable pub get_active_asset_transfer : String → ℕ → Call (Option Entry)
  unfolding token_sha256 active_or_expired
  get_active_asset_transfer token now = do
    hash ← token_sha256 token
    found ← gets (find_row (λ c. c.token_sha256 == hash))
    active_or_expired now found

  unfoldable pub claim_asset_download : String → ℕ → ℕ → Call (Option Entry)
  unfolding get_active_asset_transfer claimed
  claim_asset_download token max_opens now = do
    raise_if (max_opens == 0) (value_error "asset download open limit is invalid")
    found ← get_active_asset_transfer token now
    claimed max_opens found

  unfoldable pub complete_asset_upload : String → ℕ → String → ℕ → Call AssetTransferCapability
  unfolding asset_uuid require_asset check_content finish_upload
  complete_asset_upload capability_id size sha256 now = do
    id ← asset_uuid capability_id
    c ← require_asset id
    hash ← lifted (validate_sha256 p.lower sha256)
    lifted (check_content c size hash)
    finish_upload id c size hash now

  unfoldable pub revoke_asset_transfers : Owner → ℕ → Call Unit
  unfolding canonical
  revoke_asset_transfers owner now = do
    raise_if (not (owner_count owner == 1)) (value_error "one asset transfer owner is required")
    source ← canonical owner.source_asset_id
    modify (map_rows (revoke_row (owned owner source) now))
