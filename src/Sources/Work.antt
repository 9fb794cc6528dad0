-- ===== src/Sources/Work.antt =====
-- What the coordinator of src/ace_service/source_assets.py and the cancellation in src/ace_service/web.py
-- do to source assets, each in a session of its own. Of the publication only
-- the part that checks and writes the source is modelled; the media item, its file and the playlist
-- follow it. What `_safe_file` found is an argument.
use audio_ventura.Base.{
  ℕ, ◌+◌, ◌*◌, ◌^◌, max, Bool, true, false, not, ◌&&◌, ◌||◌, Option, none, some, String, ◌==◌,
  nat_eq, string_eq, option_eq, ltb, leb, is_empty, longer_than, or_else, ◌+++◌, if◌then◌else◌,
  Result, ok, err, Exec, pure, raise, raise_if, gets, modify, ◌>>=◌, ◌>>◌, lookup, map_rows,
}
use audio_ventura.Errors.{Failure, value_error}
use audio_ventura.Paths.{validate_sha256}
use audio_ventura.Assets.Rows.{Assets, Owner}
use audio_ventura.Assets.Capabilities
use audio_ventura.Sources.{Library, source_uuid, prepare_row}
use audio_ventura.Sources.Rows.{
  SourceAssetStatus, awaiting_upload, uploaded, queued, preparing, ready, failed, cancelled,
  SourceAsset, Call, lifted, is_upload, is_ready, put, require_source, failed_source, restarted,
}

abbrev pub second : ℕ
second = 1000000

abbrev pub min : ℕ → ℕ → ℕ
min a b = if leb a b then a else b

abbrev pub is_due : ℕ → Option ℕ → Bool
is_due now none = false
is_due now (some at) = leb at now

-- `_recover`, of one source.
unfoldable pub recovered : ℕ → SourceAssetStatus → SourceAsset → SourceAsset
recovered now preparing a = record a {
  status = if is_upload a.origin then uploaded else queued;
  next_attempt_at = none;
  updated_at = now;
}
recovered now failed a =
    if is_due now a.next_attempt_at
    then record a { status = restarted a; next_attempt_at = none }
    else a
recovered now _ a = a

unfoldable pub recover : ℕ → Call Unit
unfolding recovered
recover now =
    modify (λ s. record s { sources = map_rows (λ a. recovered now a.status a) s.sources })

abbrev pub is_cancelled : SourceAssetStatus → Bool
is_cancelled cancelled = true
is_cancelled _ = false

abbrev pub owner_of : String → Owner
owner_of id = record { source_asset_id = some id; job_id = none; derivative_task_id = none }

abbrev pub on_capabilities : {A : Type 0} → Exec Assets Failure A → Call A
on_capabilities m s = let (r, c) = m s.capabilities in (r, record s { capabilities = c })

-- The bound of the delays between two tries, from the number of tries.
abbrev pub retry_after : ℕ → ℕ → ℕ
retry_after count now = now + min 3600 (max 5 (2 ^ min count 8)) * second

abbrev pub cancelled_source : String → String → ℕ → SourceAsset → SourceAsset
cancelled_source code error now a = record a {
  status = cancelled;
  error_code = some code;
  user_facing_error = some error;
  next_attempt_at = none;
  updated_at = now;
}

-- The file of a source that is cancelled by its user is given up.
abbrev pub without_file : SourceAsset → SourceAsset
without_file a = record a {
  raw_relative_path = if is_upload a.origin then none else a.raw_relative_path;
  raw_byte_size = if is_upload a.origin then none else a.raw_byte_size;
  raw_sha256 = if is_upload a.origin then none else a.raw_sha256;
}

-- The file that came: its size, its hash and its place, as the last consumed capability holds them.
pub record Receipt : Type 0 where
  pub byte_size : Option ℕ
  pub sha256 : Option String
  pub relative_path : String

pub record Publication : Type 0 where
  pub title : Option String
  pub duration : Option ℕ
  pub byte_size : ℕ
  pub sha256 : String

abbrev pub fits : String → Publication → String → Receipt → Bool
fits id b digest r =
    r.byte_size == some b.byte_size
    && r.sha256 == some digest
    && r.relative_path == "sources/" +++ id +++ "/source.mp3"

abbrev pub measured : Option ℕ → Result Failure ℕ
measured none = err (value_error "source duration must be finite and positive")
measured (some d) =
    if d == 0 then err (value_error "source duration must be finite and positive") else ok d

abbrev pub check_receipt : String → Publication → String → Option Receipt → Result Failure Unit
check_receipt id b digest none = err (value_error "canonical source upload has not been received")
check_receipt id b digest (some r) =
    if fits id b digest r
    then ok tt
    else err (value_error "canonical source receipt does not match Home Ingest metadata")

abbrev pub published_source : String → ℕ → String → ℕ → ℕ → SourceAsset → SourceAsset
published_source title size digest duration now a = record a {
  display_title = title;
  canonical_byte_size = some size;
  canonical_sha256 = some digest;
  duration_seconds = some duration;
  status = ready;
  completed_at = some (or_else a.completed_at now);
  error_code = none;
  user_facing_error = none;
  next_attempt_at = none;
  updated_at = now;
}

abbrev pub may_publish : SourceAssetStatus → Bool
may_publish preparing = true
may_publish ready = true
may_publish _ = false

module _ (p : Library) (q : Capabilities.Library) where
  -- The first session of `_process_source`: whether the preparation goes on.
  abbrev pub process_row : String → ℕ → SourceAssetStatus → SourceAsset → Call Bool
  process_row id now awaiting_upload a = pure false
  process_row id now ready a = pure false
  process_row id now cancelled a = pure false
  process_row id now failed a =
      if is_due now a.next_attempt_at
      then prepare_row p id now (record a { status = restarted a }) >> pure true
      else pure false
  process_row id now _ a = prepare_row p id now a >> pure true

  abbrev pub process_found : String → ℕ → Option SourceAsset → Call Bool
  process_found id now none = pure false
  process_found id now (some a) = process_row id now a.status a

  unfoldable pub process_source : String → ℕ → Call Bool
  unfolding source_uuid
  process_source source_id now = do
    id ← source_uuid p source_id
    found ← gets (λ s. lookup id s.sources)
    process_found id now found

  abbrev pub revoke : String → ℕ → Call Unit
  revoke id now = on_capabilities (Capabilities.revoke_asset_transfers q (owner_of id) now)

  abbrev pub failure_found :
      String → String → String → String → Bool → ℕ → Option SourceAsset → Call Unit
  failure_found source_id id code message permanent now none = pure tt
  failure_found source_id id code message permanent now (some a) =
      if is_ready a.status || is_cancelled a.status then pure tt else do
        put id (
            failed_source (p.cut 64 code) (p.cut 500 message)
              (if permanent then none else some (retry_after a.attempt_count now)) now a)
        revoke source_id now

  -- `permanent` says whether the code is one of those that no try mends.
  unfoldable pub record_source_failure : String → String → String → Bool → ℕ → Call Unit
  unfolding source_uuid
  record_source_failure source_id code message permanent now = do
    id ← source_uuid p source_id
    found ← gets (λ s. lookup id s.sources)
    failure_found source_id id code message permanent now found

  abbrev pub cancel_row : String → ℕ → SourceAssetStatus → SourceAsset → Call Unit
  cancel_row id now ready a = raise (value_error "ready sources cannot be cancelled")
  cancel_row id now failed a = pure tt
  cancel_row id now cancelled a = pure tt
  cancel_row id now _ a = do
    put id (
        without_file
          (cancelled_source "upload_cancelled" "This source upload was cancelled." now a))
    revoke id now

  unfoldable pub cancel_source : String → ℕ → Call Unit
  unfolding source_uuid require_source
  cancel_source source_id now = do
    id ← source_uuid p source_id
    a ← require_source id
    cancel_row id now a.status a

  abbrev pub clean_title : Publication → SourceAsset → String
  clean_title b a =
      p.strip (if is_empty (or_else b.title "") then a.display_title else or_else b.title "")

  abbrev pub publish_row :
      String → ℕ → Option Receipt → Bool → Publication → ℕ → SourceAsset → Call Unit
  publish_row id max_bytes receipt is_safe b now a = do
    raise_if (not (may_publish a.status)) (value_error "source asset is not being published")
    duration ← lifted (measured b.duration)
    raise_if (b.byte_size == 0 || ltb max_bytes b.byte_size)
        (value_error "canonical source size is invalid")
    digest ← lifted (validate_sha256 p.lower b.sha256)
    lifted (check_receipt id b digest receipt)
    raise_if (not is_safe) (value_error "the canonical file is missing or differs")
    raise_if (is_empty (clean_title b a) || longer_than (clean_title b a) 300)
        (value_error "source title is invalid")
    put id (published_source (clean_title b a) b.byte_size digest duration now a)

  -- `publish_ready_source`, as far as the source goes.
  unfoldable pub publish_ready_source :
      String → ℕ → Option Receipt → Bool → Bool → Publication → ℕ → Call Unit
  unfolding source_uuid require_source
  publish_ready_source source_id max_bytes receipt is_safe has_item b now = do
    id ← source_uuid p source_id
    a ← require_source id
    raise_if (is_cancelled a.status) (value_error "source asset was cancelled")
    if is_ready a.status && has_item
        then pure tt
        else publish_row id max_bytes receipt is_safe b now a
