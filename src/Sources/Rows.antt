-- ===== src/Sources/Rows.antt =====
-- The rows of `SourceAsset` in src/ace_service/models.py, their check constraints, and what the calls of
-- src/ace_service/repository.py write to them. A duration is counted in parts of a second.
use audio_ventura.Base.{
  ℕ, ◌+◌, Bool, true, false, not, ◌&&◌, Option, none, some, String, nat_eq, string_eq, ltb, is_some,
  is_none, if◌then◌else◌, Result, ok, err, Exec, or_raise, Table, lookup, update,
}
use audio_ventura.Errors.{Failure, key_error, integrity_error}
use audio_ventura.Assets.Rows.{Assets}

pub data SourceAssetOrigin : Type 0 where
  youtube upload : SourceAssetOrigin

pub data SourceAssetStatus : Type 0 where
  awaiting_upload uploaded queued preparing ready failed cancelled : SourceAssetStatus

pub record SourceAsset : Type 0 where
  pub project_id : String
  pub origin : SourceAssetOrigin
  pub status : SourceAssetStatus
  pub display_title : String
  pub preferred_remix_backend : Option String
  pub youtube_url : Option String
  pub youtube_video_id : Option String
  pub original_filename : Option String
  pub declared_byte_size : Option ℕ
  pub raw_relative_path : Option String
  pub raw_byte_size : Option ℕ
  pub raw_sha256 : Option String
  pub canonical_byte_size : Option ℕ
  pub canonical_sha256 : Option String
  pub duration_seconds : Option ℕ
  pub rights_confirmation_at : ℕ
  pub error_code : Option String
  pub user_facing_error : Option String
  pub attempt_count : ℕ
  pub next_attempt_at : Option ℕ
  pub started_at : Option ℕ
  pub completed_at : Option ℕ
  pub created_at : ℕ
  pub updated_at : ℕ

-- The sources, and the capabilities that belong to them.
pub record Ingest : Type 0 where
  pub sources : Table String SourceAsset
  pub capabilities : Assets

abbrev pub Call : Type 0 → Type 0
Call A = Exec Ingest Failure A

abbrev pub lifted : {A : Type 0} → Result Failure A → Call A
lifted r s = (r, s)

abbrev pub is_upload : SourceAssetOrigin → Bool
is_upload upload = true
is_upload youtube = false

abbrev pub is_ready : SourceAssetStatus → Bool
is_ready ready = true
is_ready _ = false

abbrev pub accepts_upload : SourceAssetStatus → Bool
accepts_upload awaiting_upload = true
accepts_upload uploaded = true
accepts_upload _ = false

abbrev pub may_prepare : SourceAssetStatus → Bool
may_prepare queued = true
may_prepare uploaded = true
may_prepare preparing = true
may_prepare _ = false

abbrev pub may_retry : SourceAssetStatus → Bool
may_retry failed = true
may_retry cancelled = true
may_retry _ = false

abbrev pub is_positive : Option ℕ → Bool
is_positive none = true
is_positive (some n) = ltb 0 n

abbrev pub has_canonical : SourceAsset → Bool
has_canonical a =
    is_some a.duration_seconds && is_some a.canonical_byte_size && is_some a.canonical_sha256

abbrev pub has_metadata : SourceAsset → Bool
has_metadata a =
    if is_upload a.origin
    then is_some a.original_filename && is_some a.declared_byte_size
    else is_some a.youtube_url && is_some a.youtube_video_id

-- The check constraints: the last says that a source is ready exactly with its canonical file.
unfoldable pub satisfies : SourceAsset → Bool
satisfies a =
    has_metadata a
    && is_positive a.declared_byte_size
    && is_positive a.raw_byte_size
    && is_positive a.canonical_byte_size
    && is_positive a.duration_seconds
    && (if is_ready a.status then has_canonical a else not (has_canonical a))

unfoldable pub put : String → SourceAsset → Call Unit
put id a s =
    if satisfies a
    then (ok tt, record s { sources = update id (λ _. a) s.sources })
    else (err integrity_error, s)

unfoldable pub require_source : String → Call SourceAsset
require_source id s = or_raise (lookup id s.sources) key_error s

abbrev pub uploaded_source : String → ℕ → String → ℕ → SourceAsset → SourceAsset
uploaded_source path size sha256 now a = record a {
  raw_relative_path = some path;
  raw_byte_size = some size;
  raw_sha256 = some sha256;
  status = uploaded;
  updated_at = now;
}

abbrev pub preparing_source : ℕ → SourceAsset → SourceAsset
preparing_source now a = record a {
  status = preparing;
  attempt_count = a.attempt_count + 1;
  started_at = some now;
  next_attempt_at = none;
  updated_at = now;
}

abbrev pub failed_source : String → String → Option ℕ → ℕ → SourceAsset → SourceAsset
failed_source code error retry_at now a = record a {
  status = failed;
  error_code = some code;
  user_facing_error = some error;
  next_attempt_at = retry_at;
  updated_at = now;
}

-- Where a source starts again.
abbrev pub restarted : SourceAsset → SourceAssetStatus
restarted a = if is_upload a.origin && is_none a.raw_relative_path then awaiting_upload else queued

abbrev pub retried_source : ℕ → SourceAsset → SourceAsset
retried_source now a = record a {
  status = restarted a;
  error_code = none;
  user_facing_error = none;
  next_attempt_at = none;
  updated_at = now;
}
