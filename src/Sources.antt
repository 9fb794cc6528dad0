-- ===== src/Sources.antt =====
-- The source assets of src/ace_service/repository.py, over the rows of `SourceAsset` in
-- src/ace_service/models.py. Every caller runs these calls in a session that it leaves, uncommitted,
-- where one raises (and creation also stamps the project, which is left out): so a call that raises writes nothing. `put` is the flush of a row, which the check
-- constraints of its table may refuse. What a call reads of other tables is an argument, as are ids
-- made by `uuid4` and the time. A duration is counted in parts of a second, and is nothing where the
-- number that came is not finite. `validate_youtube_url`, `urlsplit` and `parse_qs` with some checks, is
-- an argument.
use audio_ventura.Base.{
  ℕ, ◌+◌, Bool, true, false, not, ◌&&◌, ◌||◌, Option, none, some, String, ◌==◌, nat_eq, string_eq,
  ltb, is_empty, longer_than, is_some, is_none, or_else, if◌then◌else◌, Result, ok, err, Exec, pure,
  raise_if, gets, modify, or_raise, ◌>>=◌, ◌>>◌, Table, lookup, update, insert, find_row,
}
use audio_ventura.Errors.{Failure, value_error, key_error, integrity_error}
use audio_ventura.Paths.{normalize_relative_path, validate_sha256}
use audio_ventura.Assets.Rows.{Assets}
use audio_ventura.Sources.Rows.{
  Call, SourceAsset, SourceAssetOrigin, accepts_upload, awaiting_upload, failed_source, is_upload,
  lifted, may_prepare, may_retry, preparing_source, put, queued, require_source, retried_source,
  satisfies, upload, uploaded, uploaded_source, youtube,
}
pub mod Rows
pub mod Creation
pub mod Work
pub mod Moves
pub mod Steps
pub mod Calls
pub mod Sound
pub mod Store
pub mod Final
pub mod Stale
mod Tests

-- The methods of `str`, `uuid.UUID`, the slice of a `str`, and the two checks of texts.
pub record Library : Type 0 where
  pub strip : String → String
  pub lower : String → String
  pub uuid : String → Option String
  pub cut : ℕ → String → String
  pub has_control : String → Bool
  pub validate_youtube_url : String → Result Failure String
  pub backend_id : String → Result Failure String

module _ (p : Library) where
  unfoldable pub source_uuid : String → Call String
  source_uuid value = or_raise (p.uuid value) (value_error "asset identity must be a UUID")

  unfoldable pub mark_source_uploaded : String → String → ℕ → String → ℕ → Call Unit
  unfolding source_uuid require_source put
  mark_source_uploaded source_id path size sha256 now = do
    id ← source_uuid source_id
    a ← require_source id
    raise_if (not (is_upload a.origin))
        (value_error "only direct uploads have a raw upload handoff")
    raise_if (not (accepts_upload a.status)) (value_error "source asset is not accepting an upload")
    raw ← lifted (normalize_relative_path path)
    raise_if (size == 0) (value_error "raw byte size must be positive")
    hash ← lifted (validate_sha256 p.lower sha256)
    put id (uploaded_source raw size hash now a)

  -- The row as the session holds it.
  unfoldable pub prepare_row : String → ℕ → SourceAsset → Call Unit
  unfolding put
  prepare_row id now a = do
    raise_if (not (may_prepare a.status)) (value_error "source asset is not queued for preparation")
    put id (preparing_source now a)

  unfoldable pub mark_source_preparing : String → ℕ → Call Unit
  unfolding source_uuid require_source prepare_row
  mark_source_preparing source_id now = do
    id ← source_uuid source_id
    a ← require_source id
    prepare_row id now a

  unfoldable pub fail_source_asset : String → String → String → Option ℕ → ℕ → Call Unit
  unfolding source_uuid require_source put
  fail_source_asset source_id code error retry_at now = do
    id ← source_uuid source_id
    a ← require_source id
    raise_if (is_empty code || longer_than code 64 || is_empty error)
        (value_error "source failure details are invalid")
    put id (failed_source (p.cut 64 code) (p.cut 500 error) retry_at now a)

  -- `is_used` says whether a job that has not ended refers to the source's media item.
  unfoldable pub retry_source_asset : (String → Bool) → String → ℕ → Call Unit
  unfolding source_uuid require_source put
  retry_source_asset is_used source_id now = do
    id ← source_uuid source_id
    a ← require_source id
    raise_if (not (may_retry a.status)) (value_error "only terminal source failures can be retried")
    raise_if (is_used id) (value_error "source is referenced by a nonterminal job")
    put id (retried_source now a)
