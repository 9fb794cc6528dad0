-- ===== src/Sources/Creation.antt =====
-- `create_source_asset` of src/ace_service/repository.py.
use audio_ventura.Base.{
  ℕ, Bool, false, not, ◌||◌, Option, none, some, String, ◌==◌, nat_eq, string_eq, ltb, is_empty,
  longer_than, is_some, or_else, if◌then◌else◌, Result, ok, err, raise_if, gets, ◌>>=◌, ◌>>◌,
  lookup, insert, find_row,
}
use audio_ventura.Errors.{Failure, value_error, key_error, integrity_error}
use audio_ventura.Sources.Rows.{
  Call, SourceAsset, SourceAssetOrigin, awaiting_upload, lifted, queued, satisfies, upload, youtube,
}
use audio_ventura.Sources.{Library, source_uuid}

-- The arguments of `create_source_asset`.
pub record NewSource : Type 0 where
  pub project_id : String
  pub origin : SourceAssetOrigin
  pub display_title : String
  pub rights_confirmation_at : ℕ
  pub youtube_url : Option String
  pub youtube_video_id : Option String
  pub original_filename : Option String
  pub declared_byte_size : Option ℕ
  pub preferred_remix_backend : Option String
  pub id : String

-- What every new source holds.
abbrev pub blank_source : NewSource → String → Option String → ℕ → SourceAsset
blank_source r title backend now = record {
  project_id = r.project_id;
  origin = r.origin;
  status = awaiting_upload;
  display_title = title;
  preferred_remix_backend = backend;
  youtube_url = none;
  youtube_video_id = none;
  original_filename = none;
  declared_byte_size = none;
  raw_relative_path = none;
  raw_byte_size = none;
  raw_sha256 = none;
  canonical_byte_size = none;
  canonical_sha256 = none;
  duration_seconds = none;
  rights_confirmation_at = r.rights_confirmation_at;
  error_code = none;
  user_facing_error = none;
  attempt_count = 0;
  next_attempt_at = none;
  started_at = none;
  completed_at = none;
  created_at = now;
  updated_at = now;
}

abbrev pub of_project : String → SourceAsset → Bool
of_project id a = a.project_id == id

-- A new row: its key is not taken, and the constraints hold.
unfoldable pub add_source : String → SourceAsset → Call String
add_source id a s =
    if is_some (lookup id s.sources) || not (satisfies a)
    then (err integrity_error, s)
    else (ok id, record s { sources = insert id a s.sources })

abbrev pub has_text : Option String → Bool
has_text none = false
has_text (some s) = not (is_empty s)

module _ (p : Library) where
  abbrev pub media_title : String → Result Failure String
  media_title value =
      if is_empty (p.strip value) || longer_than (p.strip value) 300
      then err (value_error "media title must be 1..300 characters")
      else ok (p.strip value)

  abbrev pub checked_backend : Option String → Result Failure (Option String)
  checked_backend none = ok none
  checked_backend (some b) = elim (p.backend_id b) [ ok c ↦ ok (some c) | err e ↦ err e ]

  abbrev pub is_blank : String → Bool
  is_blank s = is_empty (p.strip s)

  abbrev pub youtube_source :
      String → Result Failure String → SourceAsset → Result Failure SourceAsset
  youtube_source video (err e) a = err e
  youtube_source video (ok url) a =
      if longer_than video 128 || is_blank video
      then err (value_error "YouTube video identity is invalid")
      else ok (record a {
        status = queued;
        youtube_url = some url;
        youtube_video_id = some (p.strip video);
      })

  abbrev pub bad_filename : String → Bool
  bad_filename name = longer_than (p.strip name) 300 || p.has_control (p.strip name)

  abbrev pub upload_source : String → Option ℕ → SourceAsset → Result Failure SourceAsset
  upload_source name none a = err (value_error "uploaded source size must be between 1 and 512 MiB")
  upload_source name (some size) a =
      if size == 0 || ltb 536870912 size
      then err (value_error "uploaded source size must be between 1 and 512 MiB")
      else ok (record a { original_filename = some (p.strip name); declared_byte_size = some size })

  abbrev pub named_source : Option String → Option ℕ → SourceAsset → Result Failure SourceAsset
  named_source none size a = err (value_error "uploaded source filename is required")
  named_source (some name) size a =
      if is_blank name
      then err (value_error "uploaded source filename is required")
      else if bad_filename name
      then err (value_error "uploaded source filename is invalid")
      else upload_source name size a

  -- The columns of the origin, after its checks.
  unfoldable pub with_origin :
      SourceAssetOrigin → NewSource → SourceAsset → Result Failure SourceAsset
  with_origin youtube r a =
      if not (has_text r.youtube_url) || not (has_text r.youtube_video_id)
      then err (value_error "YouTube sources require URL and video identity")
      else youtube_source (or_else r.youtube_video_id "")
          (p.validate_youtube_url (or_else r.youtube_url "")) a
  with_origin upload r a =
      if is_some r.youtube_url || is_some r.youtube_video_id
      then err (value_error "upload sources must not carry YouTube metadata")
      else named_source r.original_filename r.declared_byte_size a

  unfoldable pub create_source_asset : Bool → NewSource → ℕ → Call String
  unfolding with_origin source_uuid add_source
  create_source_asset has_project r now = do
    raise_if (not has_project) key_error
    title ← lifted (media_title r.display_title)
    backend ← lifted (checked_backend r.preferred_remix_backend)
    asset ← lifted (with_origin r.origin r (blank_source r title backend now))
    existing ← gets (λ s. is_some (find_row (of_project r.project_id) s.sources))
    raise_if existing (value_error "project already has a primary source")
    id ← source_uuid p r.id
    add_source id asset
