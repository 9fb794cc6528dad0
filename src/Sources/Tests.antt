-- ===== src/Sources/Tests.antt =====
-- Runs of the calls of src/ace_service/repository.py, src/ace_service/source_assets.py and
-- src/ace_service/web.py on source assets.
use audio_ventura.Base.{
  ◌≡◌, refl, true, false, none, some, List, [], ◌∷◌, String, ok, lookup, insert, update, find_row,
  map_rows, string_eq, arith,
}
use audio_ventura.Paths.{
  normalize_relative_path, validate_sha256, has_code, has_parent, parts_of, segments, join,
}
use audio_ventura.Assets.Capabilities
use audio_ventura.Sources.{
  Library, source_uuid, prepare_row, mark_source_uploaded, retry_source_asset,
}
use audio_ventura.Sources.Creation.{NewSource, create_source_asset, with_origin, add_source}
use audio_ventura.Sources.Rows.{
  upload, failed, ready, SourceAsset, Ingest, satisfies, put, require_source, is_ready,
}
use audio_ventura.Sources.Work.{
  Receipt, Publication, process_source, record_source_failure, cancel_source, publish_ready_source,
}
use audio_ventura.Sources.Calls.{
  SourceCall, create, uploads, processes, records, cancels, retries, publishes, fails, run_call,
  run_calls,
}
use audio_ventura.Sources.Store.{SoundSources, sources-SoundSources}
use audio_ventura.Sources.Final.{ready_source_is_final}
use audio_ventura.Sources.Stale.{IsStranded, refusal, run_rounds, stranded_source_stays}

abbrev a_library : Library
a_library = record {
  strip = λ s. s;
  lower = λ s. s;
  uuid = λ s. some s;
  cut = λ n s. s;
  has_control = λ s. false;
  validate_youtube_url = λ s. ok s;
  backend_id = λ s. ok s;
}

abbrev transfers : Capabilities.Library
transfers = record { sha256 = λ s. s; strip = λ s. s; lower = λ s. s; uuid = λ s. some s }

abbrev empty_store : Ingest
empty_store = record { sources = []; capabilities = [] }

abbrev an_upload : NewSource
an_upload = record {
  project_id = "p1";
  origin = upload;
  display_title = "A song";
  rights_confirmation_at = 1;
  youtube_url = none;
  youtube_video_id = none;
  original_filename = some "song.wav";
  declared_byte_size = some 9;
  preferred_remix_backend = none;
  id = "s1";
}

abbrev a_hash : String
a_hash = "0123456789012345678901234567890123456789012345678901234567890123"

-- The upload is cancelled and retried while it is prepared; then the preparation fails.
abbrev overtaken : List SourceCall
overtaken =
    create true an_upload 1
    ∷ uploads "s1" "s1/source.bin" 9 a_hash 2
    ∷ processes "s1" 3
    ∷ cancels "s1" 4
    ∷ retries (λ id. false) "s1" 5
    ∷ records "s1" "source_prepare_failed" "Source preparation failed. Try again." false 6
    ∷ []

abbrev stranded : SourceAsset
stranded = record {
  project_id = "p1";
  origin = upload;
  status = failed;
  display_title = "A song";
  preferred_remix_backend = none;
  youtube_url = none;
  youtube_video_id = none;
  original_filename = some "song.wav";
  declared_byte_size = some 9;
  raw_relative_path = none;
  raw_byte_size = none;
  raw_sha256 = none;
  canonical_byte_size = none;
  canonical_sha256 = none;
  duration_seconds = none;
  rights_confirmation_at = 1;
  error_code = some "source_prepare_failed";
  user_facing_error = some "Source preparation failed. Try again.";
  attempt_count = 1;
  next_attempt_at = some 5000006;
  started_at = some 3;
  completed_at = none;
  created_at = 1;
  updated_at = 6;
}

abbrev after_overtaken : Ingest
after_overtaken = run_calls a_library transfers overtaken empty_store

overtaken_is_stranded : lookup "s1" after_overtaken.sources ≡ some stranded
unfolding run_calls run_call create_source_asset with_origin add_source satisfies put require_source
    source_uuid prepare_row mark_source_uploaded retry_source_asset process_source
    record_source_failure cancel_source lookup insert update find_row map_rows
    normalize_relative_path validate_sha256 has_code has_parent parts_of segments join
    Capabilities.revoke_asset_transfers Capabilities.canonical Capabilities.asset_uuid
overtaken_is_stranded = refl

stranded-IsStranded : IsStranded 5000006 stranded
stranded-IsStranded = record {
  is_failed = refl;
  is_uploaded = refl;
  bare = refl;
  due = λ now h. ground arith;
}

stranded_source_stays_example :
    run_rounds a_library transfers "s1" (5000006 ∷ 9000000 ∷ []) after_overtaken
    ≡ (refusal ∷ refusal ∷ [], after_overtaken)
stranded_source_stays_example =
    stranded_source_stays a_library transfers "s1" "s1" refl 5000006 stranded after_overtaken
      (5000006 ∷ 9000000 ∷ []) overtaken_is_stranded stranded-IsStranded refl

sources-SoundSources_example : SoundSources after_overtaken.sources
sources-SoundSources_example = sources-SoundSources a_library transfers overtaken empty_store refl

abbrev a_publication : Publication
a_publication = record { title = none; duration = some 180; byte_size = 7; sha256 = a_hash }

abbrev a_receipt : Receipt
a_receipt = record {
  byte_size = some 7;
  sha256 = some a_hash;
  relative_path = "sources/s1/source.mp3";
}

abbrev published : Ingest
published =
    run_calls a_library transfers
      (create true an_upload 1
        ∷ uploads "s1" "s1/source.bin" 9 a_hash 2
        ∷ processes "s1" 3
        ∷ publishes "s1" 100 (some a_receipt) true false a_publication 4
        ∷ [])
      empty_store

abbrev ready_row : SourceAsset
ready_row = record stranded {
  status = ready;
  raw_relative_path = some "s1/source.bin";
  raw_byte_size = some 9;
  raw_sha256 = some a_hash;
  canonical_byte_size = some 7;
  canonical_sha256 = some a_hash;
  duration_seconds = some 180;
  error_code = none;
  user_facing_error = none;
  next_attempt_at = none;
  completed_at = some 4;
  updated_at = 4;
}

published_is_ready : lookup "s1" published.sources ≡ some ready_row
unfolding run_calls run_call create_source_asset with_origin add_source satisfies put require_source
    source_uuid prepare_row mark_source_uploaded process_source publish_ready_source lookup insert
    update find_row normalize_relative_path validate_sha256 has_code has_parent parts_of segments
    join
published_is_ready = refl

ready_source_is_final_example :
    (row : SourceAsset) × (lookup "s1"
        (run_calls a_library transfers (fails "s1" "code" "text" none 9 ∷ []) published).sources
      ≡ some row)
    × (is_ready row.status ≡ true)
ready_source_is_final_example =
    ready_source_is_final a_library transfers (fails "s1" "code" "text" none 9 ∷ []) "s1" published
      ready_row (sources-SoundSources a_library transfers _ empty_store refl) published_is_ready
      refl
