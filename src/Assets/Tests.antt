-- ===== src/Assets/Tests.antt =====
-- Runs of the calls of src/ace_service/repository.py on a small table of asset capabilities.
use audio_ventura.Base.{
  ◌+◌, ◌≤◌, ◌≡◌, refl, true, false, none, some, List, [], ◌∷◌, String, ok, err, lookup, insert,
  find_row, string_eq, nat_eq, arith,
}
use audio_ventura.Errors.{Failure}
use audio_ventura.Paths.{
  normalize_relative_path, normalize_extension, validate_sha256, has_code, has_parent, parts_of,
  segments, is_extension, join,
}
use audio_ventura.Assets.Policy.{browser_source_upload, home_source_download, AssetTransferPurpose}
use audio_ventura.Assets.Capabilities.{
  Library, completed, issue_asset_transfer_capability, misplaced, complete_asset_upload,
}
use audio_ventura.Assets.Rows.{
  AssetTransferCapability, OtherTables, AssetRequest, capability_of, add_capability,
}
use audio_ventura.Assets.Calls.{AssetCall, issue_asset, claim, run_call, run_calls}
use audio_ventura.Assets.Retry.{completed_again, completed_conflict}
use audio_ventura.Assets.Opens.{opens, all_allow, opens_bounded}

abbrev a_library : Library
a_library = record { sha256 = λ s. s; strip = λ s. s; lower = λ s. s; uuid = λ s. some s }

abbrev the_tables : OtherTables
the_tables = record {
  has_source_asset = λ id. true;
  has_job = λ id. false;
  derivative_task = λ id. none;
}

abbrev a_request : AssetTransferPurpose → AssetRequest
a_request purpose = record {
  purpose = purpose;
  expected_relative_path = "s1/source.bin";
  expected_extension = ".bin";
  max_bytes = 1000;
  expires_at = 90;
  owner = record { source_asset_id = some "s1"; job_id = none; derivative_task_id = none };
  expected_mime_type = none;
  expected_byte_size = none;
  expected_sha256 = none;
  token = some "secret";
  fresh_token = "fresh";
  capability_id = "c1";
}

abbrev a_capability : AssetTransferPurpose → AssetTransferCapability
a_capability purpose =
    capability_of (a_request purpose) "secret" "s1/source.bin" ".bin" (some "s1") none

abbrev an_issue : AssetTransferPurpose → List AssetCall
an_issue purpose = issue_asset the_tables (a_request purpose) ∷ []

abbrev a_hash : String
a_hash = "0123456789abcdef0123456789abcdef0123456789abcdef0123456789abcdef"

abbrev another_hash : String
another_hash = "1123456789abcdef0123456789abcdef0123456789abcdef0123456789abcdef"

issued_download :
    lookup "c1" (run_calls a_library (an_issue home_source_download) [])
    ≡ some (a_capability home_source_download)
unfolding run_calls run_call issue_asset_transfer_capability add_capability normalize_relative_path
    normalize_extension find_row lookup insert has_code has_parent parts_of segments is_extension
    join misplaced
issued_download = refl

completion :
    (complete_asset_upload a_library "c1" 10 a_hash 50
      (run_calls a_library (an_issue browser_source_upload) [])).0
    ≡ ok (completed 10 a_hash 50 (a_capability browser_source_upload))
unfolding run_calls run_call issue_asset_transfer_capability add_capability normalize_relative_path
    normalize_extension find_row lookup insert has_code has_parent parts_of segments is_extension
    join misplaced complete_asset_upload validate_sha256
completion = refl

valid_hash : validate_sha256 a_library.lower another_hash ≡ ok another_hash
unfolding validate_sha256
valid_hash = refl

abbrev some_claims : List AssetCall
some_claims = claim "secret" 3 50 ∷ claim "secret" 2 51 ∷ claim "secret" 3 52 ∷ []

opens_bounded_example :
    0 + opens a_library "c1" some_claims (run_calls a_library (an_issue home_source_download) [])
    ≤ 3
unfolding all_allow
opens_bounded_example =
    opens_bounded a_library "c1" (an_issue home_source_download) (a_capability home_source_download)
      3 issued_download (omega arith) some_claims refl

completed_again_example :
    complete_asset_upload a_library "c1" 10 a_hash 60 (
      run_calls a_library some_claims
        (complete_asset_upload a_library "c1" 10 a_hash 50
          (run_calls a_library (an_issue browser_source_upload) [])).1)
    ≡ (
      ok (completed 10 a_hash 50 (a_capability browser_source_upload)),
      run_calls a_library some_claims
          (complete_asset_upload a_library "c1" 10 a_hash 50
            (run_calls a_library (an_issue browser_source_upload) [])).1,
    )
completed_again_example =
    completed_again a_library (an_issue browser_source_upload) "c1" 10 a_hash 50
      (completed 10 a_hash 50 (a_capability browser_source_upload)) completion some_claims 60

completed_conflict_example :
    (x : Failure) × (complete_asset_upload a_library "c1" 11 another_hash 60 (
        run_calls a_library some_claims
          (complete_asset_upload a_library "c1" 10 a_hash 50
            (run_calls a_library (an_issue browser_source_upload) [])).1)
      ≡ (
        err x,
        run_calls a_library some_claims
            (complete_asset_upload a_library "c1" 10 a_hash 50
              (run_calls a_library (an_issue browser_source_upload) [])).1,
      ))
completed_conflict_example =
    completed_conflict a_library (an_issue browser_source_upload) "c1" 10 a_hash 50
      (completed 10 a_hash 50 (a_capability browser_source_upload)) completion some_claims 60 11
      another_hash another_hash valid_hash refl
