-- ===== src/Transfers/Tests.antt =====
-- Runs of the calls of src/ace_service/repository.py on a small table of capabilities.
use audio_ventura.Base.{
  ◌≡◌, refl, none, List, [], ◌∷◌, String, some, ok, err, lookup, update, insert, nat_eq, string_eq,
}
use audio_ventura.Errors.{Failure, value_error}
use audio_ventura.Paths.{
  normalize_relative_path, normalize_extension, has_code, has_parent, parts_of, segments,
  is_extension, join,
}
use audio_ventura.Transfers.{
  TransferCapability, Transfers, output_upload, IssueRequest, capability_of,
  issue_transfer_capability, get_active_transfer, consume_transfer, token_sha256, add_capability,
  find_hash, active_or_expired, require_transfer,
}
use audio_ventura.Transfers.Calls.{TransferCall, run_call, run_calls}
use audio_ventura.Transfers.Spent.{consumed_once}
use audio_ventura.Transfers.Active.{IsActive, get_active_transfer-consume}

abbrev same : String → String
same s = s

abbrev a_request : IssueRequest
a_request = record {
  job_id = "j1";
  direction = output_upload;
  expected_relative_path = "j1/1.flac";
  expected_extension = ".flac";
  max_bytes = 1000;
  expires_at = 90;
  token = none;
  fresh_token = "secret";
  capability_id = "t1";
}

abbrev the_capability : TransferCapability
the_capability = capability_of a_request "secret" "j1/1.flac" ".flac"

abbrev the_calls : List TransferCall
the_calls = TransferCall.issue a_request ∷ []

abbrev the_table : Transfers
the_table = ("t1", the_capability) ∷ []

issued_row : run_calls same same same the_calls [] ≡ the_table
unfolding run_calls run_call issue_transfer_capability token_sha256 add_capability
    normalize_relative_path normalize_extension find_hash lookup insert has_code has_parent parts_of
    segments is_extension join
issued_row = refl

late_consumption :
    (consume_transfer "t1" 90 the_table).0 ≡ err (value_error "transfer capability has expired")
unfolding consume_transfer require_transfer lookup update
late_consumption = refl

consumption : (consume_transfer "t1" 50 the_table).0 ≡ ok tt
unfolding consume_transfer require_transfer lookup update
consumption = refl

found :
    (get_active_transfer same same same "secret" 50 (run_calls same same same the_calls [])).0
    ≡ ok (some ("t1", the_capability))
unfolding run_calls run_call issue_transfer_capability token_sha256 add_capability
    normalize_relative_path normalize_extension find_hash lookup insert get_active_transfer
    active_or_expired has_code has_parent parts_of segments is_extension join
found = refl

consumed_once_example :
    (x : Failure) × (consume_transfer "t1" 60
        (run_calls same same same the_calls (consume_transfer "t1" 50 the_table).1)
      ≡ (err x, run_calls same same same the_calls (consume_transfer "t1" 50 the_table).1))
consumed_once_example = consumed_once same same same "t1" 50 the_table consumption the_calls 60

get_active_transfer-consume_example :
    IsActive (same "secret") "t1" the_capability 50
    × ((get_active_transfer same same same "secret" 50 (run_calls same same same the_calls [])).1
        ≡ run_calls same same same the_calls [])
    × ((consume_transfer "t1" 50 (run_calls same same same the_calls [])).0 ≡ ok tt)
get_active_transfer-consume_example =
    get_active_transfer-consume same same same the_calls "secret" 50 "t1" the_capability found
