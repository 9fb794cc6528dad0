-- ===== src/Node/Tests.antt =====
-- Runs of `NodeDatabase` of src/ace_node/db.py on small tables.
use audio_ventura.Base.{
  ℕ, ◌≡◌, ◌≤◌, refl, true, false, none, some, List, [], ◌∷◌, ok, err, lookup, update, insert,
  contains, string_eq, nat_eq, arith, if◌then◌else◌,
}
use audio_ventura.Node.Values.{
  submission_conflict, node_database_error, text_key, Value, integer, text, array, item, no_items,
  object, Members, member, no_members, is_sensitive, validate_durable_result, private_state,
}
use audio_ventura.Node.Privacy.{Within, IsPlain}
use audio_ventura.Node.Database.{
  queued, running, succeeded, is_terminal, NodeRow, NodeJobs, NodeJob, Runtime, new_row, recover,
  unfinished, failed_row, update_where, find_nonce, insert_row, row_to_job, read_result, select_job,
  submitted, submit, set_running, succeed, get,
}
use audio_ventura.Node.Calls.{
  NodeCall, submit_job, start_job, succeed_job, fail_job, recover_jobs, run_call, run_calls,
}
use audio_ventura.Node.Settled.{recover-unfinished, ended_node_job_is_final}
use audio_ventura.Node.Results.{stored_result-IsPlain, get-succeed}
use audio_ventura.Node.Replay.{resubmitted, submitted_again, nonce_conflict}

abbrev a_result : Members
a_result = member (text_key "seconds") (integer false 30) no_members

abbrev a_runtime : Runtime
a_runtime = record {
  strip = λ s. s;
  lower = λ s. s;
  dumps = λ v. "{\"seconds\":30}";
  loads = λ s. some (object a_result);
  utf8_size = λ s. 14;
}

valid_result : validate_durable_result a_runtime.lower 0 (object a_result) ≡ ok tt
unfolding validate_durable_result is_sensitive contains
valid_result = refl

leaking_result :
    validate_durable_result a_runtime.lower 0 (
      object (
        member
          (text_key "files")
          (array (item (object (member (text_key "audio_url") (text "x") no_members)) no_items))
          no_members))
    ≡ err (node_database_error private_state)
unfolding validate_durable_result is_sensitive contains
leaking_result = refl

abbrev queued_table : NodeJobs
queued_table = ("n1", new_row "j1" 2 "nonce" 5) ∷ []

abbrev running_row : NodeRow
running_row = record (new_row "j1" 2 "nonce" 5) { state = running; updated_at = 6 }

abbrev the_job : NodeJob
the_job = record {
  job_id = "n1";
  application_job_id = "j1";
  variation_index = 2;
  submission_nonce = "nonce";
  state = queued;
  error_code = none;
  result = none;
  created_at = 5;
  updated_at = 5;
}

first_submission :
    (submit a_runtime "j1" 2 "nonce" "n1" 5 (run_calls a_runtime [] [])).0 ≡ ok (the_job, true)
unfolding run_calls submit find_nonce submitted insert_row select_job row_to_job read_result lookup
    insert
first_submission = refl

abbrev run_to_the_end : List NodeCall
run_to_the_end =
    submit_job "j1" 2 "nonce" "n1" 5 ∷ start_job "n1" 6 ∷ succeed_job "n1" (object a_result) 7 ∷ []

abbrev done_row : NodeRow
done_row = record (new_row "j1" 2 "nonce" 5) {
  state = succeeded;
  result_json = some "{\"seconds\":30}";
  updated_at = 7;
}

done : lookup "n1" (run_calls a_runtime run_to_the_end []) ≡ some done_row
unfolding run_calls run_call submit find_nonce submitted insert_row select_job row_to_job
    read_result lookup insert set_running update_where update succeed validate_durable_result
    is_sensitive contains
done = refl

stored_result-IsPlain_example :
    (v : Value) × ("{\"seconds\":30}" ≡ a_runtime.dumps v)
    × (a_runtime.utf8_size "{\"seconds\":30}" ≤ 65536)
    × ((n : ℕ) (w : Value) → Within w n v → (n ≤ 6) × IsPlain a_runtime.lower w)
stored_result-IsPlain_example =
    stored_result-IsPlain a_runtime run_to_the_end "n1" done_row "{\"seconds\":30}" done refl

abbrev running_table : NodeJobs
running_table = ("n1", running_row) ∷ []

running_found : lookup "n1" running_table ≡ some running_row
unfolding lookup
running_found = refl

get-succeed_example :
    (job : NodeJob) × ((succeed a_runtime "n1" (object a_result) 7 running_table).0 ≡ ok job)
    × (job.result ≡ some (object a_result))
    × ((get a_runtime "n1" (
          run_calls a_runtime
            (fail_job "n1" "worker_timeout" 8 ∷ recover_jobs 9 ∷ [])
            (succeed a_runtime "n1" (object a_result) 7 running_table).1)).0
        ≡ ok (some job))
get-succeed_example =
    get-succeed a_runtime "n1" a_result 7 running_table running_row running_found refl valid_result
      (omega arith) refl (fail_job "n1" "worker_timeout" 8 ∷ recover_jobs 9 ∷ [])

abbrev later_calls : List NodeCall
later_calls = start_job "n1" 6 ∷ recover_jobs 7 ∷ []

submitted_again_example :
    submit a_runtime "j1" 2 "nonce" "n2" 8 (
      run_calls a_runtime later_calls
        (submit a_runtime "j1" 2 "nonce" "n1" 5 (run_calls a_runtime [] [])).1)
    ≡ (
      resubmitted
          (get a_runtime "n1" (
            run_calls a_runtime later_calls
              (submit a_runtime "j1" 2 "nonce" "n1" 5 (run_calls a_runtime [] [])).1)).0,
      run_calls a_runtime later_calls
          (submit a_runtime "j1" 2 "nonce" "n1" 5 (run_calls a_runtime [] [])).1,
    )
submitted_again_example =
    submitted_again a_runtime [] "j1" 2 "nonce" "n1" 5 the_job true first_submission later_calls
      "n2" 8

nonce_conflict_example :
    submit a_runtime "j1" 3 "nonce" "n2" 8 (
      run_calls a_runtime later_calls
        (submit a_runtime "j1" 2 "nonce" "n1" 5 (run_calls a_runtime [] [])).1)
    ≡ (
      err (submission_conflict "submission nonce conflicts with immutable identity"),
      run_calls a_runtime later_calls
          (submit a_runtime "j1" 2 "nonce" "n1" 5 (run_calls a_runtime [] [])).1,
    )
nonce_conflict_example =
    nonce_conflict a_runtime [] "j1" 2 "nonce" "n1" 5 the_job true first_submission later_calls "j1"
      3 "n2" 8 refl

ended_node_job_is_final_example :
    lookup "n1" (run_calls a_runtime later_calls (run_calls a_runtime run_to_the_end []))
    ≡ some done_row
ended_node_job_is_final_example =
    ended_node_job_is_final a_runtime "n1" done_row (run_calls a_runtime run_to_the_end []) done
      refl later_calls

recover-unfinished_example :
    (unfinished (recover 9 running_table).1 ≡ 0)
    × (lookup "n1" (recover 9 running_table).1
        ≡ some (
            if is_terminal running_row.state
            then running_row
            else failed_row "worker_restarted" 9 running_row))
recover-unfinished_example = recover-unfinished 9 running_table "n1" running_row running_found
