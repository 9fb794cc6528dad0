-- ===== src/Derivatives/Tests.antt =====
-- Runs of the derivative tasks of src/ace_service/repository.py.
use audio_ventura.Base.{
  ◌≡◌, refl, true, none, some, List, [], ◌∷◌, String, lookup, insert, update, find_row, string_eq,
}
use audio_ventura.Derivatives.{
  MediaDerivativeTask, SourceFile, new_task, failed_task, create_derivative_task, insert_task,
  fail_derivative_task,
}
use audio_ventura.Derivatives.Calls.{TaskCall, create, fail, run_call, run_calls}
use audio_ventura.Derivatives.Single.{one_task_per_item}

abbrev a_file : SourceFile
a_file = record { media_item_id = "m1"; is_lossless = true }

abbrev the_calls : List TaskCall
the_calls =
    create true (some a_file) "m1" 7 "d1" 5
    ∷ create true (some a_file) "m1" 7 "d2" 6
    ∷ fail "d1" "code" "text" none 8
    ∷ []

abbrev the_task : MediaDerivativeTask
the_task = failed_task "code" "text" none 8 (new_task "m1" 7 5)

the_row : lookup "d1" (run_calls (λ s. some s) (λ n s. s) the_calls []) ≡ some the_task
unfolding run_calls run_call create_derivative_task find_row insert_task lookup insert
    fail_derivative_task update
the_row = refl

no_second : lookup "d2" (run_calls (λ s. some s) (λ n s. s) the_calls []) ≡ none
unfolding run_calls run_call create_derivative_task find_row insert_task lookup insert
    fail_derivative_task update
no_second = refl

abbrev first_id : String
first_id = "d1"

one_task_per_item_example : first_id ≡ first_id
one_task_per_item_example =
    one_task_per_item (λ s. some s) (λ n s. s) the_calls first_id first_id the_task the_task the_row
      the_row refl
