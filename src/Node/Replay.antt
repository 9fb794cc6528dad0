-- ===== src/Node/Replay.antt =====
-- A submission that comes again to `NodeDatabase.submit` of src/ace_node/db.py.
use audio_ventura.Base.{
  ℕ, ◌≡◌, inl, inr, refl, ap, subst, sym, ◌∙◌, Bool, true, false, not, ◌&&◌, Option, none, some,
  List, [], String, Result, ok, err, arith, lookup, insert, unique, unique-insert, ◌==◌, string_eq,
  nat_eq, if◌then◌else◌, Bool-cases, Option-cases, ◌>>=◌, pure, after, raised, returned,
  Result-cases,
}
use audio_ventura.Node.Values.{NodeFailure, submission_conflict, node_database_error}
use audio_ventura.Node.Database.{
  NodeRow, NodeJobs, NodeJob, Runtime, insert_row, new_row, breaks_constraint, row_to_job,
  answered_by, Call, select_job, get, find_nonce, is_identity, paired, submitted, submit,
  read_result,
}
use audio_ventura.Node.Calls.{NodeCall, run_calls, run_calls-Keeps}
use audio_ventura.Node.Bound.{
  IsBound, IsKeyed, IsKeyed-Kept, IsBound-Kept, find_nonce-insert_new, find_nonce-lookup, no_row,
}

-- The answer to a submission that is known, from what `get` says of the job.
abbrev pub resubmitted : Result NodeFailure (Option NodeJob) → Result NodeFailure (NodeJob × Bool)
resubmitted (ok (some job)) = ok (job, false)
resubmitted (ok none) = err (node_database_error "node submission was not recorded")
resubmitted (err e) = err e

abbrev conflict : NodeFailure
conflict = submission_conflict "submission nonce conflicts with immutable identity"

is_same_identity :
    (a : String) (i : ℕ) (row : NodeRow)
    → row.application_job_id ≡ a
    → row.variation_index ≡ i
    → is_identity a i row ≡ true
is_same_identity a i row h k = ground (arith, (string_eq.same_iff row.application_job_id a).1 h, k)

is_other_identity :
    (a : String) (i : ℕ) (row : NodeRow)
    → row.application_job_id ≡ a
    → row.variation_index ≡ i
    → (b : String) (j : ℕ) → (a == b && i == j) ≡ false
    → is_identity b j row ≡ false
is_other_identity a i row h k b j d = rw (h, k) d

empty-IsKeyed : IsKeyed []
unfolding unique
empty-IsKeyed = refl

module _ (p : Runtime) where
  submit-known :
      (a : String) (i : ℕ) (n id' : String) (now : ℕ) (t : NodeJobs) (id : String) (row : NodeRow)
      → find_nonce n t ≡ some (id, row)
      → submit p a i n id' now t ≡ (
        if not (is_identity a i row) then err conflict else paired false (row_to_job p id row),
        t,
      )
  unfolding submit submitted
  submit-known a i n id' now t id row e = elim (Bool-cases (is_identity a i row)) [
    | inl b ↦ rw (e, b, submitted) refl
    | inr b ↦ rw (e, b, submitted) refl
  ]

  get-known :
      (id : String) (t : NodeJobs) (row : NodeRow)
      → lookup id t ≡ some row
      → paired false (row_to_job p id row) ≡ resubmitted (get p id t).0
  unfolding get
  get-known id t row e = elim (Result-cases (row_to_job p id row)) [
    | inl (job, r) ↦ rw (e, r, get) refl
    | inr (x, r) ↦ rw (e, r, get) refl
  ]

  row_to_job-id :
      (id : String) (row : NodeRow) (job : NodeJob) → row_to_job p id row ≡ ok job → job.job_id ≡ id
  unfolding row_to_job
  row_to_job-id id row job h = elim (Result-cases (read_result p row.result_json)) [
    | inl (v, r) ↦ sym (ap (λ j. j.job_id) (returned refl (rw (r, row_to_job) at h)))
    | inr (x, r) ↦ raised refl (rw (r, row_to_job) at h)
  ]

  answered-id :
      (message id : String) (o : Option NodeRow) (job : NodeJob)
      → answered_by message (row_to_job p id) o ≡ ok job
      → job.job_id ≡ id
  answered-id message id none job h = raised refl h
  answered-id message id (some row) job h = row_to_job-id id row job h

  module _ (a : String) (i : ℕ) (n id : String) (now : ℕ) (t : NodeJobs) (keyed : IsKeyed t) where
    -- The rest of a submission behind the insertion of its row.
    abbrev answered_new : Call (NodeJob × Bool)
    answered_new = select_job p "node submission was not recorded" id >>= (λ job. pure (job, true))

    behind-answer :
        (r : Result NodeFailure NodeJob) (u : NodeJobs) (job : NodeJob) (created : Bool)
        → (after {B = NodeJob × Bool} (λ j. pure (j, true)) (r, u)).0 ≡ ok (job, created)
        → (r ≡ ok job) × ((after {B = NodeJob × Bool} (λ j. pure (j, true)) (r, u)).1 ≡ u)
    behind-answer (ok j) u job created h = (ap ok (ap (λ x. x.0) (returned refl h)), refl)
    behind-answer (err e) u job created h = raised refl h

    answered_new-id :
        (u : NodeJobs) (job : NodeJob) (created : Bool)
        → (answered_new u).0 ≡ ok (job, created)
        → (job.job_id ≡ id) × ((answered_new u).1 ≡ u)
    unfolding select_job
    answered_new-id u job created h =
        let r = answered_by "node submission was not recorded" (row_to_job p id) (lookup id u) in
        let (e, w) = behind-answer r u job created h in
        (answered-id "node submission was not recorded" id (lookup id u) job e, w)

    paired-id :
        (r : Result NodeFailure NodeJob) (b : Bool) (j : NodeJob) (c : Bool) (k : String)
        → paired b r ≡ ok (j, c)
        → ((x : NodeJob) → r ≡ ok x → x.job_id ≡ k)
        → j.job_id ≡ k
    paired-id (ok x) b j c k h g =
        subst (λ y. y.job_id ≡ k) (ap (λ y. y.0) (returned refl h)) (g x refl)
    paired-id (err e) b j c k h g = raised refl h

    IsBound-known :
        (k : String) (row : NodeRow) (job : NodeJob) (created : Bool)
        → find_nonce n t ≡ some (k, row)
        → (if not (is_identity a i row) then err conflict else paired false (row_to_job p k row))
          ≡ ok (job, created)
        → IsBound n job.job_id a i t
    IsBound-known k row job created e h = elim (Bool-cases (is_identity a i row)) [
      | inr b ↦ raised refl (rw b at h)
      | inl b ↦
          subst (λ j. IsBound n j a i t)
            (sym (
              paired-id (row_to_job p k row) false job created k (rw b at h) (row_to_job-id k row)))
            (record {
              row = row;
              found = e;
              application = (string_eq.same_iff row.application_job_id a).0 (ground (arith, b));
              index = ground (arith, b);
              keyed = keyed;
            })
    ]

    inserted-IsBound :
        breaks_constraint id i t ≡ false
        → find_nonce n t ≡ none
        → IsBound n id a i (insert id (new_row a i n now) t)
    inserted-IsBound b e = record {
      row = new_row a i n now;
      found = find_nonce-insert_new id (new_row a i n now) t e;
      application = refl;
      index = refl;
      keyed = unique-insert id (new_row a i n now) t keyed (no_row (lookup id t) _ b);
    }

    submit-new :
        find_nonce n t ≡ none
        → submit p a i n id now t ≡ after (λ _. answered_new) (insert_row id (new_row a i n now) t)
    unfolding submit submitted
    submit-new e = rw e refl

    insert_row-refused :
        breaks_constraint id i t ≡ true
        → insert_row id (new_row a i n now) t
          ≡ (err (node_database_error "node submission could not be recorded"), t)
    unfolding insert_row
    insert_row-refused b = rw b refl

    insert_row-inserted :
        breaks_constraint id i t ≡ false
        → insert_row id (new_row a i n now) t ≡ (ok tt, insert id (new_row a i n now) t)
    unfolding insert_row
    insert_row-inserted b = rw b refl

    submit-IsBound :
        (job : NodeJob) (created : Bool)
        → (submit p a i n id now t).0 ≡ ok (job, created)
        → IsBound n job.job_id a i (submit p a i n id now t).1
    submit-IsBound job created h = elim (Option-cases (find_nonce n t)) [
      | inr ((k, row), e) ↦
          let w = submit-known a i n id now t k row e in
          subst (λ y. IsBound n job.job_id a i y.1) (sym w)
            (IsBound-known k row job created e (subst (λ y. y.0 ≡ ok (job, created)) w h))
      | inl e ↦ elim (Bool-cases (breaks_constraint id i t)) [
        | inl b ↦
            raised
              (ap (λ y. y.0) (submit-new e ∙ ap (after (λ _. answered_new)) (insert_row-refused b)))
              h
        | inr b ↦
            let u = insert id (new_row a i n now) t in
            let w = submit-new e ∙ ap (after (λ _. answered_new)) (insert_row-inserted b) in
            let (j, v) = answered_new-id u job created (subst (λ y. y.0 ≡ ok (job, created)) w h) in
            subst (λ y. IsBound n job.job_id a i y.1) (sym w)
              (subst (λ x. IsBound n job.job_id a i x) (sym v)
                (subst (λ x. IsBound n x a i u) (sym j) (inserted-IsBound b e)))
      ]
    ]

  module _ (before : List NodeCall) (a : String) (i : ℕ) (n id : String) (now : ℕ) (job : NodeJob)
      (created : Bool)
      (returned_job : (submit p a i n id now (run_calls p before [])).0 ≡ ok (job, created))
      (cs : List NodeCall) where
    abbrev later_table : NodeJobs
    later_table = run_calls p cs (submit p a i n id now (run_calls p before [])).1

    later-IsBound : IsBound n job.job_id a i later_table
    later-IsBound =
        run_calls-Keeps p (IsBound-Kept p n job.job_id a i) cs
          (submit p a i n id now (run_calls p before [])).1
          (submit-IsBound a i n id now (run_calls p before [])
            (run_calls-Keeps p (IsKeyed-Kept p) before [] empty-IsKeyed) job created returned_job)

    again :
        (id' : String) (later : ℕ)
        → submit p a i n id' later later_table
          ≡ (resubmitted (get p job.job_id later_table).0, later_table)
    again id' later =
        let q = later-IsBound in
        let k = find_nonce-lookup n later_table job.job_id q.row q.keyed q.found in
        submit-known a i n id' later later_table job.job_id q.row q.found
        ∙ (rw (is_same_identity a i q.row q.application q.index) refl
            ∙ ap (λ y. (y, later_table)) (get-known job.job_id later_table q.row k))

    other :
        (b : String) (j : ℕ) (id' : String) (later : ℕ)
        → (a == b && i == j) ≡ false
        → submit p b j n id' later later_table ≡ (err conflict, later_table)
    other b j id' later d =
        let q = later-IsBound in
        submit-known b j n id' later later_table job.job_id q.row q.found
        ∙ rw (is_other_identity a i q.row q.application q.index b j d) refl

  -- After a submission returned, in whatever table the calls of `NodeCall` made, and whatever such calls
  -- follow: the same submission under another fresh job id writes nothing, and answers what `get` says
  -- of the first job, with `created` false.
  pub submitted_again :
      (before : List NodeCall) (a : String) (i : ℕ) (n id : String) (now : ℕ) (job : NodeJob)
      (created : Bool)
      → (submit p a i n id now (run_calls p before [])).0 ≡ ok (job, created)
      → (cs : List NodeCall) (id' : String) (later : ℕ)
      → submit p a i n id' later (run_calls p cs (submit p a i n id now (run_calls p before [])).1)
        ≡ (
          resubmitted
              (get p job.job_id
                (run_calls p cs (submit p a i n id now (run_calls p before [])).1)).0,
          run_calls p cs (submit p a i n id now (run_calls p before [])).1,
        )
  submitted_again before a i n id now job created h cs id' later =
      again before a i n id now job created h cs id' later

  -- After a submission returned, in whatever table the calls of `NodeCall` made, and whatever such calls
  -- follow: a submission of another job or variation under its nonce raises and writes nothing.
  pub nonce_conflict :
      (before : List NodeCall) (a : String) (i : ℕ) (n id : String) (now : ℕ) (job : NodeJob)
      (created : Bool)
      → (submit p a i n id now (run_calls p before [])).0 ≡ ok (job, created)
      → (cs : List NodeCall) (b : String) (j : ℕ) (id' : String) (later : ℕ)
      → (a == b && i == j) ≡ false
      → submit p b j n id' later (run_calls p cs (submit p a i n id now (run_calls p before [])).1)
        ≡ (
          err (submission_conflict "submission nonce conflicts with immutable identity"),
          run_calls p cs (submit p a i n id now (run_calls p before [])).1,
        )
  nonce_conflict before a i n id now job created h cs b j id' later d =
      other before a i n id now job created h cs b j id' later d
