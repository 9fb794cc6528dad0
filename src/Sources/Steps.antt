-- ===== src/Sources/Steps.antt =====
-- Every call of src/ace_service/repository.py, src/ace_service/source_assets.py and src/ace_service/web.py on
-- one source asset makes at most one move.
use audio_ventura.Base.{
  ℕ, ◌≡◌, inl, inr, refl, sym, subst, Bool, true, false, not, ◌&&◌, ◌||◌, Option, none, some,
  String, ◌==◌, nat_eq, string_eq, is_empty, longer_than, ltb, if◌then◌else◌, ok, err, pure, ◌>>=◌,
  ◌>>◌, Option-cases, after,
}
use audio_ventura.Errors.{value_error}
use audio_ventura.Paths.{normalize_relative_path, validate_sha256}
use audio_ventura.Paths.Safe.{normalize_relative_path-IsNormal}
use audio_ventura.Assets.Capabilities
use audio_ventura.Sources.{
  Library, source_uuid, prepare_row, mark_source_uploaded, mark_source_preparing, fail_source_asset,
  retry_source_asset,
}
use audio_ventura.Sources.Rows.{
  SourceAssetStatus, awaiting_upload, uploaded, queued, preparing, ready, failed, cancelled,
  SourceAsset, Ingest, Call, is_upload, is_ready, accepts_upload, may_prepare, may_retry, put,
  preparing_source, restarted,
}
use audio_ventura.Sources.Work.{
  is_cancelled, cancelled_source, without_file, Receipt, Publication, may_publish, is_due,
  process_row, process_found, process_source, revoke, failure_found, record_source_failure,
  cancel_row, cancel_source, publish_row, publish_ready_source, measured, check_receipt,
  clean_title, retry_after,
}
use audio_ventura.Sources.Moves.{
  Does, Does-if, Does-lifted, Does-pure, Does-raise, Does-raise_if, Does-then, Moves, Reads, Steps,
  Stepwise, found-Does, put-Does, require-Does, stays, to_uploaded, to_preparing, to_failed,
  to_restarted, to_prepared_again, to_cancelled, to_ready,
}

module _ (p : Library) where
  source_uuid-none :
      (v : String) (s : Ingest)
      → p.uuid v ≡ none
      → source_uuid p v s ≡ (err (value_error "asset identity must be a UUID"), s)
  unfolding source_uuid
  source_uuid-none v s n = rw n refl

  source_uuid-some :
      (v : String) (s : Ingest) (id : String) → p.uuid v ≡ some id → source_uuid p v s ≡ (ok id, s)
  unfolding source_uuid
  source_uuid-some v s id e = rw e refl

  -- Behind the check of the id.
  named :
      (source_id : String) {A : Type 0} {f : String → Call A}
      → ((id : String) → Does id (λ s. Unit) (f id))
      → Stepwise (source_uuid p source_id >>= f)
  named source_id {f = f} h = record {
    steps = λ s. elim (Option-cases (p.uuid source_id)) [
      | inl n ↦ (
        source_id,
        subst (λ r. Steps source_id s (after f r).1) (sym (source_uuid-none source_id s n))
            (stays s refl),
      )
      | inr (id, e) ↦ (
        id,
        subst (λ r. Steps id s (after f r).1) (sym (source_uuid-some source_id s id e))
            ((h id).does s tt),
      )
    ];
  }

  holds_if_not : (b : Bool) → not b ≡ false → b ≡ true
  holds_if_not true e = refl
  holds_if_not false e = cc

  pub uploaded-Stepwise :
      (source_id path : String) (size : ℕ) (sha256 : String) (now : ℕ)
      → Stepwise (mark_source_uploaded p source_id path size sha256 now)
  unfolding mark_source_uploaded
  uploaded-Stepwise source_id path size sha256 now = named source_id (λ id. require-Does id (λ a.
      Does-raise_if id (not (is_upload a.origin))
        (value_error "only direct uploads have a raw upload handoff")
        (λ _.
          Does-raise_if id (not (accepts_upload a.status))
            (value_error "source asset is not accepting an upload")
            (λ _. Does-lifted id (normalize_relative_path path) (λ raw n.
              Does-raise_if id (size == 0) (value_error "raw byte size must be positive") (λ _.
                Does-lifted id (validate_sha256 p.lower sha256) (λ hash _. put-Does id a _ (
                  to_uploaded raw size hash now
                    (normalize_relative_path-IsNormal path raw n)))))))))

  prepare_row-Does :
      (id : String) (now : ℕ) (a b : SourceAsset)
      → (may_prepare b.status ≡ true → Moves a (preparing_source now b))
      → Does id (Reads id a) (prepare_row p id now b)
  unfolding prepare_row
  prepare_row-Does id now a b h =
      Does-raise_if id (not (may_prepare b.status))
        (value_error "source asset is not queued for preparation")
        (λ e. put-Does id a _ (h (holds_if_not (may_prepare b.status) e)))

  pub preparing-Stepwise :
      (source_id : String) (now : ℕ) → Stepwise (mark_source_preparing p source_id now)
  unfolding mark_source_preparing
  preparing-Stepwise source_id now =
      named source_id (λ id. require-Does id (λ a. prepare_row-Does id now a a (to_preparing now)))

  pub failed-Stepwise :
      (source_id code error : String) (retry_at : Option ℕ) (now : ℕ)
      → Stepwise (fail_source_asset p source_id code error retry_at now)
  unfolding fail_source_asset
  failed-Stepwise source_id code error retry_at now = named source_id (λ id. require-Does id (λ a.
      Does-raise_if id (is_empty code || longer_than code 64 || is_empty error)
        (value_error "source failure details are invalid")
        (λ _. put-Does id a _ (to_failed (p.cut 64 code) (p.cut 500 error) retry_at now))))

  pub retried-Stepwise :
      (is_used : String → Bool) (source_id : String) (now : ℕ)
      → Stepwise (retry_source_asset p is_used source_id now)
  unfolding retry_source_asset
  retried-Stepwise is_used source_id now = named source_id (λ id. require-Does id (λ a.
      Does-raise_if id (not (may_retry a.status))
        (value_error "only terminal source failures can be retried")
        (λ e.
          Does-raise_if id (is_used id) (value_error "source is referenced by a nonterminal job")
            (λ _. put-Does id a _ (to_restarted now (holds_if_not (may_retry a.status) e))))))

  module _ (q : Capabilities.Library) where
    process-Does :
        (id : String) (now : ℕ) (a : SourceAsset) (status : SourceAssetStatus)
        → Does id (Reads id a) (process_row p q id now status a)
    process-Does id now a awaiting_upload = Does-pure id false
    process-Does id now a ready = Does-pure id false
    process-Does id now a cancelled = Does-pure id false
    process-Does id now a failed =
        Does-if id (is_due now a.next_attempt_at)
          (λ _.
            Does-then id (pure true)
              (prepare_row-Does id now a (record a { status = restarted a })
                (to_prepared_again now))
              (λ s. refl))
          (λ _. Does-pure id false)
    process-Does id now a uploaded =
        Does-then id (pure true) (prepare_row-Does id now a a (to_preparing now)) (λ s. refl)
    process-Does id now a queued =
        Does-then id (pure true) (prepare_row-Does id now a a (to_preparing now)) (λ s. refl)
    process-Does id now a preparing =
        Does-then id (pure true) (prepare_row-Does id now a a (to_preparing now)) (λ s. refl)

    pub process-Stepwise :
        (source_id : String) (now : ℕ) → Stepwise (process_source p q source_id now)
    unfolding process_source
    process-Stepwise source_id now = named source_id (λ id.
        found-Does id (process_found p q id now) (Does-pure id false)
          (λ a. process-Does id now a a.status))

    pub failure-Stepwise :
        (source_id code message : String) (permanent : Bool) (now : ℕ)
        → Stepwise (record_source_failure p q source_id code message permanent now)
    unfolding record_source_failure
    failure-Stepwise source_id code message permanent now = named source_id (λ id.
        found-Does id (failure_found p q source_id id code message permanent now) (Does-pure id tt)
          (λ a.
            Does-if id (is_ready a.status || is_cancelled a.status) (λ _. Does-pure id tt)
              (λ _.
                Does-then id (revoke p q source_id now)
                  (put-Does id a _ (
                    to_failed (p.cut 64 code) (p.cut 500 message)
                      (if permanent then none else some (retry_after a.attempt_count now)) now))
                  (λ s. refl))))

    cancels :
        (id : String) (now : ℕ) (a : SourceAsset)
        → Does id (Reads id a) (
            put id (
              without_file
                (cancelled_source "upload_cancelled" "This source upload was cancelled." now a))
            >> revoke p q id now)
    cancels id now a =
        Does-then id (revoke p q id now) (put-Does id a _ (to_cancelled _ _ now)) (λ s. refl)

    cancel-Does :
        (id : String) (now : ℕ) (a : SourceAsset) (status : SourceAssetStatus)
        → Does id (Reads id a) (cancel_row p q id now status a)
    cancel-Does id now a ready = Does-raise id _
    cancel-Does id now a failed = Does-pure id tt
    cancel-Does id now a cancelled = Does-pure id tt
    cancel-Does id now a awaiting_upload = cancels id now a
    cancel-Does id now a uploaded = cancels id now a
    cancel-Does id now a queued = cancels id now a
    cancel-Does id now a preparing = cancels id now a

    pub cancel-Stepwise :
        (source_id : String) (now : ℕ) → Stepwise (cancel_source p q source_id now)
    unfolding cancel_source
    cancel-Stepwise source_id now =
        named source_id (λ id. require-Does id (λ a. cancel-Does id now a a.status))

    publish-Does :
        (id : String) (max_bytes : ℕ) (receipt : Option Receipt) (is_safe : Bool) (b : Publication)
        (now : ℕ) (a : SourceAsset)
        → Does id (Reads id a) (publish_row p q id max_bytes receipt is_safe b now a)
    publish-Does id max_bytes receipt is_safe b now a =
        Does-raise_if id (not (may_publish a.status))
          (value_error "source asset is not being published")
          (λ e. Does-lifted id (measured b.duration) (λ duration _.
            Does-raise_if id (b.byte_size == 0 || ltb max_bytes b.byte_size)
              (value_error "canonical source size is invalid")
              (λ _. Does-lifted id (validate_sha256 p.lower b.sha256) (λ digest _.
                Does-lifted id (check_receipt id b digest receipt) (λ _ _.
                  Does-raise_if id (not is_safe)
                    (value_error "the canonical file is missing or differs")
                    (λ _.
                      Does-raise_if id
                        (is_empty (clean_title p q b a) || longer_than (clean_title p q b a) 300)
                        (value_error "source title is invalid")
                        (λ _. put-Does id a _ (
                          to_ready (clean_title p q b a) b.byte_size digest duration now
                            (holds_if_not (may_publish a.status) e)))))))))

    pub publish-Stepwise :
        (source_id : String) (max_bytes : ℕ) (receipt : Option Receipt) (is_safe has_item : Bool)
        (b : Publication) (now : ℕ)
        → Stepwise (publish_ready_source p q source_id max_bytes receipt is_safe has_item b now)
    unfolding publish_ready_source
    publish-Stepwise source_id max_bytes receipt is_safe has_item b now = named source_id (λ id.
        require-Does id (λ a.
          Does-raise_if id (is_cancelled a.status) (value_error "source asset was cancelled") (λ _.
            Does-if id (is_ready a.status && has_item) (λ _. Does-pure id tt)
              (λ _. publish-Does id max_bytes receipt is_safe b now a))))
