-- ===== src/Sources/Calls.antt =====
-- Sequences of the calls of src/ace_service/repository.py, src/ace_service/source_assets.py and
-- src/ace_service/web.py on source assets, each in a transaction of its own.
use audio_ventura.Base.{
  ℕ, inl, inr, Bool, Option, List, [], ◌∷◌, String, ok, err, string_eq, Result-cases, Table,
  map_rows,
}
use audio_ventura.Assets.Capabilities
use audio_ventura.Sources.{
  Library, mark_source_uploaded, mark_source_preparing, fail_source_asset, retry_source_asset,
}
use audio_ventura.Sources.Creation.{NewSource, create_source_asset}
use audio_ventura.Sources.Rows.{SourceAsset, Ingest, Call}
use audio_ventura.Sources.Work.{
  Receipt, Publication, recover, recovered, process_source, record_source_failure, cancel_source,
  publish_ready_source,
}
use audio_ventura.Sources.Moves.{Steps, Stepwise}
use audio_ventura.Sources.Steps.{
  uploaded-Stepwise, preparing-Stepwise, failed-Stepwise, retried-Stepwise, process-Stepwise,
  failure-Stepwise, cancel-Stepwise, publish-Stepwise,
}

pub data SourceCall : Type 0 where
  create : Bool → NewSource → ℕ → SourceCall
  uploads : String → String → ℕ → String → ℕ → SourceCall
  prepares : String → ℕ → SourceCall
  fails : String → String → String → Option ℕ → ℕ → SourceCall
  retries : (String → Bool) → String → ℕ → SourceCall
  recovers : ℕ → SourceCall
  processes : String → ℕ → SourceCall
  records : String → String → String → Bool → ℕ → SourceCall
  cancels : String → ℕ → SourceCall
  publishes : String → ℕ → Option Receipt → Bool → Bool → Publication → ℕ → SourceCall

-- A session that a call leaves by an exception writes nothing.
abbrev pub transaction : {A : Type 0} → Call A → Ingest → Ingest
transaction m s = elim (m s).0 [ ok a ↦ (m s).1 | err e ↦ s ]

module _ (p : Library) (q : Capabilities.Library) where
  unfoldable pub run_call : SourceCall → Ingest → Ingest
  run_call (create has_project r now) = transaction (create_source_asset p has_project r now)
  run_call (uploads id path size sha256 now) =
      transaction (mark_source_uploaded p id path size sha256 now)
  run_call (prepares id now) = transaction (mark_source_preparing p id now)
  run_call (fails id code error retry_at now) =
      transaction (fail_source_asset p id code error retry_at now)
  run_call (retries is_used id now) = transaction (retry_source_asset p is_used id now)
  run_call (recovers now) = transaction (recover now)
  run_call (processes id now) = transaction (process_source p q id now)
  run_call (records id code message permanent now) =
      transaction (record_source_failure p q id code message permanent now)
  run_call (cancels id now) = transaction (cancel_source p q id now)
  run_call (publishes id max_bytes receipt is_safe has_item b now) =
      transaction (publish_ready_source p q id max_bytes receipt is_safe has_item b now)

  unfoldable pub run_calls : List SourceCall → Ingest → Ingest
  run_calls [] s = s
  run_calls (c ∷ cs) s = run_calls cs (run_call c s)

-- What a predicate of the sources must survive.
pub record Kept (P : Table String SourceAsset → Type 0) : Type 0 where
  pub by_step : (id : String) (s s' : Ingest) → Steps id s s' → P s.sources → P s'.sources
  pub by_recovery :
      (now : ℕ) (t : Table String SourceAsset)
      → P t
      → P (map_rows (λ a. recovered now a.status a) t)
  pub by_creation :
      (p : Library) (has_project : Bool) (r : NewSource) (now : ℕ) (s : Ingest)
      → P s.sources
      → P (create_source_asset p has_project r now s).1.sources

module _ {P : Table String SourceAsset → Type 0} (k : Kept P) where
  transaction-kept :
      {A : Type 0} (m : Call A) (s : Ingest)
      → (P s.sources → P (m s).1.sources)
      → P s.sources
      → P (transaction m s).sources
  transaction-kept m s h q = elim (Result-cases (m s).0) [
    | inl (a, e) ↦ rw (e, transaction) (h q)
    | inr (x, e) ↦ rw (e, transaction) q
  ]

  step_kept :
      {A : Type 0} (m : Call A) (s : Ingest)
      → Stepwise m
      → P s.sources
      → P (transaction m s).sources
  step_kept m s w = transaction-kept m s (k.by_step (w.steps s).0 s (m s).1 (w.steps s).1)

  recover_kept : (now : ℕ) (s : Ingest) → P s.sources → P (recover now s).1.sources
  unfolding recover
  recover_kept now s h = k.by_recovery now s.sources h

  module _ (p : Library) (q : Capabilities.Library) where
    run_call-kept : (c : SourceCall) (s : Ingest) → P s.sources → P (run_call p q c s).sources
    unfolding run_call
    run_call-kept (create has_project r now) s =
        transaction-kept (create_source_asset p has_project r now) s
          (k.by_creation p has_project r now s)
    run_call-kept (uploads id path size sha256 now) s =
        step_kept (mark_source_uploaded p id path size sha256 now) s
          (uploaded-Stepwise p id path size sha256 now)
    run_call-kept (prepares id now) s =
        step_kept (mark_source_preparing p id now) s (preparing-Stepwise p id now)
    run_call-kept (fails id code error retry_at now) s =
        step_kept (fail_source_asset p id code error retry_at now) s
          (failed-Stepwise p id code error retry_at now)
    run_call-kept (retries is_used id now) s =
        step_kept (retry_source_asset p is_used id now) s (retried-Stepwise p is_used id now)
    run_call-kept (recovers now) s = transaction-kept (recover now) s (recover_kept now s)
    run_call-kept (processes id now) s =
        step_kept (process_source p q id now) s (process-Stepwise p q id now)
    run_call-kept (records id code message permanent now) s =
        step_kept (record_source_failure p q id code message permanent now) s
          (failure-Stepwise p q id code message permanent now)
    run_call-kept (cancels id now) s =
        step_kept (cancel_source p q id now) s (cancel-Stepwise p q id now)
    run_call-kept (publishes id max_bytes receipt is_safe has_item b now) s =
        step_kept (publish_ready_source p q id max_bytes receipt is_safe has_item b now) s
          (publish-Stepwise p q id max_bytes receipt is_safe has_item b now)

    pub run_calls-kept :
        (cs : List SourceCall) (s : Ingest) → P s.sources → P (run_calls p q cs s).sources
    unfolding run_calls
    run_calls-kept [] s h = h
    run_calls-kept (c ∷ cs) s h = run_calls-kept cs (run_call p q c s) (run_call-kept c s h)
