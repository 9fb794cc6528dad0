-- ===== src/Sources/Stale.antt =====
-- A failed upload of src/ace_service/source_assets.py without a file, whose retry is due: the coordinator
-- puts it back to where uploads are awaited and asks for its preparation at once, which is refused.
use audio_ventura.Base.{
  ℕ, ◌≤◌, ◌≡◌, refl, ap, sym, subst, Bool, true, ◌&&◌, none, some, List, [], ◌∷◌, String, string_eq,
  leb, lookup, after, arith, err, pure, Result,
}
use audio_ventura.Errors.{Failure, value_error}
use audio_ventura.Assets.Capabilities
use audio_ventura.Sources.{Library, source_uuid, prepare_row}
use audio_ventura.Sources.Rows.{failed, SourceAsset, Ingest, Call, is_upload, restarted}
use audio_ventura.Sources.Work.{is_due, process_row, process_source}
use audio_ventura.Sources.Calls.{processes, transaction, run_call}

-- The row of such a source; its retry was due at the time.
pub record IsStranded (at : ℕ) (a : SourceAsset) : Type 0 where
  pub is_failed : a.status ≡ failed
  pub is_uploaded : is_upload a.origin ≡ true
  pub bare : a.raw_relative_path ≡ none
  pub due : (now : ℕ) → at ≤ now → is_due now a.next_attempt_at ≡ true

abbrev pub from_on : ℕ → List ℕ → Bool
from_on at [] = true
from_on at (t ∷ ts) = leb at t && from_on at ts

-- What every round on such a source comes to.
abbrev pub refusal : Result Failure Bool
refusal = err (value_error "source asset is not queued for preparation")

abbrev pub refusals : List ℕ → List (Result Failure Bool)
refusals [] = []
refusals (t ∷ ts) = refusal ∷ refusals ts

module _ (p : Library) (q : Capabilities.Library) (source_id : String) where
  -- Rounds of the coordinator on a source: the result of each, and the store behind them.
  unfoldable pub run_rounds : List ℕ → Ingest → List (Result Failure Bool) × Ingest
  run_rounds [] s = ([], s)
  run_rounds (now ∷ ts) s =
      let (rs, s') = run_rounds ts (run_call p q (processes source_id now) s) in
      ((process_source p q source_id now s).0 ∷ rs, s')

transaction-raised :
    {A : Type 0} (m : Call A) (s s' : Ingest) (e : Failure)
    → m s ≡ (err e, s')
    → transaction m s ≡ s
transaction-raised m s s' e h = rw (ap (λ y. y.0) h, transaction) refl

module _ (p : Library) (q : Capabilities.Library) (source_id id : String)
    (named : p.uuid source_id ≡ some id) where
  prepare_row-refused :
      (now : ℕ) (a : SourceAsset) (s : Ingest)
      → is_upload a.origin ≡ true
      → a.raw_relative_path ≡ none
      → prepare_row p id now (record a { status = restarted a }) s
        ≡ (err (value_error "source asset is not queued for preparation"), s)
  unfolding prepare_row
  prepare_row-refused now a s u n = rw (u, n) refl

  process_row-refused :
      (now : ℕ) (a : SourceAsset) (s : Ingest)
      → is_upload a.origin ≡ true
      → a.raw_relative_path ≡ none
      → is_due now a.next_attempt_at ≡ true
      → process_row p q id now failed a s
        ≡ (err (value_error "source asset is not queued for preparation"), s)
  process_row-refused now a s u n d = rw d (
      subst
        (λ y.
          after (λ _. pure true) y
          ≡ (err (value_error "source asset is not queued for preparation"), s))
        (sym (prepare_row-refused now a s u n)) refl)

  process-refused :
      (at now : ℕ) (a : SourceAsset) (s : Ingest)
      → lookup id s.sources ≡ some a
      → IsStranded at a
      → at ≤ now
      → process_source p q source_id now s
        ≡ (err (value_error "source asset is not queued for preparation"), s)
  unfolding process_source source_uuid
  process-refused at now a s l h t =
      rw (named, l)
        (subst
          (λ st.
            process_row p q id now st a s
            ≡ (err (value_error "source asset is not queued for preparation"), s))
          (sym h.is_failed) (process_row-refused now a s h.is_uploaded h.bare (h.due now t)))

  run_call-refused :
      (at now : ℕ) (a : SourceAsset) (s : Ingest)
      → lookup id s.sources ≡ some a
      → IsStranded at a
      → at ≤ now
      → run_call p q (processes source_id now) s ≡ s
  unfolding run_call
  run_call-refused at now a s l h t =
      transaction-raised (process_source p q source_id now) s s _ (process-refused at now a s l h t)

  -- A failed upload without a file, whose retry is due, is not taken up by the rounds of the coordinator:
  -- however often and whenever they process it, with no other call in between, every one raises, and the
  -- store stays as it is.
  pub stranded_source_stays :
      (at : ℕ) (a : SourceAsset) (s : Ingest) (ts : List ℕ)
      → lookup id s.sources ≡ some a
      → IsStranded at a
      → from_on at ts ≡ true
      → run_rounds p q source_id ts s ≡ (refusals ts, s)
  unfolding run_rounds
  stranded_source_stays at a s [] l h t = refl
  stranded_source_stays at a s (now ∷ ts) l h t =
      rw
        (
          process-refused at now a s l h (ground (arith, t)),
          run_call-refused at now a s l h (ground (arith, t)),
          stranded_source_stays at a s ts l h (ground (arith, t)),
        )
        refl
