-- ===== src/Sources/Final.antt =====
-- A source asset of src/ace_service/repository.py that is ready stays ready: the check constraint of
-- src/ace_service/models.py on the canonical columns refuses what `fail_source_asset` lets through.
use audio_ventura.Base.{
  ℕ, ◌≡◌, refl, ap, sym, subst, ◌∙◌, true, false, not, Option, some, List, String, string_eq,
  is_some, Table, lookup, insert, lookup-update, lookup-insert, lookup-map_rows, map_rows,
  AllRows-lookup, Bool-cases, arith, ◌||◌, Keeps, ok, ◌==◌, inl, inr,
}
use audio_ventura.Assets.Capabilities
use audio_ventura.Sources.{Library}
use audio_ventura.Sources.Creation.{add_source}
use audio_ventura.Sources.Rows.{
  SourceAssetStatus, awaiting_upload, uploaded, queued, preparing, ready, failed, cancelled,
  SourceAsset, Ingest, is_ready, satisfies, has_canonical,
}
use audio_ventura.Sources.Work.{recovered}
use audio_ventura.Sources.Moves.{
  Moves, to_uploaded, to_preparing, to_failed, to_restarted, to_prepared_again, to_cancelled,
  to_ready, Steps, stays, moves,
}
use audio_ventura.Sources.Calls.{SourceCall, run_calls, Kept, run_calls-kept}
use audio_ventura.Sources.Sound.{IsSound}
use audio_ventura.Sources.Store.{
  SoundSources, SoundSources-Kept, IsFresh, create-Keeps, add_source-Keeps,
}

-- The constraint, read from both sides.
ready-has_canonical :
    (a : SourceAsset) → satisfies a ≡ true → is_ready a.status ≡ true → has_canonical a ≡ true
unfolding satisfies
ready-has_canonical a t r = ground arith

canonical-is_ready :
    (a : SourceAsset) → satisfies a ≡ true → has_canonical a ≡ true → is_ready a.status ≡ true
unfolding satisfies
canonical-is_ready a t c = ground arith

-- No move takes the canonical columns away.
Moves-has_canonical :
    {a a' : SourceAsset} → Moves a a' → has_canonical a ≡ true → has_canonical a' ≡ true
Moves-has_canonical (to_uploaded path size sha256 now n) c = c
Moves-has_canonical (to_preparing now m) c = c
Moves-has_canonical (to_failed code error retry_at now) c = c
Moves-has_canonical (to_restarted now m) c = c
Moves-has_canonical (to_prepared_again now m) c = c
Moves-has_canonical (to_cancelled code error now) c = c
Moves-has_canonical (to_ready title size digest duration now m) c = refl

record ReadyAt (id : String) (t : Table String SourceAsset) : Type 0 where
  sound : SoundSources t
  row : SourceAsset
  stored : lookup id t ≡ some row
  is_done : is_ready row.status ≡ true

is_ready-eq : (s : SourceAssetStatus) → is_ready s ≡ true → s ≡ ready
is_ready-eq ready h = refl
is_ready-eq awaiting_upload h = cc
is_ready-eq uploaded h = cc
is_ready-eq queued h = cc
is_ready-eq preparing h = cc
is_ready-eq failed h = cc
is_ready-eq cancelled h = cc

recovered-ready :
    (now : ℕ) (a : SourceAsset)
    → is_ready a.status ≡ true
    → is_ready (recovered now a.status a).status ≡ true
unfolding recovered
recovered-ready now a h =
    subst (λ s. is_ready (recovered now s a).status ≡ true) (sym (is_ready-eq a.status h)) h

one_row : {o : Option SourceAsset} {a b : SourceAsset} → o ≡ some a → o ≡ some b → a ≡ b
one_row e f = cc

moved-is_ready :
    (a a' : SourceAsset)
    → Moves a a'
    → satisfies a ≡ true
    → satisfies a' ≡ true
    → is_ready a.status ≡ true
    → is_ready a'.status ≡ true
moved-is_ready a a' v t t' r =
    canonical-is_ready a' t' (Moves-has_canonical v (ready-has_canonical a t r))

added :
    (k : String) (a : SourceAsset) (s : Ingest)
    → (is_some (lookup k s.sources) || not (satisfies a)) ≡ false
    → add_source k a s ≡ (ok k, record s { sources = insert k a s.sources })
unfolding add_source
added k a s b = rw b refl

module _ (id : String) where
  Steps-ReadyAt :
      (k : String) (s s' : Ingest) → Steps k s s' → ReadyAt id s.sources → ReadyAt id s'.sources
  Steps-ReadyAt k s s' (stays _ e) h = subst (ReadyAt id) (sym e) h
  Steps-ReadyAt k s s' (moves _ a a' l v t e) h = elim (Bool-cases (id == k)) [
    | inr b ↦ record {
      sound = SoundSources-Kept.by_step k s s' (moves s' a a' l v t e) h.sound;
      row = h.row;
      stored = ap (lookup id) e ∙ lookup-update k id (λ _. a') s.sources ∙ rw b h.stored;
      is_done = h.is_done;
    }
    | inl b ↦
        let same : h.row ≡ a =
          one_row h.stored
            (subst (λ j. lookup j s.sources ≡ some a) (sym ((string_eq.same_iff id k).0 b)) l) in
        let sound : IsSound a = AllRows-lookup IsSound k s.sources l h.sound.all in
        record {
          sound = SoundSources-Kept.by_step k s s' (moves s' a a' l v t e) h.sound;
          row = a';
          stored =
              ap (lookup id) e ∙ lookup-update k id (λ _. a') s.sources ∙ rw (b, h.stored) refl;
          is_done =
              moved-is_ready a a' v sound.allowed t
                (subst (λ x. is_ready x.status ≡ true) same h.is_done);
        }
  ]

  recovery-ReadyAt :
      (now : ℕ) (t : Table String SourceAsset)
      → ReadyAt id t
      → ReadyAt id (map_rows (λ a. recovered now a.status a) t)
  recovery-ReadyAt now t h = record {
    sound = SoundSources-Kept.by_recovery now t h.sound;
    row = recovered now h.row.status h.row;
    stored = lookup-map_rows (λ a. recovered now a.status a) id t ∙ rw (h.stored) refl;
    is_done = recovered-ready now h.row h.is_done;
  }

  add_source-ReadyAt :
      (k : String) (a : SourceAsset)
      → IsFresh a
      → Keeps (λ s. ReadyAt id s.sources) (add_source k a)
  unfolding add_source
  add_source-ReadyAt k a f = record {
    kept = λ s h. elim (Bool-cases (is_some (lookup k s.sources) || not (satisfies a))) [
      | inl b ↦ rw b h
      | inr b ↦ rw b (record {
        sound =
            subst (λ r. SoundSources r.1.sources) (added k a s b)
              ((add_source-Keeps k a f).kept s h.sound);
        row = h.row;
        stored = lookup-insert k id a s.sources ∙ rw (h.stored) refl;
        is_done = h.is_done;
      })
    ];
  }

  ReadyAt-Kept : Kept (ReadyAt id)
  ReadyAt-Kept = record {
    by_step = Steps-ReadyAt;
    by_recovery = recovery-ReadyAt;
    by_creation = λ p has_project r now s h.
        (create-Keeps p (ReadyAt id) add_source-ReadyAt has_project r now).kept s h;
  }

-- In a store whose sources are sound, one that is ready stays there and stays ready, whatever calls
-- follow, a recorded failure, a new upload and a retry included.
pub ready_source_is_final :
    (p : Library) (q : Capabilities.Library) (cs : List SourceCall) (id : String) (s : Ingest)
    (row : SourceAsset)
    → SoundSources s.sources
    → lookup id s.sources ≡ some row
    → is_ready row.status ≡ true
    → (row' : SourceAsset) × (lookup id (run_calls p q cs s).sources ≡ some row')
      × (is_ready row'.status ≡ true)
ready_source_is_final p q cs id s row h l r =
    let k : ReadyAt id (run_calls p q cs s).sources =
      run_calls-kept (ReadyAt-Kept id) p q cs s
        (record { sound = h; row = row; stored = l; is_done = r }) in
    (k.row, k.stored, k.is_done)
