-- ===== src/Sources/Store.antt =====
-- Every call of src/ace_service/repository.py on source assets keeps them sound, creation included.
use audio_ventura.Base.{
  ℕ, ◌≡◌, inl, inr, refl, ap, sym, subst, ◌∙◌, Bool, true, false, not, ◌||◌, Option, none, some,
  List, String, ◌==◌, nat_eq, string_eq, is_some, or_else, ltb, Result, ok, err, ◌>>=◌, Table,
  lookup, find_row, unique, unique-update, unique-insert, unique-map_rows, AllRows, AllRows-update,
  AllRows-insert, AllRows-lookup, AllRows-map_rows, Keeps, Keeps-then, Keeps-raise_if, Keeps-bind,
  Keeps-gets, longer_than, [], Bool-cases, Option-cases,
}
use audio_ventura.Errors.{Failure, key_error, value_error}
use audio_ventura.Assets.Capabilities
use audio_ventura.Sources.{Library, source_uuid}
use audio_ventura.Sources.Creation.{
  NewSource, with_origin, create_source_asset, add_source, youtube_source, is_blank, upload_source,
  named_source, bad_filename, has_text, media_title, checked_backend, blank_source, of_project,
}
use audio_ventura.Sources.Rows.{
  SourceAssetOrigin, youtube, upload, SourceAsset, Ingest, Call, is_upload, satisfies, lifted,
}
use audio_ventura.Sources.Work.{recovered}
use audio_ventura.Sources.Moves.{Steps, stays, moves}
use audio_ventura.Sources.Calls.{SourceCall, run_calls, Kept, run_calls-kept}
use audio_ventura.Sources.Sound.{IsSound, Moves-IsSound, recovered-IsSound, uses_file}

-- A new source has no file yet, and an upload waits for it.
pub record IsFresh (a : SourceAsset) : Type 0 where
  pub bare : a.raw_relative_path ≡ none
  pub waiting : is_upload a.origin ≡ true → uses_file a.status ≡ false

fresh-IsSound : (a : SourceAsset) → IsFresh a → satisfies a ≡ true → IsSound a
fresh-IsSound a f t = record {
  allowed = t;
  placed = λ path e. cc (f.bare);
  filed = λ u h. cc (f.waiting u);
}

refused {ℓ} : {E A : Type 0} {x : E} {a : A} {B : Type ℓ} → err x ≡ ok a → B
refused h = cc

accepted : {A : Type 0} {a b : A} → ◌≡◌ {A = Result Failure A} (ok a) (ok b) → a ≡ b
accepted h = cc

module _ (p : Library) where
  youtube-IsFresh :
      (video : String) (url : Result Failure String) (a a' : SourceAsset)
      → a.raw_relative_path ≡ none
      → is_upload a.origin ≡ false
      → youtube_source p video url a ≡ ok a'
      → IsFresh a'
  youtube-IsFresh video (err x) a a' n u e = refused e
  youtube-IsFresh video (ok url) a a' n u e =
      elim (Bool-cases (longer_than video 128 || is_blank p video)) [
        | inl b ↦ refused (rw b at e)
        | inr b ↦
            subst IsFresh (accepted (rw b at e))
              (record { bare = n; waiting = λ h. cc (rw u at h) })
      ]

  upload-IsFresh :
      (name : String) (size : Option ℕ) (a a' : SourceAsset)
      → IsFresh a
      → upload_source p name size a ≡ ok a'
      → IsFresh a'
  upload-IsFresh name none a a' f e = refused e
  upload-IsFresh name (some size) a a' f e = elim (Bool-cases (size == 0 || ltb 536870912 size)) [
    | inl b ↦ refused (rw b at e)
    | inr b ↦ subst IsFresh (accepted (rw b at e)) (record { bare = f.bare; waiting = f.waiting })
  ]

  named-IsFresh :
      (name : Option String) (size : Option ℕ) (a a' : SourceAsset)
      → IsFresh a
      → named_source p name size a ≡ ok a'
      → IsFresh a'
  named-IsFresh none size a a' f e = refused e
  named-IsFresh (some name) size a a' f e = elim (Bool-cases (is_blank p name)) [
    | inl b ↦ refused (rw b at e)
    | inr b ↦ elim (Bool-cases (bad_filename p name)) [
      | inl c ↦ refused (rw (b, c) at e)
      | inr c ↦ upload-IsFresh name size a a' f (rw (b, c) at e)
    ]
  ]

  with_origin-IsFresh :
      (o : SourceAssetOrigin) (r : NewSource) (a a' : SourceAsset)
      → a.origin ≡ o
      → IsFresh a
      → with_origin p o r a ≡ ok a'
      → IsFresh a'
  unfolding with_origin
  with_origin-IsFresh youtube r a a' o f e =
      elim (Bool-cases (not (has_text r.youtube_url) || not (has_text r.youtube_video_id))) [
        | inl b ↦ refused (rw b at e)
        | inr b ↦
            youtube-IsFresh (or_else r.youtube_video_id "")
              (p.validate_youtube_url (or_else r.youtube_url "")) a a' f.bare (ap is_upload o)
              (rw b at e)
      ]
  with_origin-IsFresh upload r a a' o f e =
      elim (Bool-cases (is_some r.youtube_url || is_some r.youtube_video_id)) [
        | inl b ↦ refused (rw b at e)
        | inr b ↦ named-IsFresh r.original_filename r.declared_byte_size a a' f (rw b at e)
      ]

-- The keys are unique, and every source is sound.
pub record SoundSources (t : Table String SourceAsset) : Type 0 where
  pub keys : unique t ≡ true
  pub all : AllRows IsSound t

pub add_source-Keeps :
    (id : String) (a : SourceAsset)
    → IsFresh a
    → Keeps (λ s. SoundSources s.sources) (add_source id a)
unfolding add_source
add_source-Keeps id a f = record {
  kept = λ s h. elim (Option-cases (lookup id s.sources)) [
    | inr (x, l) ↦ rw l h
    | inl l ↦ elim (Bool-cases (satisfies a)) [
      | inr b ↦ rw (l, b) h
      | inl b ↦
          rw (l, b)
            (record {
              keys = unique-insert id a s.sources h.keys l;
              all = AllRows-insert IsSound id a s.sources (fresh-IsSound a f b) h.all;
            })
    ]
  ];
}

Keeps-lifted :
    {P : Ingest → Type 0} {A B : Type 0} (r : Result Failure A) (f : A → Call B)
    → ((a : A) → r ≡ ok a → Keeps P (f a))
    → Keeps P (lifted r >>= f)
Keeps-lifted (ok a) f h = record { kept = λ s q. (h a refl).kept s q }
Keeps-lifted (err e) f h = record { kept = λ s q. q }

module _ (p : Library) where
  source_uuid-Keeps : {P : Ingest → Type 0} (v : String) → Keeps P (source_uuid p v)
  unfolding source_uuid
  source_uuid-Keeps v = record {
    kept = λ s q. elim (Option-cases (p.uuid v)) [ inl e ↦ rw e q | inr (c, e) ↦ rw e q ];
  }

  -- A creation keeps what the insertion of a fresh row does.
  pub create-Keeps :
      (P : Table String SourceAsset → Type 0)
      (h : (id : String) (a : SourceAsset) → IsFresh a → Keeps (λ s. P s.sources) (add_source id a))
      (has_project : Bool) (r : NewSource) (now : ℕ)
      → Keeps (λ s. P s.sources) (create_source_asset p has_project r now)
  unfolding create_source_asset
  create-Keeps P h has_project r now = Keeps-then (Keeps-raise_if (not has_project) key_error) (
      Keeps-lifted (media_title p r.display_title) _ (λ title _.
        Keeps-lifted (checked_backend p r.preferred_remix_backend) _ (λ backend _.
          Keeps-lifted (with_origin p r.origin r (blank_source r title backend now)) _ (λ a e.
            Keeps-bind (Keeps-gets (λ s. is_some (find_row (of_project r.project_id) s.sources)))
              (λ existing.
                Keeps-then
                  (Keeps-raise_if existing (value_error "project already has a primary source"))
                  (Keeps-bind (source_uuid-Keeps r.id) (λ id. h id a (
                    with_origin-IsFresh p r.origin r (blank_source r title backend now) a refl
                      (record { bare = refl; waiting = λ h. refl }) e))))))))

Steps-SoundSources :
    {id : String} {s s' : Ingest} → Steps id s s' → SoundSources s.sources → SoundSources s'.sources
Steps-SoundSources (stays s' e) h = subst SoundSources (sym e) h
Steps-SoundSources {id} {s} (moves s' a a' l v t e) h = subst SoundSources (sym e) (record {
  keys = unique-update id (λ _. a') s.sources ∙ h.keys;
  all =
      AllRows-update IsSound id (λ _. a') s.sources h.keys l
        (Moves-IsSound v t (AllRows-lookup IsSound id s.sources l h.all)) h.all;
})

pub SoundSources-Kept : Kept SoundSources
SoundSources-Kept = record {
  by_step = λ id s s' w h. Steps-SoundSources w h;
  by_recovery = λ now t h. record {
    keys = unique-map_rows (λ a. recovered now a.status a) t ∙ h.keys;
    all =
        AllRows-map_rows IsSound (λ a. recovered now a.status a) t
          (λ a q. recovered-IsSound now a.status a refl q) h.all;
  };
  by_creation = λ p has_project r now s h.
      (create-Keeps p SoundSources add_source-Keeps has_project r now).kept s h;
}

no_sources : SoundSources []
unfolding unique
no_sources = record { keys = refl; all = tt }

-- Whatever calls are made on a store without sources, a source satisfies the constraints of its table,
-- an upload that is prepared or published has the place of its raw file recorded in its row, and a
-- recorded place is a relative path that stays below its root. The file itself is not part of the store.
pub sources-SoundSources :
    (p : Library) (q : Capabilities.Library) (cs : List SourceCall) (s : Ingest)
    → s.sources ≡ []
    → SoundSources (run_calls p q cs s).sources
sources-SoundSources p q cs s e =
    run_calls-kept SoundSources-Kept p q cs s (subst SoundSources (sym e) no_sources)
