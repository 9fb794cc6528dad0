-- ===== src/Sources/Sound.antt =====
-- What holds of every source asset of src/ace_service/repository.py, whatever calls are made.
use audio_ventura.Base.{
  ℕ, ◌≡◌, inl, inr, refl, ap, subst, ◌∙◌, Bool, true, false, ◌&&◌, Option, none, some, String,
  nat_eq, string_eq, is_some, is_none, if◌then◌else◌, Bool-cases, Option-cases,
}
use audio_ventura.Paths.Safe.{IsNormal}
use audio_ventura.Sources.Rows.{
  SourceAssetStatus, awaiting_upload, uploaded, queued, preparing, ready, failed, cancelled,
  SourceAsset, is_upload, may_prepare, satisfies, restarted,
}
use audio_ventura.Sources.Work.{recovered, is_due, may_publish}
use audio_ventura.Sources.Moves.{
  Moves, to_uploaded, to_preparing, to_failed, to_restarted, to_prepared_again, to_cancelled,
  to_ready,
}

-- The states in which an upload's raw file has been stored.
abbrev pub uses_file : SourceAssetStatus → Bool
uses_file uploaded = true
uses_file queued = true
uses_file preparing = true
uses_file ready = true
uses_file _ = false

pub record IsSound (a : SourceAsset) : Type 0 where
  pub allowed : satisfies a ≡ true
  pub placed : (path : String) → a.raw_relative_path ≡ some path → IsNormal path
  pub filed :
      is_upload a.origin ≡ true → uses_file a.status ≡ true → is_some a.raw_relative_path ≡ true

may_prepare-uses_file : (s : SourceAssetStatus) → may_prepare s ≡ true → uses_file s ≡ true
may_prepare-uses_file queued h = refl
may_prepare-uses_file uploaded h = refl
may_prepare-uses_file preparing h = refl
may_prepare-uses_file awaiting_upload h = cc
may_prepare-uses_file ready h = cc
may_prepare-uses_file failed h = cc
may_prepare-uses_file cancelled h = cc

may_publish-uses_file : (s : SourceAssetStatus) → may_publish s ≡ true → uses_file s ≡ true
may_publish-uses_file preparing h = refl
may_publish-uses_file ready h = refl
may_publish-uses_file awaiting_upload h = cc
may_publish-uses_file queued h = cc
may_publish-uses_file uploaded h = cc
may_publish-uses_file failed h = cc
may_publish-uses_file cancelled h = cc

-- An upload that starts again behind its first state has the place of its file.
restarted-file :
    (a : SourceAsset)
    → is_upload a.origin ≡ true
    → uses_file (restarted a) ≡ true
    → is_some a.raw_relative_path ≡ true
restarted-file a u h = elim (Option-cases a.raw_relative_path) [
  | inl n ↦ cc (rw (u, n) at h)
  | inr (path, e) ↦ rw e refl
]

some_path : {x y : String} → some x ≡ some y → x ≡ y
some_path h = cc

kept_path :
    (b : Bool) (o : Option String) (path : String)
    → (if b then none else o) ≡ some path
    → o ≡ some path
kept_path true o path e = cc
kept_path false o path e = e

pub Moves-IsSound : {a a' : SourceAsset} → Moves a a' → satisfies a' ≡ true → IsSound a → IsSound a'
Moves-IsSound (to_uploaded path size sha256 now n) t q = record {
  allowed = t;
  placed = λ path' e. subst IsNormal (some_path e) n;
  filed = λ u h. refl;
}
Moves-IsSound {a} (to_preparing now m) t q = record {
  allowed = t;
  placed = q.placed;
  filed = λ u h. q.filed u (may_prepare-uses_file a.status m);
}
Moves-IsSound (to_failed code error retry_at now) t q = record {
  allowed = t;
  placed = q.placed;
  filed = λ u h. cc;
}
Moves-IsSound {a} (to_restarted now m) t q = record {
  allowed = t;
  placed = q.placed;
  filed = λ u h. restarted-file a u h;
}
Moves-IsSound {a} (to_prepared_again now m) t q = record {
  allowed = t;
  placed = q.placed;
  filed = λ u h. restarted-file a u (may_prepare-uses_file (restarted a) m);
}
Moves-IsSound {a} (to_cancelled code error now) t q = record {
  allowed = t;
  placed = λ path e. q.placed path (kept_path (is_upload a.origin) a.raw_relative_path path e);
  filed = λ u h. cc;
}
Moves-IsSound {a} (to_ready title size digest duration now m) t q = record {
  allowed = t;
  placed = q.placed;
  filed = λ u h. q.filed u (may_publish-uses_file a.status m);
}

-- Neither state of a failed source that starts again is the ready one.
restarting-satisfies :
    (a : SourceAsset)
    → a.status ≡ failed
    → satisfies (record a { status = restarted a; next_attempt_at = none }) ≡ satisfies a
unfolding satisfies
restarting-satisfies a e = elim (Bool-cases (is_upload a.origin && is_none a.raw_relative_path)) [
  | inl r ↦ rw (e, r) refl
  | inr r ↦ rw (e, r) refl
]

-- A recovery moves a source between two states that are not ready.
recovered-satisfies :
    (now : ℕ) (s : SourceAssetStatus) (a : SourceAsset)
    → a.status ≡ s
    → satisfies (recovered now s a) ≡ satisfies a
unfolding recovered satisfies
recovered-satisfies now preparing a e = elim (Bool-cases (is_upload a.origin)) [
  | inl u ↦ rw (e, u) refl
  | inr u ↦ rw (e, u) refl
]
recovered-satisfies now failed a e = elim (Bool-cases (is_due now a.next_attempt_at)) [
  | inr d ↦ rw d refl
  | inl d ↦ rw d (restarting-satisfies a e)
]
recovered-satisfies now awaiting_upload a e = refl
recovered-satisfies now uploaded a e = refl
recovered-satisfies now queued a e = refl
recovered-satisfies now ready a e = refl
recovered-satisfies now cancelled a e = refl

pub recovered-IsSound :
    (now : ℕ) (s : SourceAssetStatus) (a : SourceAsset)
    → a.status ≡ s
    → IsSound a
    → IsSound (recovered now s a)
unfolding recovered
recovered-IsSound now preparing a e q = record {
  allowed = recovered-satisfies now preparing a e ∙ q.allowed;
  placed = q.placed;
  filed = λ u h. q.filed u (ap uses_file e);
}
recovered-IsSound now failed a e q = elim (Bool-cases (is_due now a.next_attempt_at)) [
  | inr d ↦ rw d q
  | inl d ↦ rw d (record {
    allowed = restarting-satisfies a e ∙ q.allowed;
    placed = q.placed;
    filed = λ u h. restarted-file a u h;
  })
]
recovered-IsSound now awaiting_upload a e q = q
recovered-IsSound now uploaded a e q = q
recovered-IsSound now queued a e q = q
recovered-IsSound now ready a e q = q
recovered-IsSound now cancelled a e q = q
