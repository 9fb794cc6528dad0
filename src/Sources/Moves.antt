-- ===== src/Sources/Moves.antt =====
-- How the calls of src/ace_service/repository.py and src/ace_service/source_assets.py move a source asset:
-- every call leaves the sources as they are, or makes one of these moves.
use audio_ventura.Base.{
  ℕ, ◌≡◌, inl, inr, refl, sym, subst, ◌∙◌, Bool, true, false, Option, none, some, String, nat_eq,
  string_eq, if◌then◌else◌, Result, ok, err, pure, raise, raise_if, gets, ◌>>=◌, ◌>>◌, lookup,
  update, Bool-cases, Option-cases, Result-cases, after,
}
use audio_ventura.Errors.{Failure, key_error}
use audio_ventura.Paths.Safe.{IsNormal}
use audio_ventura.Sources.Rows.{
  SourceAsset, Ingest, Call, lifted, may_prepare, may_retry, satisfies, put, require_source,
  uploaded_source, preparing_source, failed_source, restarted, retried_source,
}
use audio_ventura.Sources.Work.{cancelled_source, without_file, published_source, may_publish}

-- One row, before and after.
pub data Moves (a : SourceAsset) : SourceAsset → Type 0 where
  to_uploaded :
      (path : String) (size : ℕ) (sha256 : String) (now : ℕ)
      → IsNormal path
      → Moves a (uploaded_source path size sha256 now a)
  to_preparing : (now : ℕ) → may_prepare a.status ≡ true → Moves a (preparing_source now a)
  to_failed :
      (code error : String) (retry_at : Option ℕ) (now : ℕ)
      → Moves a (failed_source code error retry_at now a)
  to_restarted : (now : ℕ) → may_retry a.status ≡ true → Moves a (retried_source now a)
  to_prepared_again :
      (now : ℕ)
      → may_prepare (restarted a) ≡ true
      → Moves a (preparing_source now (record a { status = restarted a }))
  to_cancelled :
      (code error : String) (now : ℕ) → Moves a (without_file (cancelled_source code error now a))
  to_ready :
      (title : String) (size : ℕ) (digest : String) (duration now : ℕ)
      → may_publish a.status ≡ true
      → Moves a (published_source title size digest duration now a)

-- A call on one source wrote nothing, or made a move that the constraints allow.
pub data Steps (id : String) (s : Ingest) : Ingest → Type 0 where
  stays : (s' : Ingest) → s'.sources ≡ s.sources → Steps id s s'
  moves :
      (s' : Ingest) (a a' : SourceAsset)
      → lookup id s.sources ≡ some a
      → Moves a a'
      → satisfies a' ≡ true
      → s'.sources ≡ update id (λ _. a') s.sources
      → Steps id s s'

Steps-then :
    {id : String} {s s' : Ingest}
    → Steps id s s'
    → (s'' : Ingest) → s''.sources ≡ s'.sources
    → Steps id s s''
Steps-then (stays s' e) s'' k = stays s'' (k ∙ e)
Steps-then (moves s' a a' l v t e) s'' k = moves s'' a a' l v t (k ∙ e)

-- A call does so in every state where a condition holds.
pub record Does (id : String) (Q : Ingest → Type 0) {A : Type 0} (m : Call A) : Type 0 where
  pub does : (s : Ingest) → Q s → Steps id s (m s).1

module _ (id : String) {Q : Ingest → Type 0} where
  pub Does-pure : {A : Type 0} (a : A) → Does id Q (pure {S = Ingest} {E = Failure} a)
  Does-pure a = record { does = λ s q. stays s refl }

  pub Does-raise : {A : Type 0} (e : Failure) → Does id Q (raise {S = Ingest} {A = A} e)
  Does-raise e = record { does = λ s q. stays s refl }

  pub Does-raise_if :
      {A : Type 0} {m : Call A} (b : Bool) (e : Failure)
      → (b ≡ false → Does id Q m)
      → Does id Q (raise_if b e >> m)
  Does-raise_if true e h = record { does = λ s q. stays s refl }
  Does-raise_if false e h = record { does = λ s q. (h refl).does s q }

  pub Does-lifted :
      {A B : Type 0} (r : Result Failure A) {f : A → Call B}
      → ((a : A) → r ≡ ok a → Does id Q (f a))
      → Does id Q (lifted r >>= f)
  Does-lifted (ok a) h = record { does = λ s q. (h a refl).does s q }
  Does-lifted (err e) h = record { does = λ s q. stays s refl }

  pub Does-if :
      {A : Type 0} {m n : Call A} (b : Bool)
      → (b ≡ true → Does id Q m)
      → (b ≡ false → Does id Q n)
      → Does id Q (if b then m else n)
  Does-if true h k = h refl
  Does-if false h k = k refl

  -- What follows leaves the sources alone.
  pub Does-then :
      {A B : Type 0} {m : Call A} (n : Call B)
      → Does id Q m
      → ((s : Ingest) → (n s).1.sources ≡ s.sources)
      → Does id Q (m >> n)
  Does-then {m = m} n h k = record {
    does = λ s q. elim (Result-cases (m s).0) [
      | inl (a, e) ↦ rw (e, ◌>>=◌) (Steps-then (h.does s q) (n (m s).1).1 (k (m s).1))
      | inr (x, e) ↦ rw (e, ◌>>=◌) (h.does s q)
    ];
  }

-- The row that was read still stands there.
abbrev pub Reads : String → SourceAsset → Ingest → Type 0
Reads id a s = lookup id s.sources ≡ some a

pub put-Does : (id : String) (a a' : SourceAsset) → Moves a a' → Does id (Reads id a) (put id a')
unfolding put
put-Does id a a' v = record {
  does = λ s q. elim (Bool-cases (satisfies a')) [
    | inl b ↦ rw b (moves _ a a' q v b refl)
    | inr b ↦ rw b (stays s refl)
  ];
}

require_source-none :
    (id : String) (s : Ingest)
    → lookup id s.sources ≡ none
    → require_source id s ≡ (err key_error, s)
unfolding require_source
require_source-none id s n = rw n refl

require_source-some :
    (id : String) (s : Ingest) (a : SourceAsset)
    → lookup id s.sources ≡ some a
    → require_source id s ≡ (ok a, s)
unfolding require_source
require_source-some id s a l = rw l refl

pub require-Does :
    (id : String) {A : Type 0} {f : SourceAsset → Call A}
    → ((a : SourceAsset) → Does id (Reads id a) (f a))
    → Does id (λ s. Unit) (require_source id >>= f)
require-Does id {f = f} h = record {
  does = λ s q. elim (Option-cases (lookup id s.sources)) [
    | inl n ↦
        subst (λ r. Steps id s (after f r).1) (sym (require_source-none id s n)) (stays s refl)
    | inr (a, l) ↦
        subst (λ r. Steps id s (after f r).1) (sym (require_source-some id s a l)) ((h a).does s l)
  ];
}

pub found-Does :
    (id : String) {A : Type 0} (f : Option SourceAsset → Call A)
    → Does id (λ s. Unit) (f none)
    → ((a : SourceAsset) → Does id (Reads id a) (f (some a)))
    → Does id (λ s. Unit) (gets (λ s. lookup id s.sources) >>= f)
found-Does id f n h = record {
  does = λ s q. elim (Option-cases (lookup id s.sources)) [
    | inl e ↦ subst (λ o. Steps id s (f o s).1) (sym e) (n.does s tt)
    | inr (a, l) ↦ subst (λ o. Steps id s (f o s).1) (sym l) ((h a).does s l)
  ];
}

-- A call on the source that its argument names.
pub record Stepwise {A : Type 0} (m : Call A) : Type 0 where
  pub steps : (s : Ingest) → (id : String) × Steps id s (m s).1
