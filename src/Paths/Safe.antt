-- ===== src/Paths/Safe.antt =====
-- What `normalize_relative_path` of src/ace_service/schemas.py gives: the text that it builds is
-- taken apart again into the same segments.
use Prim.Native.Char.{Char, code}
use text.Mathlib.TextEquality.{eq_iff}
use audio_ventura.Base.{
  ℕ, ◌≡◌, refl, ap, subst, ◌∙◌, Bool, true, false, not, ◌&&◌, ◌||◌, List, [], ◌∷◌, String, ◌+++◌,
  ◌==◌, nat_eq, string_eq, is_empty, if◌then◌else◌, Result, ok, err, arith, inl, inr, Bool-cases,
}
use Prim.Native.String.append.{nil, cons}
use audio_ventura.Errors.{Failure, value_error}
use audio_ventura.Paths.{
  has_code, starts_with, has_drive, segments, is_dot, parts_of, has_parent, join, named_file,
  normalize_relative_path,
}

-- The clauses of `+++`, as equations.
nil-append : (t : String) → ("" +++ t) ≡ t
nil-append t = λ i. nil t i

cons-append : (c : Char) (s t : String) → (String.◌∷◌ c s +++ t) ≡ String.◌∷◌ c (s +++ t)
cons-append c s t = λ i. cons c s t i

has_code-append : (k : ℕ) (a b : String) → has_code k (a +++ b) ≡ (has_code k a || has_code k b)
unfolding has_code
has_code-append k String.[] b = rw nil-append refl
has_code-append k (String.◌∷◌ c a) b = rw (cons-append, has_code-append k a b) (ground arith)

segments-cons : (s : String) → (p : String) × (ps : List String) × (segments s ≡ p ∷ ps)
unfolding segments
segments-cons String.[] = ("", [], refl)
segments-cons (String.◌∷◌ c s) =
    let (p, ps, e) = segments-cons s in
    elim (Bool-cases (code c == 47)) [
      | inl b ↦ ("", p ∷ ps, rw (e, b) refl)
      | inr b ↦ (String.◌∷◌ c p, ps, rw (e, b) refl)
    ]

segments-append :
    (p s : String) → has_code 47 p ≡ false → segments (p +++ ("/" +++ s)) ≡ p ∷ segments s
unfolding segments has_code
segments-append String.[] s h =
    let (p, ps, e) = segments-cons s in rw (nil-append, cons-append, nil-append, e) refl
segments-append (String.◌∷◌ c p) s h =
    rw (cons-append, segments-append p s (ground arith)) (ground arith)

segments-plain : (p : String) → has_code 47 p ≡ false → segments p ≡ p ∷ []
unfolding segments has_code
segments-plain String.[] h = refl
segments-plain (String.◌∷◌ c p) h = rw (segments-plain p (ground arith)) (ground arith)

-- No part holds the character.
abbrev pub all_free : ℕ → List String → Bool
all_free k [] = true
all_free k (p ∷ ps) = not (has_code k p) && all_free k ps

segments-join :
    (p : String) (ps : List String)
    → all_free 47 (p ∷ ps) ≡ true
    → segments (join (p ∷ ps)) ≡ p ∷ ps
unfolding join
segments-join p [] h = segments-plain p (ground arith)
segments-join p (q ∷ ps) h =
    segments-append p (join (q ∷ ps)) (ground arith)
    ∙ ap (λ r. p ∷ r) (segments-join q ps (ground arith))

all_free-segments : (k : ℕ) (s : String) → has_code k s ≡ false → all_free k (segments s) ≡ true
unfolding segments has_code
all_free-segments k String.[] h = refl
all_free-segments k (String.◌∷◌ c s) h =
    let (p, ps, e) = segments-cons s in ground (arith, e, all_free-segments k s)

all_free-slash : (s : String) → all_free 47 (segments s) ≡ true
unfolding segments has_code
all_free-slash String.[] = refl
all_free-slash (String.◌∷◌ c s) =
    let (p, ps, e) = segments-cons s in ground (arith, e, all_free-slash s)

all_free-parts_of :
    (k : ℕ) (ps : List String) → all_free k ps ≡ true → all_free k (parts_of ps) ≡ true
unfolding parts_of
all_free-parts_of k [] h = refl
all_free-parts_of k (p ∷ ps) h = ground (arith, all_free-parts_of k ps)

abbrev no_dots : List String → Bool
no_dots [] = true
no_dots (p ∷ ps) = not (is_dot p) && no_dots ps

no_dots-parts_of : (ps : List String) → no_dots (parts_of ps) ≡ true
unfolding parts_of
no_dots-parts_of [] = refl
no_dots-parts_of (p ∷ ps) = ground (arith, no_dots-parts_of ps)

parts_of-no_dots : (ps : List String) → no_dots ps ≡ true → parts_of ps ≡ ps
unfolding parts_of
parts_of-no_dots [] h = refl
parts_of-no_dots (p ∷ ps) h = ground (arith, parts_of-no_dots ps)

has_code-join :
    (k : ℕ) (ps : List String)
    → (47 == k) ≡ false
    → all_free k ps ≡ true
    → has_code k (join ps) ≡ false
unfolding join has_code
has_code-join k [] e h = refl
has_code-join k (p ∷ []) e h = ground arith
has_code-join k (p ∷ q ∷ ps) e h =
    rw (has_code-append k p ("/" +++ join (q ∷ ps)), has_code-append k "/" (join (q ∷ ps)))
      (ground (arith, has_code-join k (q ∷ ps)))

-- A text that begins with a character other than the slash.
abbrev Begins : String → Type 0
Begins s = (c : Char) × (q : String) × (s ≡ String.◌∷◌ c q) × ((code c == 47) ≡ false)

Begins-part : (p : String) → is_dot p ≡ false → has_code 47 p ≡ false → Begins p
unfolding has_code
Begins-part String.[] d h = cc
Begins-part (String.◌∷◌ c p) d h = (c, p, refl, ground arith)

Begins-join :
    (p : String) (ps : List String)
    → is_dot p ≡ false
    → has_code 47 p ≡ false
    → Begins (join (p ∷ ps))
unfolding join
Begins-join p [] d h = Begins-part p d h
Begins-join p (q ∷ ps) d h =
    let (c, r, e, n) = Begins-part p d h in
    (c, r +++ ("/" +++ join (q ∷ ps)), rw (e, cons-append) refl, n)

Begins-relative : (s : String) → Begins s → (starts_with 47 s ≡ false) × (is_empty s ≡ false)
Begins-relative String.[] b = cc (b.2)
Begins-relative (String.◌∷◌ c s) b = (
  ground (arith, b.2, b.3),
  elim (Bool-cases (is_empty (String.◌∷◌ c s))) [
    | inl t ↦ cc ((eq_iff (String.◌∷◌ c s) "").0 t)
    | inr f ↦ f
  ],
)

-- What a normalized path is made of.
pub record IsNormal (s : String) : Type 0 where
  pub relative : starts_with 47 s ≡ false
  pub posix : has_code 92 s ≡ false
  pub plain : has_code 0 s ≡ false
  pub named : is_empty s ≡ false
  pub whole : parts_of (segments s) ≡ segments s
  pub inside : has_parent (segments s) ≡ false
  pub joined : join (segments s) ≡ s

IsNormal-join :
    (p : String) (ps : List String)
    → no_dots (p ∷ ps) ≡ true
    → all_free 47 (p ∷ ps) ≡ true
    → all_free 92 (p ∷ ps) ≡ true
    → all_free 0 (p ∷ ps) ≡ true
    → has_parent (p ∷ ps) ≡ false
    → IsNormal (join (p ∷ ps))
IsNormal-join p ps d f b z h =
    let r = Begins-relative (join (p ∷ ps)) (Begins-join p ps (ground arith) (ground arith)) in
    record {
      relative = r.0;
      posix = has_code-join 92 (p ∷ ps) refl b;
      plain = has_code-join 0 (p ∷ ps) refl z;
      named = r.1;
      whole = rw (segments-join p ps f) (parts_of-no_dots (p ∷ ps) d);
      inside = rw (segments-join p ps f) h;
      joined = ap join (segments-join p ps f);
    }

same_ok : {s t : String} → ◌≡◌ {A = Result Failure String} (ok s) (ok t) → s ≡ t
same_ok h = cc

named-IsNormal :
    (qs : List String) {s : String}
    → no_dots qs ≡ true
    → all_free 47 qs ≡ true
    → all_free 92 qs ≡ true
    → all_free 0 qs ≡ true
    → has_parent qs ≡ false
    → named_file qs ≡ ok s
    → IsNormal s
unfolding named_file
named-IsNormal [] d f b z h e = cc
named-IsNormal (p ∷ ps) {s} d f b z h e = subst IsNormal (same_ok e) (IsNormal-join p ps d f b z h)

refused :
    {r : Result Failure String} {x : Failure} {s : String} {B : Type 0} → r ≡ err x → r ≡ ok s → B
refused a b = cc

-- A path that `normalize_relative_path` returns is relative, has no backslash and no NUL, and none of
-- the segments between its slashes is empty, `.` or `..`.
pub normalize_relative_path-IsNormal :
    (v s : String) → normalize_relative_path v ≡ ok s → IsNormal s
unfolding normalize_relative_path
normalize_relative_path-IsNormal v s e = elim (Bool-cases (is_empty v || has_code 0 v)) [
  | inl t ↦ refused refl (rw t at e)
  | inr z ↦ elim (Bool-cases (has_code 92 v)) [
    | inl t ↦ refused refl (rw (z, t) at e)
    | inr b ↦ elim (Bool-cases (starts_with 47 v || has_drive v)) [
      | inl t ↦ refused refl (rw (z, b, t) at e)
      | inr a ↦ elim (Bool-cases (has_parent (parts_of (segments v)))) [
        | inl t ↦ refused refl (rw (z, b, a, t) at e)
        | inr h ↦
            named-IsNormal (parts_of (segments v)) (no_dots-parts_of (segments v))
              (all_free-parts_of 47 (segments v) (all_free-slash v))
              (all_free-parts_of 92 (segments v) (all_free-segments 92 v b))
              (all_free-parts_of 0 (segments v) (all_free-segments 0 v (ground (arith, z)))) h
              (rw (z, b, a, h) at e)
      ]
    ]
  ]
]

named_file-segments : (s : String) → named_file (segments s) ≡ ok (join (segments s))
unfolding named_file
named_file-segments s = let (p, ps, e) = segments-cons s in rw e refl

-- Normalizing a normalized path gives the path itself, unless its second character is a colon, which
-- a leading `./` can hide from the first call.
pub normalize_relative_path_twice :
    (v s : String)
    → normalize_relative_path v ≡ ok s
    → normalize_relative_path s
      ≡ (if has_drive s then err (value_error "relative path must not be absolute") else ok s)
unfolding normalize_relative_path
normalize_relative_path_twice v s e =
    let n = normalize_relative_path-IsNormal v s e in
    rw (n.named, n.plain, n.posix, n.relative, n.whole, n.inside, named_file-segments s, n.joined)
      refl
