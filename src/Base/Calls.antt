-- ===== src/Base/Calls.antt =====
-- A repository call: a state (the rows that a session sees) and exceptions. The state comes back
-- beside an exception too, since an object that was written stays written until a rollback.
use mathlib.Core.Path.{◌≡◌, refl, sym, subst}
use mathlib.Core.Logic.{◌⊎◌, inl, inr}
use mathlib.Core.Bool.{Bool, true, false, not}
use mathlib.Core.Option.{Option, none, some}
use audio_ventura.Base.Tests.{if◌then◌else◌}

pub data Result {ℓ} (E A : Type ℓ) : Type ℓ where
  ok : A → Result E A
  err : E → Result E A

abbrev pub Exec {ℓ} : Type ℓ → Type ℓ → Type ℓ → Type ℓ
Exec S E A = S → Result E A × S

module _ {ℓ} {S E A : Type ℓ} where
  abbrev pub pure : A → Exec S E A
  pure a s = (ok a, s)

  abbrev pub raise : E → Exec S E A
  raise e s = (err e, s)

  abbrev pub gets : (S → A) → Exec S E A
  gets f s = (ok (f s), s)

  abbrev pub or_raise : Option A → E → Exec S E A
  or_raise none e = raise e
  or_raise (some a) e = pure a

infixl 5 ◌>>=◌ ◌>>◌
abbrev pub ◌>>=◌ {ℓ} : {S E A B : Type ℓ} → Exec S E A → (A → Exec S E B) → Exec S E B
◌>>=◌ m f s = let (r, s') = m s in elim r [ ok a ↦ f a s' | err e ↦ raise e s' ]

abbrev pub ◌>>◌ {ℓ} : {S E A B : Type ℓ} → Exec S E A → Exec S E B → Exec S E B
m >> k = m >>= λ _. k

module _ {ℓ} {S E : Type ℓ} where
  abbrev pub raise_if : Bool → E → Exec S E Unit
  raise_if true e s = (err e, s)
  raise_if false e s = (ok tt, s)

  abbrev pub modify : (S → S) → Exec S E Unit
  modify f s = (ok tt, f s)

-- To split on how a call ended, and keep the equation.
pub Result-cases {ℓ} :
    {E A : Type ℓ} (r : Result E A) → ((a : A) × (r ≡ ok a)) ⊎ ((e : E) × (r ≡ err e))
Result-cases (ok a) = inl (a, refl)
Result-cases (err e) = inr (e, refl)

-- Two continuations that agree on what a call returned may replace one another.
pub >>=-ext {ℓ} :
    {S E A B : Type ℓ} (m : Exec S E A) (f g : A → Exec S E B) (s : S)
    → ((a : A) → (m s).0 ≡ ok a → f a (m s).1 ≡ g a (m s).1)
    → (m >>= f) s ≡ (m >>= g) s
>>=-ext m f g s h = elim (Result-cases (m s).0) [
  | inl (a, e) ↦ rw (e, ◌>>=◌) (h a e)
  | inr (x, e) ↦ rw (e, ◌>>=◌) refl
]

-- A call that returned, and the one behind it.
pub >>=_of_ok {ℓ} :
    {S E A B : Type ℓ} (m : Exec S E A) (f : A → Exec S E B) (s : S) {a : A}
    → (m s).0 ≡ ok a
    → (m >>= f) s ≡ f a (m s).1
>>=_of_ok m f s e = rw (e, ◌>>=◌) refl

-- A call that raised ends the block.
pub >>=_of_err {ℓ} :
    {S E A B : Type ℓ} (m : Exec S E A) (f : A → Exec S E B) (s : S) {x : E}
    → (m s).0 ≡ err x
    → (m >>= f) s ≡ (err x, (m s).1)
>>=_of_err m f s e = rw (e, ◌>>=◌) refl

-- `if test: …` with no `else`.
abbrev pub when {ℓ} : {S E : Type ℓ} → Bool → Exec S E Unit → Exec S E Unit
when true m = m
when false m = pure tt

-- A predicate of the state that a call keeps, however it ends.
pub record Keeps {ℓ} {S E A : Type ℓ} (P : S → Type ℓ) (m : Exec S E A) : Type ℓ where
  pub kept : (s : S) → P s → P (m s).1

-- The rest of a block, behind what a call came to.
abbrev pub after {ℓ} : {S E A B : Type ℓ} → (A → Exec S E B) → Result E A × S → Result E B × S
after f (r, s) = elim r [ ok a ↦ f a s | err e ↦ raise e s ]

module _ {ℓ} {S E : Type ℓ} {P : S → Type ℓ} where
  -- A block keeps what its parts keep.
  pub Keeps-bind :
      {A B : Type ℓ} {m : Exec S E A} {f : A → Exec S E B}
      → Keeps P m
      → ((a : A) → Keeps P (f a))
      → Keeps P (m >>= f)
  Keeps-bind {m = m} {f = f} hm hf = record {
    kept = λ s p. elim (Result-cases (m s).0) [
      | inl (a, e) ↦ rw (e, ◌>>=◌) ((hf a).kept (m s).1 (hm.kept s p))
      | inr (x, e) ↦ rw (e, ◌>>=◌) (hm.kept s p)
    ];
  }

  -- A call that reads, or raises, without writing: the state behind it may use what it read.
  pub Keeps-read :
      {A B : Type ℓ} {m : Exec S E A} (f : A → Exec S E B)
      → ((s : S)
          → P s
          → ((x : E) × (m s ≡ (err x, s))) ⊎ ((a : A) × (m s ≡ (ok a, s)) × P (f a s).1))
      → Keeps P (m >>= f)
  Keeps-read {B = B} f h = record {
    kept = λ s p. elim (h s p) [
      | inl (x, c) ↦ subst (λ r. P (after {B = B} f r).1) (sym c) p
      | inr (a, c, q) ↦ subst (λ r. P (after {B = B} f r).1) (sym c) q
    ];
  }

  pub Keeps-then :
      {A B : Type ℓ} {m : Exec S E A} {n : Exec S E B} → Keeps P m → Keeps P n → Keeps P (m >> n)
  Keeps-then {m = m} {n = n} hm hn = Keeps-bind {m = m} {f = λ _. n} hm (λ _. hn)

  pub Keeps-when : {m : Exec S E Unit} (b : Bool) → Keeps P m → Keeps P (when b m)
  Keeps-when true h = h
  Keeps-when false h = record { kept = λ s p. p }

  pub Keeps-raise_if : (b : Bool) (e : E) → Keeps P (raise_if b e)
  Keeps-raise_if true e = record { kept = λ s p. p }
  Keeps-raise_if false e = record { kept = λ s p. p }

  pub Keeps-pure : {A : Type ℓ} (a : A) → Keeps P (pure {S = S} {E = E} a)
  Keeps-pure a = record { kept = λ s p. p }

  pub Keeps-raise : {A : Type ℓ} (e : E) → Keeps P (raise {S = S} {A = A} e)
  Keeps-raise e = record { kept = λ s p. p }

  pub Keeps-gets : {A : Type ℓ} (g : S → A) → Keeps P (gets {E = E} g)
  Keeps-gets g = record { kept = λ s p. p }

  pub Keeps-if :
      {A : Type ℓ} {m n : Exec S E A} (b : Bool)
      → Keeps P m
      → Keeps P n
      → Keeps P (if b then m else n)
  Keeps-if true h h' = h
  Keeps-if false h h' = h'

-- What a call gives that returned: from a predicate of the state before it to one of its value and of
-- the state behind it.
pub record Gives {ℓ} {S E A : Type ℓ} (P : S → Type ℓ) (m : Exec S E A) (Q : A → S → Type ℓ)
    : Type ℓ where
  pub gives : (s : S) (a : A) → P s → (m s).0 ≡ ok a → Q a (m s).1

ok_is_no_err {ℓ} : {E A : Type ℓ} {x : E} {a : A} {B : Type ℓ} → err x ≡ ok a → B
ok_is_no_err h = cc

-- A call raises or returns, and returns one value.
pub raised {ℓ ℓ₁} :
    {E A : Type ℓ} {o : Result E A} {x : E} {a : A} {B : Type ℓ₁} → o ≡ err x → o ≡ ok a → B
raised c e = cc

pub returned {ℓ} : {E A : Type ℓ} {o : Result E A} {a b : A} → o ≡ ok a → o ≡ ok b → a ≡ b
returned c e = cc

module _ {ℓ} {S E : Type ℓ} {P : S → Type ℓ} where
  pub gives_kept : {A : Type ℓ} {m : Exec S E A} → Keeps P m → Gives P m (λ _. P)
  gives_kept h = record { gives = λ s a p e. h.kept s p }

  pub gives_bind :
      {A B : Type ℓ} {m : Exec S E A} {f : A → Exec S E B} {R : B → S → Type ℓ} (Q : A → S → Type ℓ)
      → Gives P m Q
      → ((a : A) → Gives (Q a) (f a) R)
      → Gives P (m >>= f) R
  gives_bind {m = m} {f = f} Q hm hf = record {
    gives = λ s b p e. elim (Result-cases (m s).0) [
      | inl (a, h) ↦ rw (h, ◌>>=◌) ((hf a).gives (m s).1 b (hm.gives s a p h) (rw (h, ◌>>=◌) at e))
      | inr (x, h) ↦ ok_is_no_err (rw (h, ◌>>=◌) at e)
    ];
  }

  pub gives_then :
      {A B : Type ℓ} {m : Exec S E A} {n : Exec S E B} {R : B → S → Type ℓ}
      → Keeps P m
      → Gives P n R
      → Gives P (m >> n) R
  gives_then {m = m} {n = n} hm hn =
      gives_bind {m = m} {f = λ _. n} (λ _. P) (gives_kept hm) (λ _. hn)

  -- `if not test: …`, where the test says that the work is done already.
  pub Gives-unless :
      {m : Exec S E Unit} {R : S → Type ℓ} (b : Bool)
      → (b ≡ true → (s : S) → P s → R s)
      → Gives P m (λ _. R)
      → Gives P (when (not b) m) (λ _. R)
  Gives-unless true h g = record { gives = λ s u p e. h refl s p }
  Gives-unless false h g = g

  -- A call whose value is known, and which writes nothing.
  pub Gives-known :
      {A B : Type ℓ} {m : Exec S E A} (f : A → Exec S E B) {R : B → S → Type ℓ} (a : A)
      → ((s : S) → P s → m s ≡ (ok a, s))
      → Gives P (f a) R
      → Gives P (m >>= f) R
  Gives-known f {R} a k g = record {
    gives = λ s b p e.
        subst (λ y. R b (after f y).1) (sym (k s p))
          (g.gives s b p (subst (λ y. (after f y).0 ≡ ok b) (k s p) e));
  }

  pub Gives-if :
      {A : Type ℓ} {m n : Exec S E A} {R : A → S → Type ℓ} (b : Bool)
      → (b ≡ true → Gives P m R)
      → (b ≡ false → Gives P n R)
      → Gives P (if b then m else n) R
  Gives-if true h h' = h refl
  Gives-if false h h' = h' refl
