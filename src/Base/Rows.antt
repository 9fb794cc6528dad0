-- ===== src/Base/Rows.antt =====
-- A table of the database: rows behind their primary keys. `update` writes a row where the program
-- assigns to an object that the session holds.
use mathlib.Core.Path.{◌≡◌, refl, ap}
use mathlib.Core.Bool.{Bool, true, false, ◌&&◌}
use mathlib.Core.Option.{Option, none, some}
use mathlib.Core.List.{List, [], ◌∷◌, ◌++◌}
use mathlib.Core.Logic.{inl, inr}
use native.Mathlib.Omega.{arith}
use audio_ventura.Base.Tests.{is_none, Eq, ◌==◌, if◌then◌else◌, Bool-cases}

abbrev pub Table {ℓ} : Type ℓ → Type ℓ → Type ℓ
Table K V = List (K × V)

module _ {ℓ} {V : Type ℓ} where
  abbrev pub map_row : (V → V) → Option V → Option V
  map_row f none = none
  map_row f (some v) = some (f v)

  abbrev pub or_row : Option V → Option V → Option V
  or_row none o = o
  or_row (some v) o = some v

module _ {ℓ} {K V : Type ℓ} ⦃e : Eq K⦄ where
  unfoldable pub lookup : K → Table K V → Option V
  lookup k [] = none
  lookup k ((j, v) ∷ t) = if j == k then some v else lookup k t

  unfoldable pub update : K → (V → V) → Table K V → Table K V
  update k f [] = []
  update k f ((j, v) ∷ t) = (j, if j == k then f v else v) ∷ update k f t

  -- A new row, behind the others.
  unfoldable pub insert : K → V → Table K V → Table K V
  insert k v t = t ++ (k, v) ∷ []

  pub lookup-update :
      (k j : K) (f : V → V) (t : Table K V)
      → lookup j (update k f t) ≡ (if j == k then map_row f (lookup j t) else lookup j t)
  unfolding lookup update
  lookup-update k j f [] = ground arith
  lookup-update k j f ((i, v) ∷ t) =
      ground (arith, e.same_iff i k, e.same_iff i j, e.same_iff j k, lookup-update k j f t)

  pub lookup-update_self :
      (k : K) (f : V → V) (t : Table K V) {v : V}
      → lookup k t ≡ some v
      → lookup k (update k f t) ≡ some (f v)
  lookup-update_self k f t h = rw (lookup-update k k f t, (e.same_iff k k).1 refl, h) refl

  pub lookup-insert :
      (k j : K) (v : V) (t : Table K V)
      → lookup j (insert k v t) ≡ or_row (lookup j t) (if k == j then some v else none)
  unfolding lookup insert
  lookup-insert k j v [] = refl
  lookup-insert k j v ((i, w) ∷ t) = ground (arith, lookup-insert k j v t)

-- A view of a row, such as one of its columns.
abbrev pub viewed {ℓ} : {V W : Type ℓ} → (V → W) → Option V → Option W
viewed g none = none
viewed g (some v) = some (g v)

viewed-map_row {ℓ} :
    {V W : Type ℓ} (g : V → W) (f : V → V) (o : Option V)
    → ((v : V) → g (f v) ≡ g v)
    → viewed g (map_row f o) ≡ viewed g o
viewed-map_row g f none h = refl
viewed-map_row g f (some v) h = ap some (h v)

viewed-or_row {ℓ} :
    {V W : Type ℓ} (g : V → W) (o p : Option V) {w : W}
    → viewed g o ≡ some w
    → viewed g (or_row o p) ≡ some w
viewed-or_row g none p h = cc
viewed-or_row g (some v) p h = h

viewed-some {ℓ} :
    {V W : Type ℓ} (g : V → W) {o : Option V} {v : V} {w : W}
    → o ≡ some v
    → viewed g o ≡ some w
    → g v ≡ w
viewed-some g r h = cc

viewed-map_row_all {ℓ} :
    {V W : Type ℓ} (g : V → W) (f : V → V) (o : Option V) {w : W}
    → ((v : V) → g v ≡ w → g (f v) ≡ w)
    → viewed g o ≡ some w
    → viewed g (map_row f o) ≡ some w
viewed-map_row_all g f none h p = cc
viewed-map_row_all g f (some v) h p = ap some (h v (viewed-some g {o = some v} refl p))

pub is_none-map_row {ℓ} :
    {V : Type ℓ} (f : V → V) (o : Option V) → is_none (map_row f o) ≡ is_none o
is_none-map_row f none = refl
is_none-map_row f (some v) = refl

module _ {ℓ} {K V W : Type ℓ} ⦃e : Eq K⦄ (g : V → W) where
  -- A write that leaves the view of every row alone.
  pub viewed-update :
      (k j : K) (f : V → V) (t : Table K V)
      → ((v : V) → g (f v) ≡ g v)
      → viewed g (lookup j (update k f t)) ≡ viewed g (lookup j t)
  viewed-update k j f t h = elim (Bool-cases (j == k)) [
    | inl b ↦ rw (lookup-update k j f t, b) (viewed-map_row g f (lookup j t) h)
    | inr b ↦ rw (lookup-update k j f t, b) refl
  ]

  -- A write of a row that leaves its view alone.
  pub viewed-update_row :
      (k j : K) (f : V → V) (t : Table K V) {v : V} {w : W}
      → lookup k t ≡ some v
      → (g v ≡ w → g (f v) ≡ w)
      → viewed g (lookup j t) ≡ some w
      → viewed g (lookup j (update k f t)) ≡ some w
  viewed-update_row k j f t {v} {w} r h p = elim (Bool-cases (j == k)) [
    | inl b ↦
        rw (lookup-update k j f t, b, (e.same_iff j k).0 b, r)
          (ap some (h (viewed-some g r (rw ((e.same_iff j k).0 b) at p))))
    | inr b ↦ rw (lookup-update k j f t, b) p
  ]

  -- A write of another row.
  pub viewed-update_other :
      (k j : K) (f : V → V) (t : Table K V)
      → (j == k) ≡ false
      → viewed g (lookup j (update k f t)) ≡ viewed g (lookup j t)
  viewed-update_other k j f t b = rw (lookup-update k j f t, b) refl

  pub viewed-insert :
      (k j : K) (v : V) (t : Table K V) {w : W}
      → viewed g (lookup j t) ≡ some w
      → viewed g (lookup j (insert k v t)) ≡ some w
  viewed-insert k j v t p =
      rw (lookup-insert k j v t) (viewed-or_row g (lookup j t) (if k == j then some v else none) p)

  -- A write that leaves the rows alone which show the value already.
  pub viewed-update_all :
      (k j : K) (f : V → V) (t : Table K V) {w : W}
      → ((v : V) → g v ≡ w → g (f v) ≡ w)
      → viewed g (lookup j t) ≡ some w
      → viewed g (lookup j (update k f t)) ≡ some w
  viewed-update_all k j f t h p = elim (Bool-cases (j == k)) [
    | inl b ↦ rw (lookup-update k j f t, b) (viewed-map_row_all g f (lookup j t) h p)
    | inr b ↦ rw (lookup-update k j f t, b) p
  ]

module _ {ℓ} {K V : Type ℓ} ⦃e : Eq K⦄ where
  -- No key stands before two rows.
  unfoldable pub unique : Table K V → Bool
  unique [] = true
  unique ((k, v) ∷ t) = is_none (lookup k t) && unique t

  is_none-update :
      (k j : K) (f : V → V) (t : Table K V)
      → is_none (lookup j (update k f t)) ≡ is_none (lookup j t)
  is_none-update k j f t = elim (Bool-cases (j == k)) [
    | inl b ↦ rw (lookup-update k j f t, b) (is_none-map_row f (lookup j t))
    | inr b ↦ rw (lookup-update k j f t, b) refl
  ]

  pub unique-update : (k : K) (f : V → V) (t : Table K V) → unique (update k f t) ≡ unique t
  unfolding unique update
  unique-update k f [] = refl
  unique-update k f ((j, v) ∷ t) = rw (is_none-update k j f t, unique-update k f t) refl

  pub unique-insert :
      (k : K) (v : V) (t : Table K V)
      → unique t ≡ true
      → lookup k t ≡ none
      → unique (insert k v t) ≡ true
  unfolding unique insert lookup
  unique-insert k v [] u n = refl
  unique-insert k v ((j, w) ∷ t) u n =
      ground (arith, e.same_iff j k, e.same_iff k j, lookup-insert k j v t, unique-insert k v t)

  -- A write of every row, as a query over the table makes it.
  unfoldable pub map_rows : (V → V) → Table K V → Table K V
  map_rows f [] = []
  map_rows f ((k, v) ∷ t) = (k, f v) ∷ map_rows f t

  pub lookup-map_rows :
      (f : V → V) (k : K) (t : Table K V) → lookup k (map_rows f t) ≡ map_row f (lookup k t)
  unfolding lookup map_rows
  lookup-map_rows f k [] = refl
  lookup-map_rows f k ((j, v) ∷ t) = ground (arith, lookup-map_rows f k t)

  pub unique-map_rows : (f : V → V) (t : Table K V) → unique (map_rows f t) ≡ unique t
  unfolding unique map_rows
  unique-map_rows f [] = refl
  unique-map_rows f ((j, v) ∷ t) =
      rw (lookup-map_rows f j t, is_none-map_row f (lookup j t), unique-map_rows f t) refl

  -- The first row that a test holds of.
  unfoldable pub find_row : (V → Bool) → Table K V → Option (K × V)
  find_row g [] = none
  find_row g ((k, v) ∷ t) = if g v then some (k, v) else find_row g t

  pub find_row-lookup :
      (g : V → Bool) (t : Table K V) (k : K) (v : V)
      → unique t ≡ true
      → find_row g t ≡ some (k, v)
      → lookup k t ≡ some v
  unfolding find_row lookup unique
  find_row-lookup g [] k v u h = cc
  find_row-lookup g ((j, w) ∷ t) k v u h = ground (arith, find_row-lookup g t k v, e.same_iff j k)

  -- Two writes of a row are one.
  pub update-update :
      (k : K) (f g : V → V) (t : Table K V) → update k g (update k f t) ≡ update k (λ v. g (f v)) t
  unfolding update
  update-update k f g [] = refl
  update-update k f g ((j, v) ∷ t) = elim (Bool-cases (j == k)) [
    | inl b ↦ rw (b, update-update k f g t) refl
    | inr b ↦ rw (b, update-update k f g t) refl
  ]

  pub find_row-holds :
      (g : V → Bool) (t : Table K V) (k : K) (v : V) → find_row g t ≡ some (k, v) → g v ≡ true
  unfolding find_row
  find_row-holds g [] k v h = cc
  find_row-holds g ((j, w) ∷ t) k v h = elim (Bool-cases (g w)) [
    | inl b ↦ cc (rw b at h)
    | inr b ↦ find_row-holds g t k v (rw b at h)
  ]
