-- ===== src/Base/Keys.antt =====
-- Predicates and sums over the rows of a table whose keys are unique.
use Prim.Native.Nat.{ℕ, ◌+◌}
use mathlib.Core.Path.{◌≡◌, refl, sym, subst, ◌∙◌}
use mathlib.Core.Bool.{true, false}
use mathlib.Core.Option.{none, some}
use mathlib.Core.List.{[], ◌∷◌}
use mathlib.Core.Logic.{inl, inr}
use native.Mathlib.Omega.{arith}
use audio_ventura.Base.Tests.{Eq, ◌==◌, Bool-cases, Option-cases}
use audio_ventura.Base.Rows.{Table, insert, lookup, map_rows, unique, update}

module _ {ℓ} {K V : Type ℓ} ⦃e : Eq K⦄ where
  -- Every row is so.
  abbrev pub AllRows {κ} : (V → Type κ) → Table K V → Type κ
  AllRows P [] = Unit
  AllRows P ((k, v) ∷ t) = P v × AllRows P t

  pub AllRows-map {κ} :
      (P Q : V → Type κ) (t : Table K V) → ((v : V) → P v → Q v) → AllRows P t → AllRows Q t
  AllRows-map P Q [] h p = tt
  AllRows-map P Q ((k, v) ∷ t) h p = (h v p.0, AllRows-map P Q t h p.1)

  pub AllRows-insert {κ} :
      (P : V → Type κ) (k : K) (v : V) (t : Table K V)
      → P v
      → AllRows P t
      → AllRows P (insert k v t)
  unfolding insert
  AllRows-insert P k v [] q p = (q, tt)
  AllRows-insert P k v ((j, w) ∷ t) q p = (p.0, AllRows-insert P k v t q p.1)

  pub AllRows-map_rows {κ} :
      (P : V → Type κ) (f : V → V) (t : Table K V)
      → ((v : V) → P v → P (f v))
      → AllRows P t
      → AllRows P (map_rows f t)
  unfolding map_rows
  AllRows-map_rows P f [] h p = tt
  AllRows-map_rows P f ((k, v) ∷ t) h p = (h v p.0, AllRows-map_rows P f t h p.1)

  pub AllRows-lookup {κ} :
      (P : V → Type κ) (k : K) (t : Table K V) {v : V} → lookup k t ≡ some v → AllRows P t → P v
  unfolding lookup
  AllRows-lookup P k [] e p = cc
  AllRows-lookup P k ((j, w) ∷ t) {v} e p = elim (Bool-cases (j == k)) [
    | inl b ↦ subst P (cc (rw b at e)) p.0
    | inr b ↦ AllRows-lookup P k t (rw b at e) p.1
  ]

  abbrev pub sum_rows : (V → ℕ) → Table K V → ℕ
  sum_rows w [] = 0
  sum_rows w ((k, v) ∷ t) = w v + sum_rows w t

  pub update-absent : (k : K) (f : V → V) (t : Table K V) → lookup k t ≡ none → update k f t ≡ t
  unfolding lookup update
  update-absent k f [] n = refl
  update-absent k f ((j, v) ∷ t) n = elim (Bool-cases (j == k)) [
    | inl b ↦ cc (rw b at n)
    | inr b ↦ rw (b, update-absent k f t (rw b at n)) refl
  ]

  unique-rest : (j : K) (x : V) (t : Table K V) → unique ((j, x) ∷ t) ≡ true → unique t ≡ true
  unfolding unique
  unique-rest j x t u = ground arith

  absent_behind : (j : K) (x : V) (t : Table K V) → unique ((j, x) ∷ t) ≡ true → lookup j t ≡ none
  unfolding unique
  absent_behind j x t u = elim (Option-cases (lookup j t)) [
    | inl n ↦ n
    | inr (y, n) ↦ cc (rw n at u)
  ]

  -- The rest of a table is as it was where the first row is the one that is written.
  rest_unwritten :
      (j k : K) (f : V → V) (x : V) (t : Table K V)
      → unique ((j, x) ∷ t) ≡ true
      → (j == k) ≡ true
      → update k f t ≡ t
  rest_unwritten j k f x t u b =
      update-absent k f t
        (subst (λ y. lookup y t ≡ none) ((e.same_iff j k).0 b) (absent_behind j x t u))

  lookup-first :
      (j k : K) (x v : V) (t : Table K V) → (j == k) ≡ true → lookup k ((j, x) ∷ t) ≡ some v → x ≡ v
  unfolding lookup
  lookup-first j k x v t b h = cc (rw b at h)

  lookup-later :
      (j k : K) (x : V) (t : Table K V) → (j == k) ≡ false → lookup k ((j, x) ∷ t) ≡ lookup k t
  unfolding lookup
  lookup-later j k x t b = rw b refl

  -- One row is written, and stands alone behind its key.
  pub AllRows-update {κ} :
      (P : V → Type κ) (k : K) (f : V → V) (t : Table K V) {v : V}
      → unique t ≡ true
      → lookup k t ≡ some v
      → P (f v)
      → AllRows P t
      → AllRows P (update k f t)
  unfolding lookup update
  AllRows-update P k f [] u h q p = tt
  AllRows-update P k f ((j, x) ∷ t) {v} u h q p = elim (Bool-cases (j == k)) [
    | inl b ↦ rw b (
      subst (λ y. P (f y)) (sym (lookup-first j k x v t b h)) q,
      subst (AllRows P) (sym (rest_unwritten j k f x t u b)) p.1,
    )
    | inr b ↦
        rw b (
          p.0,
          AllRows-update P k f t (unique-rest j x t u) (sym (lookup-later j k x t b) ∙ h) q p.1,
        )
  ]

  pub sum_rows-update :
      (w : V → ℕ) (k : K) (f : V → V) (t : Table K V) {v : V}
      → unique t ≡ true
      → lookup k t ≡ some v
      → sum_rows w (update k f t) + w v ≡ sum_rows w t + w (f v)
  unfolding lookup update
  sum_rows-update w k f [] u h = cc
  sum_rows-update w k f ((j, x) ∷ t) {v} u h = elim (Bool-cases (j == k)) [
    | inl b ↦ rw (b, rest_unwritten j k f x t u b, lookup-first j k x v t b h) (omega arith)
    | inr b ↦ rw b (
        omega
          (arith, sum_rows-update w k f t (unique-rest j x t u) (sym (lookup-later j k x t b) ∙ h)))
  ]
