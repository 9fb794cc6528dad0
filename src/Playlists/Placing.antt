-- ===== src/Playlists/Placing.antt =====
-- Rows that src/ace_service/repository.py places in a given order.
use audio_ventura.Base.{
  ℕ, ◌+◌, ◌≡◌, refl, ap, sym, ◌∙◌, subst, Bool, true, false, ◌&&◌, ◌||◌, none, some, List, [], ◌∷◌,
  ◌==◌, nat_eq, string_eq, ltb, lookup, update, lookup-update, lookup-update_self, unique,
  unique-update, arith, Bool-cases, inl, inr,
}
use audio_ventura.Playlists.{
  PlaylistEntry, Rows, sorted, is_in, has_duplicates, all_in, ids, placed,
}
use audio_ventura.Playlists.Sorting.{below, remove, sorted-first}

abbrev pub at_position : ℕ → PlaylistEntry → PlaylistEntry
at_position position e = record e { position = position }

lookup-placed_other :
    (i : ℕ) (q : List ℕ) (b : ℕ) (t : Rows)
    → is_in i q ≡ false
    → lookup i (placed q b t) ≡ lookup i t
unfolding placed is_in
lookup-placed_other i [] b t n = refl
lookup-placed_other i (k ∷ q) b t n =
    lookup-placed_other i q (b + 1024) (update k (at_position b) t) (ground (arith, n))
    ∙ ground (arith, lookup-update k i (at_position b) t, n)

remove-update :
    (i k : ℕ) (f : PlaylistEntry → PlaylistEntry) (t : Rows)
    → remove i (update k f t) ≡ update k f (remove i t)
unfolding remove update
remove-update i k f [] = refl
remove-update i k f ((j, e) ∷ t) = ground (arith, remove-update i k f t)

remove-update_self :
    (i : ℕ) (f : PlaylistEntry → PlaylistEntry) (t : Rows) → remove i (update i f t) ≡ remove i t
unfolding remove update
remove-update_self i f [] = refl
remove-update_self i f ((j, e) ∷ t) = ground (arith, remove-update_self i f t)

remove-placed :
    (i : ℕ) (q : List ℕ) (b : ℕ) (t : Rows) → remove i (placed q b t) ≡ placed q b (remove i t)
unfolding placed
remove-placed i [] b t = refl
remove-placed i (k ∷ q) b t =
    remove-placed i q (b + 1024) (update k (at_position b) t)
    ∙ ap (placed q (b + 1024)) (remove-update i k (at_position b) t)

unique-placed : (q : List ℕ) (b : ℕ) (t : Rows) → unique (placed q b t) ≡ unique t
unfolding placed
unique-placed [] b t = refl
unique-placed (k ∷ q) b t =
    unique-placed q (b + 1024) (update k (at_position b) t) ∙ unique-update k (at_position b) t

-- Every row is still to be placed, or stands behind the position.
covered : ℕ → List ℕ → Rows → Bool
covered c q [] = true
covered c q ((i, e) ∷ t) = (is_in i q || ltb c e.position) && covered c q t

covered-update :
    (c k : ℕ) (q : List ℕ) (b : ℕ) (t : Rows)
    → ltb c b ≡ true
    → covered c (k ∷ q) t ≡ true
    → covered c q (update k (at_position b) t) ≡ true
unfolding covered update is_in
covered-update c k q b [] l h = refl
covered-update c k q b ((i, e) ∷ t) l h =
    ground (arith, covered-update c k q b t l, h, l, nat_eq.same_iff i k, nat_eq.same_iff k i)

covered-below : (c : ℕ) (t : Rows) → covered c [] t ≡ below c t
unfolding covered below is_in
covered-below c [] = refl
covered-below c ((i, e) ∷ t) = rw (covered-below c t) refl

later_position : (c b : ℕ) → ltb c b ≡ true → ltb c (b + 1024) ≡ true
later_position c b l = ground (arith, l)

below-placed :
    (c : ℕ) (q : List ℕ) (b : ℕ) (t : Rows)
    → ltb c b ≡ true
    → covered c q t ≡ true
    → below c (placed q b t) ≡ true
unfolding placed
below-placed c [] b t l h = sym (covered-below c t) ∙ h
below-placed c (k ∷ q) b t l h =
    below-placed c q (b + 1024) (update k (at_position b) t) (later_position c b l)
      (covered-update c k q b t l h)

covered-all : (c : ℕ) (q : List ℕ) (t : Rows) → all_in (ids t) q ≡ true → covered c q t ≡ true
unfolding covered all_in ids
covered-all c q [] h = refl
covered-all c q ((i, e) ∷ t) h = ground (arith, covered-all c q t, h)

all_in-remove :
    (i : ℕ) (q : List ℕ) (t : Rows)
    → all_in (ids t) (i ∷ q) ≡ true
    → all_in (ids (remove i t)) q ≡ true
unfolding all_in ids remove is_in
all_in-remove i q [] h = refl
all_in-remove i q ((j, e) ∷ t) h =
    ground (arith, all_in-remove i q t, h, nat_eq.same_iff i j, nat_eq.same_iff j i)

is_in-remove :
    (i j : ℕ) (t : Rows) → (j == i) ≡ false → is_in j (ids (remove i t)) ≡ is_in j (ids t)
unfolding ids remove is_in
is_in-remove i j [] n = refl
is_in-remove i j ((k, e) ∷ t) n =
    ground (
      arith,
      is_in-remove i j t n,
      n,
      nat_eq.same_iff k i,
      nat_eq.same_iff k j,
      nat_eq.same_iff j i,
    )

rest_in-remove :
    (i : ℕ) (q : List ℕ) (t : Rows)
    → is_in i q ≡ false
    → all_in q (ids t) ≡ true
    → all_in q (ids (remove i t)) ≡ true
unfolding all_in is_in
rest_in-remove i [] t n h = refl
rest_in-remove i (j ∷ q) t n h = ground (arith, rest_in-remove i q t, is_in-remove i j t, n, h)

lookup-remove : (i j : ℕ) (t : Rows) → lookup j t ≡ none → lookup j (remove i t) ≡ none
unfolding lookup remove
lookup-remove i j [] h = refl
lookup-remove i j ((k, e) ∷ t) h = ground (arith, lookup-remove i j t, h)

unique-remove : (i : ℕ) (t : Rows) → unique t ≡ true → unique (remove i t) ≡ true
unfolding unique remove
unique-remove i [] h = refl
unique-remove i ((j, e) ∷ t) h = ground (arith, unique-remove i t, lookup-remove i j t, h)

lookup-is_in :
    (i : ℕ) (t : Rows) → is_in i (ids t) ≡ true → (e : PlaylistEntry) × (lookup i t ≡ some e)
unfolding is_in ids lookup
lookup-is_in i [] h = cc
lookup-is_in i ((j, e) ∷ t) h = elim (Bool-cases (j == i)) [
  | inl s ↦ (e, rw s refl)
  | inr n ↦ rw n (lookup-is_in i t (rw n at h))
]

nothing_left : (t : Rows) → all_in (ids t) [] ≡ true → t ≡ []
unfolding all_in ids is_in
nothing_left [] h = refl
nothing_left ((i, e) ∷ t) h = cc

some_in :
    (i : ℕ) (q ys : List ℕ) → all_in (i ∷ q) ys ≡ true → (is_in i ys ≡ true) × (all_in q ys ≡ true)
unfolding all_in
some_in i q ys h = (ground (arith, h), ground (arith, h))

fresh_head :
    (i : ℕ) (q : List ℕ)
    → has_duplicates (i ∷ q) ≡ false
    → (is_in i q ≡ false) × (has_duplicates q ≡ false)
unfolding has_duplicates
fresh_head i q h = (ground (arith, h), ground (arith, h))

next_position : (b : ℕ) → ltb b (b + 1024) ≡ true
next_position b = ground arith

-- Rows that are placed in the order of their ids are listed in that order.
pub placed-ids :
    (q : List ℕ) (b : ℕ) (t : Rows)
    → unique t ≡ true
    → has_duplicates q ≡ false
    → all_in (ids t) q ≡ true
    → all_in q (ids t) ≡ true
    → ids (sorted (placed q b t)) ≡ q
unfolding placed ids sorted
placed-ids [] b t u d l r = ap (λ x. ids (sorted x)) (nothing_left t l)
placed-ids (i ∷ q) b t u d l r =
    let (n, d') = fresh_head i q d in
    let (m, r') = some_in i q (ids t) r in
    let (e, f) = lookup-is_in i t m in
    let one = update i (at_position b) t in
    let rest = remove i t in
    let w =
      remove-placed i q (b + 1024) one
      ∙ ap (placed q (b + 1024)) (remove-update_self i (at_position b) t) in
    ap ids (
      sorted-first i (at_position b e) (placed q (b + 1024) one)
        (lookup-placed_other i q (b + 1024) one n ∙ lookup-update_self i (at_position b) t f)
        (unique-placed q (b + 1024) one ∙ (unique-update i (at_position b) t ∙ u))
        (subst (λ x. below b x ≡ true) (sym w)
          (below-placed b q (b + 1024) rest (next_position b)
            (covered-all b q rest (all_in-remove i q t l)))))
    ∙ (ap (λ x. i ∷ ids (sorted x)) w
        ∙ ap (λ x. i ∷ x)
            (placed-ids q (b + 1024) rest (unique-remove i t u) d' (all_in-remove i q t l)
              (rest_in-remove i q t n r')))
