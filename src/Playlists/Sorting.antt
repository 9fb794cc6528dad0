-- ===== src/Playlists/Sorting.antt =====
-- The order in which src/ace_service/repository.py lists the entries of a playlist.
use audio_ventura.Base.{
  ℕ, ◌≡◌, refl, ap, sym, ◌∙◌, subst, Bool, true, false, ◌&&◌, ◌||◌, none, some, List, [], ◌∷◌, ◌==◌,
  nat_eq, ltb, if◌then◌else◌, is_none, lookup, unique, arith, Bool-cases, inl, inr,
}
use audio_ventura.Playlists.{PlaylistEntry, Rows, insert_sorted, sorted, ids, is_in, all_in}

-- Every row stands behind the position.
unfoldable pub below : ℕ → Rows → Bool
below c [] = true
below c ((i, e) ∷ t) = ltb c e.position && below c t

unfoldable pub remove : ℕ → Rows → Rows
remove k [] = []
remove k ((i, e) ∷ t) = let rest = remove k t in if i == k then rest else (i, e) ∷ rest

insert_sorted-first :
    (i : ℕ) (e : PlaylistEntry) (t : Rows)
    → below e.position t ≡ true
    → insert_sorted (i, e) t ≡ (i, e) ∷ t
unfolding insert_sorted below
insert_sorted-first i e [] h = refl
insert_sorted-first i e ((j, f) ∷ t) h = ground (arith, h)

insert_sorted-later :
    (i j : ℕ) (e f : PlaylistEntry) (t : Rows)
    → ltb e.position f.position ≡ true
    → insert_sorted (j, f) ((i, e) ∷ t) ≡ (i, e) ∷ insert_sorted (j, f) t
unfolding insert_sorted
insert_sorted-later i j e f t h = ground (arith, h)

below-insert_sorted :
    (c i : ℕ) (e : PlaylistEntry) (t : Rows)
    → below c (insert_sorted (i, e) t) ≡ (ltb c e.position && below c t)
unfolding below insert_sorted
below-insert_sorted c i e [] = refl
below-insert_sorted c i e ((j, f) ∷ t) = ground (arith, below-insert_sorted c i e t)

below-sorted : (c : ℕ) (t : Rows) → below c (sorted t) ≡ below c t
unfolding below sorted
below-sorted c [] = refl
below-sorted c ((i, e) ∷ t) = rw (below-insert_sorted c i e (sorted t), below-sorted c t) refl

remove-absent : (i : ℕ) (t : Rows) → lookup i t ≡ none → remove i t ≡ t
unfolding remove lookup
remove-absent i [] h = refl
remove-absent i ((j, f) ∷ t) h = ground (arith, remove-absent i t, h)

absent : (i : ℕ) (t : Rows) → is_none (lookup i t) ≡ true → lookup i t ≡ none
absent i t h = ground (arith, h)

own-first :
    (i : ℕ) (e : PlaylistEntry) (t : Rows)
    → lookup i t ≡ none
    → below e.position (remove i t) ≡ true
    → insert_sorted (i, e) (sorted t) ≡ (i, e) ∷ sorted (remove i t)
own-first i e t n b =
    let w = remove-absent i t n in
    insert_sorted-first i e (sorted t)
      (below-sorted e.position t ∙ subst (λ x. below e.position x ≡ true) w b)
    ∙ ap (λ x. (i, e) ∷ sorted x) (sym w)

found_here :
    (i j : ℕ) (e f : PlaylistEntry) (t : Rows)
    → lookup i ((j, f) ∷ t) ≡ some e
    → (j == i) ≡ true
    → f ≡ e
unfolding lookup
found_here i j e f t h s = cc (rw s at h)

found_behind :
    (i j : ℕ) (e f : PlaylistEntry) (t : Rows)
    → lookup i ((j, f) ∷ t) ≡ some e
    → (j == i) ≡ false
    → lookup i t ≡ some e
unfolding lookup
found_behind i j e f t h n = rw n at h

unique_here :
    (j : ℕ) (f : PlaylistEntry) (t : Rows) → unique ((j, f) ∷ t) ≡ true → lookup j t ≡ none
unfolding unique
unique_here j f t u = absent j t (ground (arith, u))

unique_behind :
    (j : ℕ) (f : PlaylistEntry) (t : Rows) → unique ((j, f) ∷ t) ≡ true → unique t ≡ true
unfolding unique
unique_behind j f t u = ground (arith, u)

below_here :
    (c i j : ℕ) (f : PlaylistEntry) (t : Rows)
    → below c (remove i ((j, f) ∷ t)) ≡ true
    → (j == i) ≡ true
    → below c (remove i t) ≡ true
unfolding remove
below_here c i j f t b s = rw s at b

below_behind :
    (c i j : ℕ) (f : PlaylistEntry) (t : Rows)
    → below c (remove i ((j, f) ∷ t)) ≡ true
    → (j == i) ≡ false
    → (ltb c f.position ≡ true) × (below c (remove i t) ≡ true)
unfolding remove below
below_behind c i j f t b n = let w = rw n at b in (ground (arith, w), ground (arith, w))

remove_here :
    (i j : ℕ) (f : PlaylistEntry) (t : Rows) → (j == i) ≡ true → remove i ((j, f) ∷ t) ≡ remove i t
unfolding remove
remove_here i j f t s = rw s refl

remove_behind :
    (i j : ℕ) (f : PlaylistEntry) (t : Rows)
    → (j == i) ≡ false
    → remove i ((j, f) ∷ t) ≡ (j, f) ∷ remove i t
unfolding remove
remove_behind i j f t n = rw n refl

-- The row in front of all others is listed first.
pub sorted-first :
    (i : ℕ) (e : PlaylistEntry) (t : Rows)
    → lookup i t ≡ some e
    → unique t ≡ true
    → below e.position (remove i t) ≡ true
    → sorted t ≡ (i, e) ∷ sorted (remove i t)
unfolding lookup sorted
sorted-first i e [] h u b = cc
sorted-first i e ((j, f) ∷ t) h u b = elim (Bool-cases (j == i)) [
  | inl s ↦
      let p = (nat_eq.same_iff j i).0 s in
      let q = found_here i j e f t h s in
      ap (λ x. insert_sorted (x, f) (sorted t)) p
      ∙ (ap (λ x. insert_sorted (i, x) (sorted t)) q
          ∙ (own-first i e t (subst (λ x. lookup x t ≡ none) p (unique_here j f t u))
                (below_here e.position i j f t b s)
              ∙ ap (λ x. (i, e) ∷ sorted x) (sym (remove_here i j f t s))))
  | inr n ↦
      let (l, c) = below_behind e.position i j f t b n in
      ap (insert_sorted (j, f))
        (sorted-first i e t (found_behind i j e f t h n) (unique_behind j f t u) c)
      ∙ (insert_sorted-later i j e f (sorted (remove i t)) l
          ∙ ap (λ x. (i, e) ∷ sorted x) (sym (remove_behind i j f t n)))
]

is_in-insert_sorted :
    (k i : ℕ) (e : PlaylistEntry) (t : Rows)
    → is_in k (ids (insert_sorted (i, e) t)) ≡ (i == k || is_in k (ids t))
unfolding is_in ids insert_sorted
is_in-insert_sorted k i e [] = refl
is_in-insert_sorted k i e ((j, f) ∷ t) = ground (arith, is_in-insert_sorted k i e t)

pub is_in-sorted : (k : ℕ) (t : Rows) → is_in k (ids (sorted t)) ≡ is_in k (ids t)
unfolding is_in ids sorted
is_in-sorted k [] = refl
is_in-sorted k ((i, e) ∷ t) = rw (is_in-insert_sorted k i e (sorted t), is_in-sorted k t) refl

pub all_in-sorted_right : (xs : List ℕ) (t : Rows) → all_in xs (ids (sorted t)) ≡ all_in xs (ids t)
unfolding all_in
all_in-sorted_right [] t = refl
all_in-sorted_right (x ∷ xs) t = rw (is_in-sorted x t, all_in-sorted_right xs t) refl

all_in-insert_sorted :
    (ys : List ℕ) (i : ℕ) (e : PlaylistEntry) (t : Rows)
    → all_in (ids (insert_sorted (i, e) t)) ys ≡ (is_in i ys && all_in (ids t) ys)
unfolding all_in ids insert_sorted
all_in-insert_sorted ys i e [] = refl
all_in-insert_sorted ys i e ((j, f) ∷ t) = ground (arith, all_in-insert_sorted ys i e t)

pub all_in-sorted_left : (ys : List ℕ) (t : Rows) → all_in (ids (sorted t)) ys ≡ all_in (ids t) ys
unfolding all_in ids sorted
all_in-sorted_left ys [] = refl
all_in-sorted_left ys ((i, e) ∷ t) =
    rw (all_in-insert_sorted ys i e (sorted t), all_in-sorted_left ys t) refl
