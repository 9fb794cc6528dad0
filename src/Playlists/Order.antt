-- ===== src/Playlists/Order.antt =====
-- The reordering of a playlist in src/ace_service/repository.py.
use audio_ventura.Base.{
  ℕ, ◌+◌, ◌≡◌, refl, ap, sym, ◌∙◌, subst, true, false, none, some, List, [], ◌∷◌, String, nat_eq,
  string_eq, lookup, update, lookup-update_self, unique, arith, Option-cases, Result-cases, inl,
  inr, ok, err, raised, after, gets, modify, ◌>>=◌, ◌>>◌,
}
use audio_ventura.Errors.{key_error}
use audio_ventura.Playlists.{
  Playlist, Rows, PlaylistStore, Call, sorted, entries_of, listing, require_playlist,
  list_playlist_entries, has_duplicates, all_in, ids, check_order, placed, found_rows, touched,
  reorder_playlist_entries,
}
use audio_ventura.Playlists.Sorting.{all_in-sorted_left, all_in-sorted_right}
use audio_ventura.Playlists.Placing.{at_position, placed-ids}

entries_of-update :
    (p : String) (k b : ℕ) (t : Rows)
    → entries_of p (update k (at_position b) t) ≡ update k (at_position b) (entries_of p t)
unfolding entries_of update
entries_of-update p k b [] = refl
entries_of-update p k b ((i, e) ∷ t) = ground (arith, entries_of-update p k b t)

entries_of-placed :
    (p : String) (q : List ℕ) (b : ℕ) (t : Rows)
    → entries_of p (placed q b t) ≡ placed q b (entries_of p t)
unfolding placed
entries_of-placed p [] b t = refl
entries_of-placed p (k ∷ q) b t =
    entries_of-placed p q (b + 1024) (update k (at_position b) t)
    ∙ ap (placed q (b + 1024)) (entries_of-update p k b t)

lookup-entries_of :
    (p : String) (i : ℕ) (t : Rows) → lookup i t ≡ none → lookup i (entries_of p t) ≡ none
unfolding entries_of lookup
lookup-entries_of p i [] h = refl
lookup-entries_of p i ((j, e) ∷ t) h = ground (arith, lookup-entries_of p i t, h)

unique-entries_of : (p : String) (t : Rows) → unique t ≡ true → unique (entries_of p t) ≡ true
unfolding entries_of unique
unique-entries_of p [] h = refl
unique-entries_of p ((j, e) ∷ t) h =
    ground (arith, unique-entries_of p t, lookup-entries_of p j t, h)

checked :
    (q current : List ℕ)
    → check_order q current ≡ ok tt
    → (has_duplicates q ≡ false) × (all_in q current ≡ true) × (all_in current q ≡ true)
unfolding check_order
checked q current h = (ground (arith, h), ground (arith, h), ground (arith, h))

module _ (playlist_id : String) (q : List ℕ) (now : ℕ) where
  abbrev moved : PlaylistStore → PlaylistStore
  moved s = touched playlist_id now (record s { entries = placed q 1024 s.entries })

  listing-moved :
      (s : PlaylistStore)
      → unique s.entries ≡ true
      → check_order q (ids (listing playlist_id s)) ≡ ok tt
      → ids (listing playlist_id (moved s)) ≡ q
  listing-moved s u c =
      let t = entries_of playlist_id s.entries in
      let (d, r, l) = checked q (ids (listing playlist_id s)) c in
      ap (λ x. ids (sorted x)) (entries_of-placed playlist_id q 1024 s.entries)
      ∙ placed-ids q 1024 t (unique-entries_of playlist_id s.entries u) d
          (sym (all_in-sorted_left q t) ∙ l) (sym (all_in-sorted_right q t) ∙ r)

  abbrev behind_listing : Rows → Call Rows
  behind_listing current =
      (λ s. (check_order q (ids current), s))
      >> (modify moved >> gets (λ s. found_rows q s.entries))

  abbrev behind_playlist : Playlist → Call Rows
  behind_playlist _ = gets (listing playlist_id) >>= behind_listing

  require-none :
      (s : PlaylistStore)
      → lookup playlist_id s.playlists ≡ none
      → require_playlist playlist_id s ≡ (err key_error, s)
  unfolding require_playlist
  require-none s e = rw e refl

  require-some :
      (s : PlaylistStore) (p : Playlist)
      → lookup playlist_id s.playlists ≡ some p
      → require_playlist playlist_id s ≡ (ok p, s)
  unfolding require_playlist
  require-some s p e = rw e refl

  reorder-written :
      (s : PlaylistStore) (r : Rows)
      → (reorder_playlist_entries playlist_id q now s).0 ≡ ok r
      → (p : Playlist) × (lookup playlist_id s.playlists ≡ some p)
        × (check_order q (ids (listing playlist_id s)) ≡ ok tt)
        × ((reorder_playlist_entries playlist_id q now s).1 ≡ moved s)
  unfolding reorder_playlist_entries
  reorder-written s r h = elim (Option-cases (lookup playlist_id s.playlists)) [
    | inl e ↦ raised (ap (λ y. (after behind_playlist y).0) (require-none s e)) h
    | inr (p, e) ↦ elim (Result-cases (check_order q (ids (listing playlist_id s)))) [
      | inl (_, c) ↦
          (p, e, c, ap (λ y. (after behind_playlist y).1) (require-some s p e) ∙ rw c refl)
      | inr (x, c) ↦
          raised {x = x} (ap (λ y. (after behind_playlist y).0) (require-some s p e) ∙ rw c refl) h
    ]
  ]

  list-known :
      (s : PlaylistStore) (p : Playlist)
      → lookup playlist_id s.playlists ≡ some p
      → list_playlist_entries playlist_id s ≡ (ok (listing playlist_id s), s)
  unfolding list_playlist_entries
  list-known s p e = ap (after (λ _. gets (listing playlist_id))) (require-some s p e)

  -- After a reorder returned, over entries with unique ids, the playlist is listed, and its entries are
  -- the requested ones in the requested order.
  pub list-reorder :
      (s : PlaylistStore) (r : Rows)
      → unique s.entries ≡ true
      → (reorder_playlist_entries playlist_id q now s).0 ≡ ok r
      → (listed : Rows) × (list_playlist_entries playlist_id
            (reorder_playlist_entries playlist_id q now s).1
          ≡ (ok listed, (reorder_playlist_entries playlist_id q now s).1))
        × (ids listed ≡ q)
  list-reorder s r u h =
      let (p, e, c, w) = reorder-written s r h in
      subst
        (λ s'.
          (listed : Rows) × (list_playlist_entries playlist_id s' ≡ (ok listed, s'))
          × (ids listed ≡ q))
        (sym w)
        (
          listing playlist_id (moved s),
          list-known (moved s) (record p { updated_at = now })
              (lookup-update_self playlist_id (λ p. record p { updated_at = now }) s.playlists e),
          listing-moved s u c,
        )
