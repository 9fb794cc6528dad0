-- ===== src/Playlists/Appending.antt =====
-- An addition to a playlist in src/ace_service/repository.py.
use audio_ventura.Base.{
  ℕ, ◌+◌, ◌≡◌, refl, ap, sym, ◌∙◌, max, Bool, true, false, not, ◌&&◌, Option, none, some, [], ◌∷◌,
  ◌++◌, String, ◌==◌, nat_eq, string_eq, ltb, leb, lookup, insert, arith, Bool-cases, inl, inr, ok,
  raised, returned, after, ◌>>=◌, ◌>>◌, raise_if, or_raise,
}
use audio_ventura.Errors.{value_error, key_error}
use audio_ventura.Playlists.{
  Playlist, PlaylistEntry, Rows, PlaylistStore, Call, MediaView, insert_sorted, sorted, entries_of,
  listing, require_playlist, ids, last_position, touched, new_entry, with_entry, record_entry,
  add_playlist_entry,
}

-- Every row stands before the position.
above : ℕ → Rows → Bool
above c [] = true
above c ((i, e) ∷ t) = ltb e.position c && above c t

above_mono : (c d : ℕ) (t : Rows) → leb c d ≡ true → above c t ≡ true → above d t ≡ true
unfolding above
above_mono c d [] l h = refl
above_mono c d ((i, e) ∷ t) l h = ground (arith, above_mono c d t l, l, h)

bound_left : (a b : ℕ) → leb (b + 1024) (max a b + 1024) ≡ true
bound_left a b = ground arith

bound_head : (a b : ℕ) → ltb a (max a b + 1024) ≡ true
bound_head a b = ground arith

above-last : (t : Rows) → above (last_position t + 1024) t ≡ true
unfolding above last_position
above-last [] = refl
above-last ((i, e) ∷ t) = rw (bound_head e.position (last_position t)) (
    above_mono (last_position t + 1024) (max e.position (last_position t) + 1024) t
      (bound_left e.position (last_position t)) (above-last t))

insert_sorted-append :
    (i : ℕ) (e : PlaylistEntry) (k : ℕ) (x : PlaylistEntry) (t : Rows)
    → ltb e.position x.position ≡ true
    → insert_sorted (i, e) (t ++ (k, x) ∷ []) ≡ insert_sorted (i, e) t ++ (k, x) ∷ []
unfolding insert_sorted
insert_sorted-append i e k x [] l = ground (arith, l)
insert_sorted-append i e k x ((j, f) ∷ t) l = ground (arith, insert_sorted-append i e k x t l)

sorted-append :
    (k : ℕ) (x : PlaylistEntry) (t : Rows)
    → above x.position t ≡ true
    → sorted (t ++ (k, x) ∷ []) ≡ sorted t ++ (k, x) ∷ []
unfolding sorted above
sorted-append k x [] h = refl
sorted-append k x ((i, e) ∷ t) h =
    ap (insert_sorted (i, e)) (sorted-append k x t (ground (arith, h)))
    ∙ insert_sorted-append i e k x (sorted t) (ground (arith, h))

ids-append : (k : ℕ) (x : PlaylistEntry) (t : Rows) → ids (t ++ (k, x) ∷ []) ≡ ids t ++ k ∷ []
unfolding ids
ids-append k x [] = refl
ids-append k x ((i, e) ∷ t) = ap (λ l. i ∷ l) (ids-append k x t)

entries_of-insert :
    (p : String) (k : ℕ) (x : PlaylistEntry) (t : Rows)
    → (x.playlist_id == p) ≡ true
    → entries_of p (insert k x t) ≡ entries_of p t ++ (k, x) ∷ []
unfolding entries_of insert
entries_of-insert p k x [] h = rw h refl
entries_of-insert p k x ((i, e) ∷ t) h = ground (arith, entries_of-insert p k x t h)

entries_of-insert_other :
    (p : String) (k : ℕ) (x : PlaylistEntry) (t : Rows)
    → (x.playlist_id == p) ≡ false
    → entries_of p (insert k x t) ≡ entries_of p t
unfolding entries_of insert
entries_of-insert_other p k x [] h = rw h refl
entries_of-insert_other p k x ((i, e) ∷ t) h = ground (arith, entries_of-insert_other p k x t h)

module _ (media : String → Option MediaView) (playlist_id media_item_id : String) (now : ℕ) where
  abbrev recorded : PlaylistStore → PlaylistStore
  recorded s = touched playlist_id now (with_entry (new_entry playlist_id media_item_id now s) s)

  abbrev behind_item : MediaView → Call ℕ
  behind_item item =
      raise_if (not item.is_active) (value_error "media item is not active")
      >> (raise_if (not item.has_active_playback_file)
            (value_error "media item has no active playback file")
          >> record_entry playlist_id media_item_id now)

  abbrev behind_playlist : Playlist → Call ℕ
  behind_playlist _ = (λ s. or_raise (media media_item_id) key_error s) >>= behind_item

  item-written :
      (item : MediaView) (s : PlaylistStore) (id : ℕ)
      → (behind_item item s).0 ≡ ok id
      → (id ≡ s.next_entry_id) × ((behind_item item s).1 ≡ recorded s)
  unfolding record_entry
  item-written item s id h = elim (Bool-cases item.is_active) [
    | inr a ↦ raised {x = value_error "media item is not active"} refl (rw a at h)
    | inl a ↦ elim (Bool-cases item.has_active_playback_file) [
      | inr f ↦
          raised {x = value_error "media item has no active playback file"} refl (rw (a, f) at h)
      | inl f ↦ (returned (rw (a, f) at h) refl, rw (a, f) refl)
    ]
  ]

  view-written :
      (o : Option MediaView) (s : PlaylistStore) (id : ℕ)
      → (after behind_item (or_raise o key_error s)).0 ≡ ok id
      → (id ≡ s.next_entry_id) × ((after behind_item (or_raise o key_error s)).1 ≡ recorded s)
  view-written none s id h = raised {x = key_error} refl h
  view-written (some item) s id h = item-written item s id h

  playlist-written :
      (o : Option Playlist) (s : PlaylistStore) (id : ℕ)
      → (after behind_playlist (or_raise o key_error s)).0 ≡ ok id
      → (id ≡ s.next_entry_id) × ((after behind_playlist (or_raise o key_error s)).1 ≡ recorded s)
  playlist-written none s id h = raised {x = key_error} refl h
  playlist-written (some p) s id h = view-written (media media_item_id) s id h

  add-written :
      (s : PlaylistStore) (id : ℕ)
      → (add_playlist_entry media playlist_id media_item_id now s).0 ≡ ok id
      → (id ≡ s.next_entry_id)
        × ((add_playlist_entry media playlist_id media_item_id now s).1 ≡ recorded s)
  unfolding add_playlist_entry require_playlist
  add-written s id h = playlist-written (lookup playlist_id s.playlists) s id h

  listing-recorded :
      (s : PlaylistStore)
      → ids (listing playlist_id (recorded s)) ≡ ids (listing playlist_id s) ++ s.next_entry_id ∷ []
  listing-recorded s =
      let e = new_entry playlist_id media_item_id now s in
      let t = entries_of playlist_id s.entries in
      ap (λ x. ids (sorted x))
        (entries_of-insert playlist_id s.next_entry_id e s.entries
          ((string_eq.same_iff playlist_id playlist_id).1 refl))
      ∙ (ap ids (sorted-append s.next_entry_id e t (above-last t))
          ∙ ids-append s.next_entry_id e (sorted t))

  -- An addition that returned lists its entry behind all others of the playlist, and every other
  -- playlist as before.
  pub list-add :
      (s : PlaylistStore) (id : ℕ)
      → (add_playlist_entry media playlist_id media_item_id now s).0 ≡ ok id
      → (ids (listing playlist_id (add_playlist_entry media playlist_id media_item_id now s).1)
          ≡ ids (listing playlist_id s) ++ id ∷ [])
        × ((other : String)
            → (playlist_id == other) ≡ false
            → listing other (add_playlist_entry media playlist_id media_item_id now s).1
              ≡ listing other s)
  list-add s id h =
      let (e, w) = add-written s id h in
      (
        ap (λ x. ids (listing playlist_id x)) w
            ∙ (listing-recorded s ∙ ap (λ x. ids (listing playlist_id s) ++ x ∷ []) (sym e)),
        λ other n.
            ap (listing other) w
            ∙ ap sorted (
                entries_of-insert_other other s.next_entry_id
                  (new_entry playlist_id media_item_id now s) s.entries n),
      )
