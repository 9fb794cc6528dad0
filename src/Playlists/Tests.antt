-- ===== src/Playlists/Tests.antt =====
-- Runs of the calls of src/ace_service/repository.py on a small playlist.
use audio_ventura.Base.{
  ℕ, ◌≡◌, refl, Option, true, false, some, [], ◌∷◌, ◌++◌, String, ok, err, lookup, update, unique,
  string_eq, nat_eq, ◌==◌,
}
use audio_ventura.Errors.{value_error}
use audio_ventura.Playlists.{
  PlaylistEntry, Rows, PlaylistStore, MediaView, ids, listing, list_playlist_entries, sorted,
  entries_of, reorder_playlist_entries, add_playlist_entry, is_in, size,
}
use audio_ventura.Playlists.Order.{list-reorder}
use audio_ventura.Playlists.Appending.{list-add}

abbrev an_entry : ℕ → PlaylistEntry
an_entry position = record {
  playlist_id = "p1";
  media_item_id = "m1";
  position = position;
  created_at = 1;
}

abbrev a_store : PlaylistStore
a_store = record {
  playlists = ("p1", record { title = "Mine"; updated_at = 1 }) ∷ [];
  entries = (1, an_entry 1024) ∷ (2, an_entry 3072) ∷ (3, an_entry 2048) ∷ [];
  next_entry_id = 4;
}

abbrev the_media : String → Option MediaView
the_media id = some (record { is_active = true; has_active_playback_file = true })

listed : ids (listing "p1" a_store) ≡ 1 ∷ 3 ∷ 2 ∷ []
unfolding sorted entries_of ids
listed = refl

foreign_order :
    (reorder_playlist_entries "p1" (1 ∷ 2 ∷ 9 ∷ []) 5 a_store).0
    ≡ err (value_error "playlist reorder is missing or has foreign entries")
unfolding reorder_playlist_entries lookup sorted entries_of ids size is_in
foreign_order = refl

unique_entries : unique a_store.entries ≡ true
unfolding unique lookup
unique_entries = refl

abbrev moved_rows : Rows
moved_rows = (2, an_entry 1024) ∷ (1, an_entry 2048) ∷ (3, an_entry 3072) ∷ []

new_order : (reorder_playlist_entries "p1" (2 ∷ 1 ∷ 3 ∷ []) 5 a_store).0 ≡ ok moved_rows
unfolding reorder_playlist_entries lookup sorted entries_of ids size is_in update
new_order = refl

added : (add_playlist_entry the_media "p1" "m2" 5 a_store).0 ≡ ok 4
unfolding add_playlist_entry lookup
added = refl

list-reorder_example :
    (shown : Rows) × (list_playlist_entries "p1"
        (reorder_playlist_entries "p1" (2 ∷ 1 ∷ 3 ∷ []) 5 a_store).1
      ≡ (ok shown, (reorder_playlist_entries "p1" (2 ∷ 1 ∷ 3 ∷ []) 5 a_store).1))
    × (ids shown ≡ 2 ∷ 1 ∷ 3 ∷ [])
list-reorder_example =
    list-reorder "p1" (2 ∷ 1 ∷ 3 ∷ []) 5 a_store moved_rows unique_entries new_order

list-add_example :
    (ids (listing "p1" (add_playlist_entry the_media "p1" "m2" 5 a_store).1)
      ≡ ids (listing "p1" a_store) ++ 4 ∷ [])
    × ((other : String)
        → ("p1" == other) ≡ false
        → listing other (add_playlist_entry the_media "p1" "m2" 5 a_store).1
          ≡ listing other a_store)
list-add_example = list-add the_media "p1" "m2" 5 a_store 4 added
