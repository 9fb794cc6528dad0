-- ===== src/Playlists.antt =====
-- The entries of a playlist in src/ace_service/repository.py, over the rows of `Playlist` and
-- `PlaylistEntry` in src/ace_service/models.py. The negative positions that a reorder writes between
-- its two flushes, so that no position is taken twice in the database, are left out: nothing reads
-- them, and the second loop writes every one of them again.
use audio_ventura.Base.{
  ℕ, suc, ◌+◌, ◌*◌, max, Bool, true, false, not, ◌&&◌, ◌||◌, Option, none, some, List, [], ◌∷◌,
  String, ◌==◌, nat_eq, string_eq, ltb, leb, if◌then◌else◌, Result, ok, err, Exec, pure, raise,
  raise_if, gets, modify, or_raise, ◌>>=◌, ◌>>◌, Table, lookup, update, insert,
}
use audio_ventura.Errors.{Failure, value_error, key_error}
pub mod Sorting
pub mod Placing
pub mod Order
pub mod Appending
mod Tests

pub record Playlist : Type 0 where
  pub title : String
  pub updated_at : ℕ

pub record PlaylistEntry : Type 0 where
  pub playlist_id : String
  pub media_item_id : String
  pub position : ℕ
  pub created_at : ℕ

abbrev pub Rows : Type 0
Rows = Table ℕ PlaylistEntry

pub record PlaylistStore : Type 0 where
  pub playlists : Table String Playlist
  pub entries : Rows
  pub next_entry_id : ℕ

abbrev pub Call : Type 0 → Type 0
Call A = Exec PlaylistStore Failure A

-- What an addition reads of a media item and its files.
pub record MediaView : Type 0 where
  pub is_active : Bool
  pub has_active_playback_file : Bool

-- `ORDER BY position, id`
unfoldable pub before : ℕ × PlaylistEntry → ℕ × PlaylistEntry → Bool
before (i, e) (j, f) = ltb e.position f.position || (e.position == f.position && leb i j)

unfoldable pub insert_sorted : ℕ × PlaylistEntry → Rows → Rows
unfolding before
insert_sorted x [] = x ∷ []
insert_sorted x (y ∷ ys) = if before x y then x ∷ y ∷ ys else y ∷ insert_sorted x ys

unfoldable pub sorted : Rows → Rows
unfolding insert_sorted
sorted [] = []
sorted (x ∷ xs) = insert_sorted x (sorted xs)

unfoldable pub entries_of : String → Rows → Rows
entries_of playlist_id [] = []
entries_of playlist_id ((id, e) ∷ t) =
    let rest = entries_of playlist_id t in
    if e.playlist_id == playlist_id then (id, e) ∷ rest else rest

unfoldable pub require_playlist : String → Call Playlist
require_playlist playlist_id s = or_raise (lookup playlist_id s.playlists) key_error s

abbrev pub listing : String → PlaylistStore → Rows
listing playlist_id s = sorted (entries_of playlist_id s.entries)

unfoldable pub list_playlist_entries : String → Call Rows
unfolding require_playlist sorted entries_of
list_playlist_entries playlist_id = do _ ← require_playlist playlist_id; gets (listing playlist_id)

-- `func.max`, and 0 where there is no entry.
unfoldable pub last_position : Rows → ℕ
last_position [] = 0
last_position ((id, e) ∷ t) = max e.position (last_position t)

abbrev pub touched : String → ℕ → PlaylistStore → PlaylistStore
touched playlist_id now s = record s {
  playlists = update playlist_id (λ p. record p { updated_at = now }) s.playlists;
}

abbrev pub new_entry : String → String → ℕ → PlaylistStore → PlaylistEntry
new_entry playlist_id media_item_id now s = record {
  playlist_id = playlist_id;
  media_item_id = media_item_id;
  position = last_position (entries_of playlist_id s.entries) + 1024;
  created_at = now;
}

abbrev pub with_entry : PlaylistEntry → PlaylistStore → PlaylistStore
with_entry e s = record s {
  entries = insert s.next_entry_id e s.entries;
  next_entry_id = suc s.next_entry_id;
}

unfoldable pub record_entry : String → String → ℕ → Call ℕ
unfolding last_position entries_of
record_entry playlist_id media_item_id now s = (
  ok s.next_entry_id,
  touched playlist_id now (with_entry (new_entry playlist_id media_item_id now s) s),
)

-- A missing playlist is reported before a missing media item.
unfoldable pub add_playlist_entry : (String → Option MediaView) → String → String → ℕ → Call ℕ
unfolding require_playlist record_entry
add_playlist_entry media playlist_id media_item_id now = do
  _ ← require_playlist playlist_id
  item ← (λ s. or_raise (media media_item_id) key_error s)
  raise_if (not item.is_active) (value_error "media item is not active")
  raise_if (not item.has_active_playback_file)
      (value_error "media item has no active playback file")
  record_entry playlist_id media_item_id now

unfoldable pub is_in : ℕ → List ℕ → Bool
is_in id [] = false
is_in id (x ∷ xs) = x == id || is_in id xs

unfoldable pub has_duplicates : List ℕ → Bool
unfolding is_in
has_duplicates [] = false
has_duplicates (x ∷ xs) = is_in x xs || has_duplicates xs

-- `set(xs) <= set(ys)`
unfoldable pub all_in : List ℕ → List ℕ → Bool
unfolding is_in
all_in [] ys = true
all_in (x ∷ xs) ys = is_in x ys && all_in xs ys

unfoldable pub size : List ℕ → ℕ
size [] = 0
size (x ∷ xs) = suc (size xs)

unfoldable pub ids : Rows → List ℕ
ids [] = []
ids ((id, e) ∷ t) = id ∷ ids t

abbrev pub same_set : List ℕ → List ℕ → Bool
same_set xs ys = all_in xs ys && all_in ys xs

unfoldable pub check_order : List ℕ → List ℕ → Result Failure Unit
unfolding has_duplicates all_in
check_order entry_ids current_ids =
    if ltb 2000 (size entry_ids)
    then err (value_error "playlist reorder contains too many entries")
    else if has_duplicates entry_ids
    then err (value_error "playlist reorder contains duplicate entry IDs")
    else if not (same_set entry_ids current_ids)
    then err (value_error "playlist reorder is missing or has foreign entries")
    else if not (size entry_ids == size current_ids)
    then err (value_error "playlist reorder is stale")
    else ok tt

-- The second loop: `by_id[entry_id].position = index * 1024`.
unfoldable pub placed : List ℕ → ℕ → Rows → Rows
placed [] position t = t
placed (id ∷ rest) position t =
    placed rest (position + 1024) (update id (λ e. record e { position = position }) t)

unfoldable pub found_rows : List ℕ → Rows → Rows
found_rows [] t = []
found_rows (id ∷ rest) t = elim (lookup id t) [
  | none ↦ found_rows rest t
  | some e ↦ (id, e) ∷ found_rows rest t
]

unfoldable pub reorder_playlist_entries : String → List ℕ → ℕ → Call Rows
unfolding require_playlist check_order placed found_rows
reorder_playlist_entries playlist_id entry_ids now = do
  _ ← require_playlist playlist_id
  current ← gets (listing playlist_id)
  (λ s. (check_order entry_ids (ids current), s))
  modify (λ s. touched playlist_id now (record s { entries = placed entry_ids 1024 s.entries }))
  gets (λ s. found_rows entry_ids s.entries)
