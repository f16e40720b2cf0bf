-- ===== src/Playlists.antt =====
-- The suggested playlists, page by page: the table `playlists` (db/gen/playlists.sql.go) and
-- GetSuggestedPlaylists of internal/api/video_service.go. The call of YouTube that loads the
-- details of playlists is a parameter; its answer is a map, and the zero value stands for a key
-- that it does not have.
pub mod Client
pub mod Ordered
pub mod Followed
use Prim.Native.String.{String}
use text.Mathlib.Text.{◌==◌ as str_eq}
use qarau.Common.{
  ℕ, zero, suc, ◌+◌, ◌-◌, Bool, true, false, not, ◌&&◌, Option, none, some, List, [], ◌∷◌,
  if◌then◌else◌, ltb, leb, length, take, map,
}
use qarau.Common.Int.{ℤ, pos, sub_ℕ, pos_part, neg_part, leb_ℤ, ltb_ℤ, int32}
use qarau.Common.Result.{Result, ok, err, panic, invalid_argument}
use qarau.Common.Tables.{update_where}
use qarau.Common.Sorted.{select_by_seq}
use qarau.Common.Sorted.Parts.{keep}
use qarau.Breakdowns.{eq_ℤ}

-- A row of the table.
pub record PlaylistRow : Type 0 where
  pub id : ℤ
  pub online_playlist_id : String
  pub error : Option String
  pub title : String
  pub item_count : ℤ
  pub thumbnail_url : String
  pub thumbnail_width : ℤ
  pub thumbnail_height : ℤ
  pub created_at : ℕ

pub record Playlist : Type 0 where
  pub online_playlist_id : String
  pub title : String
  pub thumbnail_url : String
  pub thumbnail_width : ℤ
  pub thumbnail_height : ℤ
  pub item_count : ℤ

pub record PlaylistLoad : Type 0 where
  pub playlist : Option Playlist
  pub err_msg : String

-- ORDER BY id DESC is the order of the negated numbers.
abbrev pub neg_ℤ : ℤ → ℤ
neg_ℤ a = sub_ℕ (neg_part a) (pos_part a)

abbrev pub key : PlaylistRow → ℤ
key r = neg_ℤ r.id

abbrev pub has_no_error : Option String → Bool
has_no_error none = true
has_no_error (some e) = false

abbrev pub is_before : Option ℤ → ℤ → Bool
is_before none id = true
is_before (some cursor) id = ltb_ℤ id cursor

abbrev pub is_listed : Option ℤ → PlaylistRow → Bool
is_listed cursor r = has_no_error r.error && is_before cursor r.id

-- ListPlaylists: LIMIT refuses a negative number.
unfoldable pub list_playlists : Option ℤ → ℤ → List PlaylistRow → Result (List PlaylistRow)
unfolding select_by_seq
list_playlists cursor limit rows =
    if ltb_ℤ limit (pos 0)
    then err invalid_argument
    else ok (take (pos_part limit) (select_by_seq key (is_listed cursor) rows))

abbrev pub has_playlist_id : ℤ → PlaylistRow → Bool
has_playlist_id id r = eq_ℤ r.id id

-- UpdatePlaylistDetails
unfoldable pub update_playlist_details : Playlist → ℤ → List PlaylistRow → List PlaylistRow
unfolding update_where
update_playlist_details p id = update_where (has_playlist_id id) (λ r. record r {
  error = none;
  title = p.title;
  item_count = p.item_count;
  thumbnail_url = p.thumbnail_url;
  thumbnail_width = p.thumbnail_width;
  thumbnail_height = p.thumbnail_height;
})

-- UpdatePlaylistWithError
unfoldable pub update_playlist_with_error : String → ℤ → List PlaylistRow → List PlaylistRow
unfolding update_where
update_playlist_with_error e id =
    update_where (has_playlist_id id) (λ r. record r { error = some e })

abbrev pub or_unknown : String → String
or_unknown message = if str_eq message "" then "unknown error" else message

abbrev pub is_untitled : PlaylistRow → Bool
is_untitled r = str_eq r.title ""

-- What the loop writes about one playlist that was loaded.
abbrev pub save_playlist : Option Playlist → String → ℤ → List PlaylistRow → List PlaylistRow
save_playlist none message id rows = update_playlist_with_error (or_unknown message) id rows
save_playlist (some p) message id rows = update_playlist_details p id rows

abbrev pub save_load : PlaylistLoad → ℤ → List PlaylistRow → List PlaylistRow
save_load load id rows = save_playlist load.playlist load.err_msg id rows

unfoldable pub save_loads :
    (String → PlaylistLoad) → List PlaylistRow → List PlaylistRow → List PlaylistRow
unfolding update_playlist_details update_playlist_with_error
save_loads loads [] rows = rows
save_loads loads (r ∷ rs) rows =
    save_loads loads rs (save_load (loads r.online_playlist_id) r.id rows)

abbrev pub stored : PlaylistRow → Playlist
stored r = record {
  online_playlist_id = r.online_playlist_id;
  title = r.title;
  thumbnail_url = r.thumbnail_url;
  thumbnail_width = r.thumbnail_width;
  thumbnail_height = r.thumbnail_height;
  item_count = r.item_count;
}

abbrev pub add_loaded : Option Playlist → List Playlist → List Playlist
add_loaded none rest = rest
add_loaded (some p) rest = p ∷ rest

-- The playlists of the answer: those that could not be loaded are skipped.
unfoldable pub results : (String → PlaylistLoad) → List PlaylistRow → List Playlist
results loads [] = []
results loads (r ∷ rs) =
    let rest = results loads rs in
    if is_untitled r then add_loaded (loads r.online_playlist_id).playlist rest else stored r ∷ rest

pub record SuggestedPlaylists : Type 0 where
  pub playlists : List Playlist
  pub next_cursor : Option ℤ

unfoldable pub last_id : PlaylistRow → List PlaylistRow → ℤ
last_id r [] = r.id
last_id r (s ∷ ss) = last_id s ss

-- The page without the extra row, and the cursor behind it; an empty page of which there is more
-- panics, since its last row is looked at.
abbrev pub cut_page : List PlaylistRow → Result (List PlaylistRow × Option ℤ)
cut_page [] = err panic
cut_page (r ∷ rs) = ok (r ∷ rs, some (last_id r rs))

unfoldable pub page_of : ℕ → List PlaylistRow → Result (List PlaylistRow × Option ℤ)
unfolding last_id
page_of size rows = if ltb size (length rows) then cut_page (take size rows) else ok (rows, none)

abbrev pub no_loads : String → PlaylistLoad
no_loads id = record { playlist = none; err_msg = "" }

module _ (load_playlists : List String → Result (String → PlaylistLoad)) where
  -- The details from YouTube, if any are missing.
  abbrev pub loads_for : List PlaylistRow → Result (String → PlaylistLoad)
  loads_for [] = ok no_loads
  loads_for (r ∷ rs) = load_playlists (map PlaylistRow.online_playlist_id (r ∷ rs))

  abbrev pub answer :
      List PlaylistRow
      → Option ℤ
      → Result (String → PlaylistLoad)
      → List PlaylistRow
      → Result SuggestedPlaylists × List PlaylistRow
  answer page next (err e) rows = (err e, rows)
  answer page next (ok loads) rows = (
    ok (record { playlists = results loads page; next_cursor = next }),
    save_loads loads (keep is_untitled page) rows,
  )

  abbrev pub answer_page :
      Result (List PlaylistRow × Option ℤ)
      → List PlaylistRow
      → Result SuggestedPlaylists × List PlaylistRow
  answer_page (err e) rows = (err e, rows)
  answer_page (ok (page, next)) rows = answer page next (loads_for (keep is_untitled page)) rows

  abbrev pub answer_rows :
      ℕ
      → Result (List PlaylistRow)
      → List PlaylistRow
      → Result SuggestedPlaylists × List PlaylistRow
  answer_rows size (err e) rows = (err e, rows)
  answer_rows size (ok found) rows = answer_page (page_of size found) rows

  -- GetSuggestedPlaylists: the answer, and the table.
  unfoldable pub get_suggested_playlists :
      Option ℤ → ℕ → List PlaylistRow → Result SuggestedPlaylists × List PlaylistRow
  unfolding list_playlists page_of keep results save_loads int32
  get_suggested_playlists cursor size rows =
      answer_rows size (list_playlists cursor (int32 (size + 1)) rows) rows
