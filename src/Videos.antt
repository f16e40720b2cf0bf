-- ===== src/Videos.antt =====
-- Videos: the record that internal/api/video.go keeps of one, the obstacles to its processing, and
-- its rows in the table `videos` (db/gen/videos.sql.go).
pub mod Probe
pub mod Process
pub mod Followed
pub mod Latest
pub mod Consistent
pub mod Shown
pub mod Started
pub mod Once
pub mod Probed
use Prim.Native.String.{String}
use text.Mathlib.Text.{◌==◌ as str_eq}
use qarau.Common.{
  ℕ, ◌+◌, Bool, true, false, not, Option, none, some, List, [], ◌∷◌, ◌==◌, if◌then◌else◌,
}
use qarau.Common.Int.{ℤ, pos, ◌*ℤ◌, ltb_ℤ, leb_ℤ}
use qarau.Common.Result.{Result, ok, err, no_rows, unique_violation, corrupted_data}
use qarau.Store.{Store, Tx, exists}
use qarau.Store
use qarau.Transcript.{micros_to_floor_seconds}

pub record Video : Type 0 where
  pub id : ℕ
  pub online_video_id : String
  pub title : String
  pub channel_id : String
  pub channel_title : String
  pub published_at : ℕ
  pub duration_secs : ℤ
  pub views : ℤ
  pub likes : ℤ
  pub default_lang : String
  pub embeddable : Bool
  pub thumbnail_url : String
  pub thumbnail_width : ℤ
  pub thumbnail_height : ℤ
  pub loaded_from_db : Bool

-- Why a video cannot be processed; the code prints each as a text, and no obstacle as "".
pub data Obstacle : Type 0 where
  not_embeddable : Obstacle
  too_long too_few_likes too_few_views : ℤ → Obstacle

abbrev pub max_duration_secs : ℤ
max_duration_secs = pos 10800

abbrev pub min_likes_count : ℤ
min_likes_count = pos 20

abbrev pub min_views_count : ℤ
min_views_count = pos 1000

abbrev pub views_obstacle : Video → Option Obstacle
views_obstacle v = if ltb_ℤ v.views min_views_count then some (too_few_views v.views) else none

-- ProcessingObstacle: -1 likes means that their number is unknown.
unfoldable pub processing_obstacle : Video → Option Obstacle
processing_obstacle v =
    if not v.embeddable
    then some not_embeddable
    else if ltb_ℤ max_duration_secs v.duration_secs
    then some (too_long v.duration_secs)
    else if leb_ℤ (pos 0) v.likes
    then (if ltb_ℤ v.likes min_likes_count then some (too_few_likes v.likes) else views_obstacle v)
    else views_obstacle v

-- The conversion, once the columns that may be NULL are there.
unfoldable pub whole : Store.Video → Bool → String → String → ℤ → ℤ → Video
unfolding micros_to_floor_seconds
whole row from_db lang url width height = record {
  id = row.id;
  online_video_id = row.online_video_id;
  title = row.title;
  channel_id = row.channel_id;
  channel_title = row.channel_title;
  published_at = row.published_at;
  duration_secs = micros_to_floor_seconds row.duration_micros;
  views = row.views;
  likes = row.likes;
  default_lang = lang;
  embeddable = row.embeddable;
  thumbnail_url = url;
  thumbnail_width = width;
  thumbnail_height = height;
  loaded_from_db = from_db;
}

abbrev pub convert :
    Store.Video → Bool → Option String → Option String → Option ℤ → Option ℤ → Result Video
convert row from_db (some lang) (some url) (some width) (some height) =
    ok (whole row from_db lang url width height)
convert row from_db _ _ _ _ = err corrupted_data

-- rowToVideo
unfoldable pub row_to_video : Store.Video → Result Video
row_to_video row =
    convert row true row.default_lang row.thumbnail_url row.thumbnail_width row.thumbnail_height

-- byIDRowToVideo
unfoldable pub by_id_row_to_video : Store.Video → Result Video
by_id_row_to_video row =
    convert row false row.default_lang row.thumbnail_url row.thumbnail_width row.thumbnail_height

unfoldable pub find_row : (Store.Video → Bool) → List Store.Video → Option Store.Video
find_row p [] = none
find_row p (v ∷ vs) = if p v then some v else find_row p vs

abbrev pub has_online_id : String → Store.Video → Bool
has_online_id online row = str_eq row.online_video_id online

-- GetVideo
unfoldable pub get_video : String → Store → Option Store.Video
unfolding find_row
get_video online s = find_row (has_online_id online) s.videos

-- GetVideoByID
unfoldable pub get_video_by_id : ℕ → Store → Option Store.Video
unfolding find_row
get_video_by_id id s = find_row (λ r. r.id == id) s.videos

-- The columns of CreateVideo and UpdateVideo; pg.NewInterval gives the duration.
abbrev pub to_row : ℕ → Video → Store.Video
to_row id v = record {
  id = id;
  online_video_id = v.online_video_id;
  title = v.title;
  channel_id = v.channel_id;
  channel_title = v.channel_title;
  published_at = v.published_at;
  duration_micros = v.duration_secs *ℤ pos 1000000;
  views = v.views;
  likes = v.likes;
  default_lang = some v.default_lang;
  embeddable = v.embeddable;
  thumbnail_url = some v.thumbnail_url;
  thumbnail_width = some v.thumbnail_width;
  thumbnail_height = some v.thumbnail_height;
}

-- CreateVideo: `online_video_id` is unique.
unfoldable pub create_video : Video → Tx ℕ
unfolding exists
create_video v s =
    if exists (has_online_id v.online_video_id) s.videos
    then err unique_violation
    else ok (
      s.next_video,
      record s { videos = to_row s.next_video v ∷ s.videos; next_video = s.next_video + 1 },
    )

-- The SET clause of UpdateVideo, which leaves the online id and the channel's id.
abbrev pub set_row : Video → Store.Video → Store.Video
set_row v row = record (to_row row.id v) {
  online_video_id = row.online_video_id;
  channel_id = row.channel_id;
}

unfoldable pub update_rows : ℕ → Video → List Store.Video → List Store.Video
update_rows id v [] = []
update_rows id v (r ∷ rs) = (if r.id == id then set_row v r else r) ∷ update_rows id v rs

-- UpdateVideo, an UPDATE run with Exec: no row to meet is no error.
unfoldable pub update_video_row : ℕ → Video → Tx (Unit {0})
unfolding update_rows
update_video_row id v s = ok (tt, record s { videos = update_rows id v s.videos })
