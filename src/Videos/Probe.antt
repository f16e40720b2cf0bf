-- ===== src/Videos/Probe.antt =====
-- ProbeVideo of internal/api/video_service.go: the details of a video from the database, or from
-- YouTube, whose answer is an argument.
use Prim.Native.String.{String}
use qarau.Common.{ℕ, Bool, none, some, if◌then◌else◌}
use qarau.Common.Result.{Result, ok, err}
use qarau.Store.{Store, Tx}
use qarau.Videos.{Video, row_to_video, get_video, create_video, update_video_row}

-- updateVideo
unfoldable pub update_video : ℕ → Video → Tx Video
unfolding update_video_row
update_video id v s = elim (update_video_row id v s) [
  | err e ↦ err e
  | ok (u, t) ↦ ok (record v { id = id }, t)
]

abbrev pub from_row : Result Video → Store → Result Video × Store
from_row r s = (r, s)

-- A statement's answer and the database after it, which is as before if it failed.
abbrev pub keep : Store → Result (Video × Store) → Result Video × Store
keep s (ok (v, t)) = (ok v, t)
keep s (err e) = (err e, s)

-- The answer of the client about a video that is in the database.
unfoldable pub reload : ℕ → Result Video → Store → Result Video × Store
unfolding update_video
reload id (err e) s = (err e, s)
reload id (ok v) s = keep s (update_video id v s)

abbrev pub created : Video → Result (ℕ × Store) → Result (Video × Store)
created v (err e) = err e
created v (ok (id, t)) = ok (record v { id = id }, t)

-- The answer of the client about a new video.
unfoldable pub load : Result Video → Store → Result Video × Store
unfolding create_video
load (err e) s = (err e, s)
load (ok v) s = keep s (created v (create_video v s))

-- ProbeVideo: `loaded` is what GetVideoInformation answers for the online id.
unfoldable pub probe_video : String → Bool → Result Video → Store → Result Video × Store
unfolding get_video row_to_video load reload
probe_video online force loaded s = elim (get_video online s) [
  | none ↦ load loaded s
  | some row ↦ if force then reload row.id loaded s else (row_to_video row, s)
]
