-- ===== src/Videos/Probed.antt =====
-- ProbeVideo keeps what it loads: the details of a new video come back from the database.
use qarau.Common.Result.{Result, ok}
use qarau.Videos.Probe.{load, probe_video}
use qarau.Transcript.{micros_to_floor_seconds, micros_to_floor_seconds}
use text.Mathlib.TextEquality.{eq_iff}
use text.Mathlib.Text.{◌==◌ as str_eq}
use Prim.Native.String.{String}
use qarau.Common.{
  ◌∙◌, ap, some, sym, subst, ◌+◌, ℕ, ◌<◌, ◌≡◌, refl, Bool, true, false, none, List, [], ◌∷◌, arith,
  Bool-cases, inl, inr,
}
use qarau.Common.Int.{pos, ◌*ℤ◌, quot, int32}
use qarau.Videos.{
  whole, row_to_video, has_online_id, ok, get_video, create_video, to_row, find_row, Video,
}
use qarau.Store.{exists, Video as Row, Store}

-- int32 values that are not negative.
seconds_micros : (d : ℕ) → d < 2147483648 → micros_to_floor_seconds (pos d *ℤ pos 1000000) ≡ pos d
unfolding micros_to_floor_seconds ◌*ℤ◌ quot int32
seconds_micros d h = ground arith

str_eq_self : (s : String) → str_eq s s ≡ true
str_eq_self s = ground (arith, eq_iff s s)

find_row-none : (p : Row → Bool) (rs : List Row) → find_row p rs ≡ none → exists p rs ≡ false
unfolding find_row exists
find_row-none p [] e = refl
find_row-none p (r ∷ rs) e = elim (Bool-cases (p r)) [
  | inl t ↦ absurd (ground arith)
  | inr t ↦ rw t (find_row-none p rs (ground arith))
]

-- The details under the id of their row.
abbrev pub stored : Store → Video → Video
stored s v = record v { id = s.next_video }

abbrev with_video : Store → Video → Store
with_video s v = record s {
  videos = to_row s.next_video v ∷ s.videos;
  next_video = s.next_video + 1;
}

probe_video-new :
    (online : String) (force : Bool) (v : Video) (s : Store)
    → get_video online s ≡ none
    → v.online_video_id ≡ online
    → probe_video online force (ok v) s ≡ (ok (stored s v), with_video s v)
unfolding probe_video load create_video get_video
probe_video-new online force v s e q =
    let fresh : exists (has_online_id v.online_video_id) s.videos ≡ false =
      subst (λ o. exists (has_online_id o) s.videos ≡ false) (sym q)
        (find_row-none (has_online_id online) s.videos e) in
    rw (e, probe_video) (rw (fresh, create_video) refl)

probe_video-known :
    (online : String) (later : Result Video) (s : Store) (row : Row) (v : Video)
    → get_video online s ≡ some row
    → row_to_video row ≡ ok v
    → probe_video online false later s ≡ (ok v, s)
unfolding probe_video
probe_video-known online later s row v e q = rw (e, probe_video) (rw q refl)

get_video-with_video :
    (online : String) (v : Video) (s : Store)
    → v.online_video_id ≡ online
    → get_video online (with_video s v) ≡ some (to_row s.next_video v)
unfolding get_video find_row
get_video-with_video online v s q =
    let hit : str_eq v.online_video_id online ≡ true =
      ground (arith, eq_iff v.online_video_id online) in
    rw hit refl

row_to_video-to_row :
    (id d : ℕ) (v : Video)
    → v.duration_secs ≡ pos d
    → d < 2147483648
    → row_to_video (to_row id v) ≡ ok (record v { id = id; loaded_from_db = true })
unfolding row_to_video whole
row_to_video-to_row id d v e h =
    ap (λ t. ok (record v { id = id; duration_secs = t; loaded_from_db = true }))
      (ap (λ t. micros_to_floor_seconds (t *ℤ pos 1000000)) e ∙ seconds_micros d h ∙ sym e)

-- A video that is not in the database is loaded from YouTube, whose answer gives its online id
-- and a length in the range of int32: it is stored and returned with the id of its row, and the
-- next request for it, unless it forces a reload, returns the same details, marked as loaded from
-- the database, without a change.
pub probe_video-twice :
    (online : String) (force : Bool) (v : Video) (d : ℕ) (later : Result Video) (s : Store)
    → get_video online s ≡ none
    → v.online_video_id ≡ online
    → v.duration_secs ≡ pos d
    → d < 2147483648
    → let (r, t) = probe_video online force (ok v) s in
      (r ≡ ok (stored s v))
      × (probe_video online false later t ≡ (ok (record (stored s v) { loaded_from_db = true }), t))
probe_video-twice online force v d later s e q at lt = rw (probe_video-new online force v s e q) (
  refl,
  probe_video-known online later (with_video s v) (to_row s.next_video v) _
      (get_video-with_video online v s q) (row_to_video-to_row s.next_video d v at lt),
)
