-- ===== src/Videos/Once.antt =====
-- The whole of GetOrCreateVideoProcess: when it starts the processing of a video, and that it does
-- so once.
use qarau.Common.Tables.{In}
use qarau.Videos.Started.{
  start-IsStarted, processing_obstacle-IsAdmitted, IsAdmitted-processing_obstacle, new-HasNone,
  IsStarted, HasNone, IsStartable,
}
use qarau.Videos.Shown.{ShowsLatest, get_video_process-Answers}
use qarau.Videos.Consistent.{IsConsistent}
use Prim.Native.String.{String}
use qarau.Common.Result.{no_such_video, err, ok, Result, Result}
use qarau.Jobs.{Job}
use qarau.Service.{Clock}
use qarau.Videos.Process.{
  fetch_job_queue, state_new, is_new, max_queue_size, ProcessingState, admit, get_video_process,
  checked, VideoProcess, start, create_video_process, get_or_create_video_process,
}
use qarau.Videos.{processing_obstacle, by_id_row_to_video, get_video_by_id, Obstacle, String, Video}
use qarau.Store.{Video as Row, Store}
use qarau.Common.{
  arith, ◌∙◌, sym, subst, ap, length, ◌⊎◌, ◌≡◌, leb, ℕ, List, refl, none, some, Option, true, false,
  inl, inr, Bool-cases,
}

HasNone-new :
    (v : ℕ) (js : List Job) (p : ProcessingState)
    → ShowsLatest v js p
    → HasNone v js
    → p ≡ state_new
HasNone-new v js p (inl (h, e)) none_yet = e
HasNone-new v js p (inr (j, m, at, largest, shown)) none_yet = absurd (none_yet j m at)

-- On a video that is shown as new.
create-new :
    (c : Clock) (v : ℕ) (s : Store) (p : VideoProcess)
    → get_video_process c v s ≡ ok p
    → is_new p.state ≡ true
    → get_or_create_video_process c v s ≡ create_video_process c v s
unfolding get_or_create_video_process
create-new c v s p e n = rw (e, get_or_create_video_process) (rw n refl)

create-old :
    (c : Clock) (v : ℕ) (s : Store) (p : VideoProcess)
    → get_video_process c v s ≡ ok p
    → is_new p.state ≡ false
    → get_or_create_video_process c v s ≡ (ok p, s)
unfolding get_or_create_video_process
create-old c v s p e n = rw (e, get_or_create_video_process) (rw n refl)

create-start :
    (c : Clock) (v : ℕ) (s : Store) (row : Row) (video : Video)
    → get_video_by_id v s ≡ some row
    → by_id_row_to_video row ≡ ok video
    → processing_obstacle video ≡ none
    → create_video_process c v s ≡ start c v video.online_video_id s
unfolding create_video_process checked admit
create-start c v s row video at e o =
    rw (at, create_video_process) (rw (e, checked) (rw (o, admit) refl))

-- In a consistent database, a video that has no job, whose row is complete and has no obstacle
-- (embeddable, at most three hours, at least 1000 views, at least 20 likes or an unknown number
-- of them), gets a pending fetch job when fewer than five jobs are queued, and is then shown as
-- pending; nothing else of the database changes.
pub get_or_create_video_process-IsStarted :
    (c : Clock) (v : ℕ) (s : Store) (row : Row)
    → IsConsistent s
    → (h : IsStartable c v s row)
    → IsStarted c v h.video.online_video_id s (get_or_create_video_process c v s)
get_or_create_video_process-IsStarted c v s row good h =
    let (p, e, shows) = get_video_process-Answers c v s good in
    let n : is_new p.state ≡ true = ap is_new (HasNone-new v s.jobs p.state shows h.none_yet) in
    subst (IsStarted c v h.video.online_video_id s)
      (sym (
        create-new c v s p e n
        ∙ create-start c v s row h.video h.at h.whole
            (IsAdmitted-processing_obstacle h.video h.admitted)))
      (start-IsStarted c v h.video.online_video_id s good h.none_yet h.room)

-- The database is as it was, or a video that might be started was.
abbrev pub Outcome : Clock → ℕ → Store → Result VideoProcess × Store → Type 0
Outcome c v s (r, t) =
    (t ≡ s)
    ⊎ ((row : Row) × (h : IsStartable c v s row) × IsStarted c v h.video.online_video_id s (r, t))

start-full :
    (c : Clock) (v : ℕ) (online : String) (s : Store)
    → leb max_queue_size (length (fetch_job_queue c.app s)) ≡ true
    → (start c v online s).1 ≡ s
unfolding start
start-full c v online s full = rw full refl

start-Outcome :
    (c : Clock) (v : ℕ) (s : Store) (row : Row) (video : Video)
    → IsConsistent s
    → HasNone v s.jobs
    → get_video_by_id v s ≡ some row
    → by_id_row_to_video row ≡ ok video
    → processing_obstacle video ≡ none
    → Outcome c v s (start c v video.online_video_id s)
start-Outcome c v s row video good none_yet at e o =
    go (Bool-cases (leb max_queue_size (length (fetch_job_queue c.app s))))
  where
    go :
        (leb max_queue_size (length (fetch_job_queue c.app s)) ≡ true)
          ⊎ (leb max_queue_size (length (fetch_job_queue c.app s)) ≡ false)
        → Outcome c v s (start c v video.online_video_id s)
    go (inl full) = inl (start-full c v video.online_video_id s full)
    go (inr room) =
        let h : IsStartable c v s row = record {
          at = at;
          video = video;
          whole = e;
          admitted = processing_obstacle-IsAdmitted video o;
          room = ground arith;
          none_yet = none_yet;
        } in
        inr (row, h, start-IsStarted c v video.online_video_id s good none_yet h.room)

create-Outcome :
    (c : Clock) (v : ℕ) (s : Store)
    → IsConsistent s
    → HasNone v s.jobs
    → Outcome c v s (create_video_process c v s)
unfolding create_video_process checked admit
create-Outcome c v s good none_yet = go (get_video_by_id v s) refl
  where
    admitted :
        (row : Row) (video : Video) (o : Option Obstacle)
        → get_video_by_id v s ≡ some row
        → by_id_row_to_video row ≡ ok video
        → processing_obstacle video ≡ o
        → Outcome c v s (admit c v video o s)
    admitted row video (some o) at e q = inl refl
    admitted row video none at e q = start-Outcome c v s row video good none_yet at e q

    converted :
        (row : Row) (r : Result Video)
        → get_video_by_id v s ≡ some row
        → by_id_row_to_video row ≡ r
        → Outcome c v s (checked c v r s)
    converted row (err x) at e = inl refl
    converted row (ok video) at e = admitted row video (processing_obstacle video) at e refl

    go :
        (o : Option Row)
        → get_video_by_id v s ≡ o
        → Outcome c v s (elim o [
          | none ↦ (err no_such_video, s)
          | some row ↦ checked c v (by_id_row_to_video row) s
        ])
    go none e = inl refl
    go (some row) e = converted row (by_id_row_to_video row) e refl

-- In a consistent database, GetOrCreateVideoProcess changes nothing, or makes one pending fetch
-- job for a video that has no job yet, whose row is complete and has no obstacle, while fewer
-- than five jobs are queued, and then answers that it is pending.
pub get_or_create_video_process-Outcome :
    (c : Clock) (v : ℕ) (s : Store)
    → IsConsistent s
    → Outcome c v s (get_or_create_video_process c v s)
get_or_create_video_process-Outcome c v s good =
    let (p, e, shows) = get_video_process-Answers c v s good in
    elim (Bool-cases (is_new p.state)) [
      | inl n ↦
          subst (Outcome c v s) (sym (create-new c v s p e n))
            (create-Outcome c v s good (new-HasNone v s.jobs p.state shows n))
      | inr n ↦ subst (Outcome c v s) (sym (create-old c v s p e n)) (inl refl)
    ]

-- Once a video has a job, asking for its processing again changes nothing.
pub get_or_create_video_process-again :
    (c : Clock) (v : ℕ) (s : Store) (j : Job)
    → IsConsistent s
    → In j s.jobs
    → j.video_id ≡ v
    → get_or_create_video_process c v s ≡ (get_video_process c v s, s)
get_or_create_video_process-again c v s j good m at =
    let (p, e, shows) = get_video_process-Answers c v s good in
    elim (Bool-cases (is_new p.state)) [
      | inl n ↦ absurd (new-HasNone v s.jobs p.state shows n j m at)
      | inr n ↦ create-old c v s p e n ∙ ap (λ r. (r, s)) (sym e)
    ]
