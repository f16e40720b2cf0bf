-- ===== src/Videos/Started.antt =====
-- GetOrCreateVideoProcess starts the processing of a video once, and of admitted videos only.
use qarau.Common.Tables.{In}
use qarau.Videos.{by_id_row_to_video, get_video_by_id, Video}
use qarau.Service.Requests.{serve, enqueue}
use qarau.Videos.Shown.{get_video_process-Answers, IsShown, ShowsLatest}
use qarau.Common.Result.{Result, ok}
use qarau.Common.Int.{◌<ℤ◌, pos, ◌≤ℤ◌}
use qarau.Videos.Consistent.{serve-IsConsistent, IsConsistent}
use qarau.Videos.Process.{
  max_queue_size, fetch_job_queue, started, start, state_fetch_pending, get_video_process,
  VideoProcess, is_new, ProcessingState,
}
use Prim.Native.String.{String}
use qarau.Service.{Clock}
use qarau.Common.{
  leb, ◌<◌, length, some, refl, subst, ◌⊎◌, [], inr, ◌+◌, inl, arith, ◌≢◌, ◌∷◌, false, none, true,
  List, ◌≡◌, ℕ,
}
use qarau.Videos.{ok, String, processing_obstacle}
use qarau.Store.{Video as Row, Store, insert_job, exists, create_fetch_job_if_absent}
use qarau.Jobs.{
  Job, JobType, JobState, fetch, asr, pending, running, done, failed, new_job, has_key,
}

-- No job of the list is one of the video.
abbrev pub HasNone : ℕ → List Job → Type 0
HasNone v js = (k : Job) → In k js → k.video_id ≢ v

abbrev pub fetch_job : Clock → ℕ → String → Store → Job
fetch_job c v online s = new_job s.next_job v fetch online c.db

abbrev pub with_job : Clock → ℕ → String → Store → Store
with_job c v online s = record s {
  jobs = fetch_job c v online s ∷ s.jobs;
  next_job = s.next_job + 1;
}

-- Why a video may be processed.
pub record IsAdmitted (v : Video) : Type 0 where
  pub shown : v.embeddable ≡ true
  pub short : v.duration_secs ≤ℤ pos 10800
  pub liked : (v.likes <ℤ pos 0) ⊎ (pos 20 ≤ℤ v.likes)
  pub viewed : pos 1000 ≤ℤ v.views

pub processing_obstacle-IsAdmitted : (v : Video) → processing_obstacle v ≡ none → IsAdmitted v
unfolding processing_obstacle
processing_obstacle-IsAdmitted v h = ground arith

pub IsAdmitted-processing_obstacle : (v : Video) → IsAdmitted v → processing_obstacle v ≡ none
unfolding processing_obstacle
IsAdmitted-processing_obstacle v h = ground arith

HasNone-exists :
    (v : ℕ) (ty : JobType) (js : List Job) → HasNone v js → exists (has_key v ty) js ≡ false
unfolding exists
HasNone-exists v ty [] h = refl
HasNone-exists v ty (j ∷ js) h =
    let e : has_key v ty j ≡ false = ground (arith, h j (inl refl)) in
    rw e (HasNone-exists v ty js (λ k m. h k (inr m)))

create_fetch_job-ok :
    (c : Clock) (v : ℕ) (online : String) (s : Store)
    → HasNone v s.jobs
    → create_fetch_job_if_absent v online c.db s ≡ ok (s.next_job, with_job c v online s)
unfolding create_fetch_job_if_absent insert_job
create_fetch_job-ok c v online s h =
    rw (HasNone-exists v fetch s.jobs h, create_fetch_job_if_absent) refl

made :
    (c : Clock) (v : ℕ) (online : String) (s : Store)
    → HasNone v s.jobs
    → serve (enqueue v online c.db) s ≡ with_job c v online s
unfolding serve
made c v online s h = rw (create_fetch_job-ok c v online s h) refl

-- A video that is shown as new has no job, and one that has none is shown as new.
pub new-HasNone :
    (v : ℕ) (js : List Job) (p : ProcessingState)
    → ShowsLatest v js p
    → is_new p ≡ true
    → HasNone v js
new-HasNone v js p (inl (h, e)) n = h
new-HasNone v js p (inr (j, m, at, largest, shown)) n = absurd (go j.job_type j.state shown)
  where
    go : (ty : JobType) (st : JobState) → IsShown ty st p → ⊥
    go fetch failed e = ground arith
    go asr failed e = ground arith
    go fetch pending e = ground arith
    go fetch running e = ground arith
    go fetch done e = e
    go asr pending e = ground arith
    go asr running e = ground arith
    go asr done e = ground arith

-- The answer about a video whose fetch job was just made.
started-pending :
    (c : Clock) (v : ℕ) (online : String) (s : Store)
    → IsConsistent s
    → HasNone v s.jobs
    → (p : VideoProcess) × (get_video_process c v (with_job c v online s) ≡ ok p)
      × (p.state ≡ state_fetch_pending)
started-pending c v online s h none_yet =
    let t = with_job c v online s in
    let good : IsConsistent t =
      subst IsConsistent (made c v online s none_yet)
        (serve-IsConsistent (enqueue v online c.db) s h) in
    let (p, e, shows) = get_video_process-Answers c v t good in (p, e, go p.state shows)
  where
    go :
        (p : ProcessingState)
        → ShowsLatest v (fetch_job c v online s ∷ s.jobs) p
        → p ≡ state_fetch_pending
    go p (inl (h, e)) = absurd (h (fetch_job c v online s) (inl refl) refl)
    go p (inr (j, inl q, at, largest, shown)) = subst (λ r. IsShown r.job_type r.state p) q shown
    go p (inr (j, inr m, at, largest, shown)) = absurd (none_yet j m at)

-- Where nothing stands against it, a fetch job is made.
pub record IsStartable (c : Clock) (v : ℕ) (s : Store) (row : Row) : Type 0 where
  pub at : get_video_by_id v s ≡ some row
  pub video : Video
  pub whole : by_id_row_to_video row ≡ ok video
  pub admitted : IsAdmitted video
  pub room : length (fetch_job_queue c.app s) < 5
  pub none_yet : HasNone v s.jobs

abbrev pub IsStarted : Clock → ℕ → String → Store → Result VideoProcess × Store → Type 0
IsStarted c v online s (r, t) =
    (t ≡ with_job c v online s)
    × ((p : VideoProcess) × (r ≡ ok p) × (p.state ≡ state_fetch_pending))

pub start-IsStarted :
    (c : Clock) (v : ℕ) (online : String) (s : Store)
    → IsConsistent s
    → HasNone v s.jobs
    → length (fetch_job_queue c.app s) < 5
    → IsStarted c v online s (start c v online s)
unfolding start started
start-IsStarted c v online s h none_yet room =
    let few : leb max_queue_size (length (fetch_job_queue c.app s)) ≡ false = ground arith in
    rw few (
      rw (create_fetch_job-ok c v online s none_yet)
        (refl, started-pending c v online s h none_yet))
