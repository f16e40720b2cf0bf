-- ===== src/Videos/Process.antt =====
-- The processing of a video, as internal/api/video_service.go shows and starts it, with
-- CalculateUsedPercent of internal/quota/quota.go and the queries of db/gen/jobs.sql.go on the
-- queue.
use Prim.Native.String.{String, ◌++◌ as str_append}
use qarau.Common.{
  ℕ, ◌*◌, ◌/◌, Bool, true, false, ◌&&◌, ◌||◌, Option, none, some, List, [], ◌∷◌, ltb, leb, ◌==◌,
  if◌then◌else◌, length,
}
use qarau.Common.Int.{ℤ, pos, ltb_ℤ, leb_ℤ, pos_part}
use qarau.Common.Result.{
  Result, ok, err, no_rows, no_such_video, corrupted_data, unprocessable_video,
}
use qarau.Jobs.{
  Job, JobType, fetch, asr, JobState, pending, running, done, failed, is_pending, is_running,
  is_type,
}
use qarau.Store.{Store, get_asr_quota, create_fetch_job_if_absent}
use qarau.Service.{Clock, quota_day, daily_quota_seconds}
use qarau.Transcript.{find_video, micros_to_floor_seconds}
use qarau.Videos.{Video, Obstacle, processing_obstacle, by_id_row_to_video, get_video_by_id}

pub data ProcessingState : Type 0 where
  state_new state_at_capacity state_fetch_pending state_fetch_running : ProcessingState
  state_asr_pending state_asr_running state_done state_failed : ProcessingState

-- `day` is none for Go's empty text.
pub record QuotaStatus : Type 0 where
  pub day : Option ℕ
  pub used_percent : ℕ

-- A job of the queue is shown by the seconds of its video.
pub record VideoProcess : Type 0 where
  pub state : ProcessingState
  pub error_message : String
  pub queue : List ℤ
  pub asr_quota : QuotaStatus

abbrev pub no_quota : QuotaStatus
no_quota = record { day = none; used_percent = 0 }

-- The fields that a literal leaves out are Go's zero values.
abbrev pub only_state : ProcessingState → VideoProcess
only_state state = record { state = state; error_message = ""; queue = []; asr_quota = no_quota }

abbrev pub queued : ProcessingState → List ℤ → QuotaStatus → VideoProcess
queued state queue quota = record {
  state = state;
  error_message = "";
  queue = queue;
  asr_quota = quota;
}

-- GetVideoJobs
unfoldable pub get_video_jobs : ℕ → List Job → List Job
get_video_jobs video [] = []
get_video_jobs video (j ∷ js) =
    let rest = get_video_jobs video js in if j.video_id == video then j ∷ rest else rest

abbrev pub newer : Job → Job → Job
newer best j = if ltb best.id j.id then j else best

-- The loop of getLatestJob, from the best job so far.
unfoldable pub latest_from : Job → List Job → Job
latest_from best [] = best
latest_from best (j ∷ js) = latest_from (newer best j) js

-- getLatestJob
unfoldable pub get_latest_job : List Job → Option Job
unfolding latest_from
get_latest_job [] = none
get_latest_job (j ∷ js) = some (latest_from j (j ∷ js))

abbrev pub is_active : JobState → Bool
is_active state = is_pending state || is_running state

abbrev pub in_fetch_queue : ℕ → Job → Bool
in_fetch_queue before j =
    (is_type j.job_type fetch || is_type j.job_type asr)
    && is_active j.state
    && ltb j.created_at before

abbrev pub in_asr_queue : ℕ → Job → Bool
in_asr_queue before j = is_type j.job_type asr && is_active j.state && ltb j.created_at before

-- ORDER BY created_at ASC, one row at a time.
unfoldable pub insert_by_age : Job → List Job → List Job
insert_by_age j [] = j ∷ []
insert_by_age j (k ∷ ks) =
    let rest = insert_by_age j ks in if leb j.created_at k.created_at then j ∷ k ∷ ks else k ∷ rest

unfoldable pub by_age : (Job → Bool) → List Job → List Job
unfolding insert_by_age
by_age p [] = []
by_age p (j ∷ js) = let rest = by_age p js in if p j then insert_by_age j rest else rest

unfoldable pub with_seconds : Option ℤ → List ℤ → List ℤ
unfolding micros_to_floor_seconds
with_seconds none rest = rest
with_seconds (some micros) rest = micros_to_floor_seconds micros ∷ rest

-- The join with `videos`, and makeQueueForFetchJob and makeQueueForAsrJob, which turn the rows to
-- seconds.
unfoldable pub make_queue : Store → List Job → List ℤ
unfolding find_video with_seconds
make_queue s [] = []
make_queue s (j ∷ js) = with_seconds (find_video j.video_id s.videos) (make_queue s js)

-- GetFetchJobQueue: it counts the asr jobs too.
unfoldable pub fetch_job_queue : ℕ → Store → List ℤ
unfolding make_queue by_age
fetch_job_queue before s = make_queue s (by_age (in_fetch_queue before) s.jobs)

-- GetAsrJobQueue
unfoldable pub asr_job_queue : ℕ → Store → List ℤ
unfolding make_queue by_age
asr_job_queue before s = make_queue s (by_age (in_asr_queue before) s.jobs)

-- CalculateUsedPercent of internal/quota/quota.go.
unfoldable pub calculate_used_percent : ℤ → ℕ
calculate_used_percent used =
    if ltb_ℤ used (pos 0)
    then 0
    else if leb_ℤ (pos daily_quota_seconds) used
    then 100
    else pos_part used * 100 / daily_quota_seconds

unfoldable pub percent : Option ℤ → ℕ
unfolding calculate_used_percent
percent none = 0
percent (some used) = calculate_used_percent used

-- loadQuota
unfoldable pub load_quota : Clock → Store → QuotaStatus
unfolding quota_day percent
load_quota c s = record {
  day = some (quota_day c.app);
  used_percent = percent (get_asr_quota (quota_day c.app) s.quota);
}

abbrev pub asr_message : Option String → String
asr_message none = "asr fail"
asr_message (some e) = str_append "asr fail: " e

abbrev pub fail_message : JobType → Option String → String
fail_message fetch last = "fetch fail"
fail_message asr last = asr_message last

abbrev pub failed_process : String → VideoProcess
failed_process message = record (only_state state_failed) { error_message = message }

-- GetVideoProcess, from the latest job: its type and its state.
unfoldable pub process_of : Clock → Store → Job → JobType → JobState → Result VideoProcess
unfolding load_quota fetch_job_queue asr_job_queue
process_of c s j ty failed = ok (failed_process (fail_message ty j.last_error))
process_of c s j fetch pending =
    ok (queued state_fetch_pending (fetch_job_queue j.created_at s) (load_quota c s))
process_of c s j fetch running =
    ok (queued state_fetch_running (asr_job_queue c.app s) (load_quota c s))
process_of c s j fetch done = err corrupted_data
process_of c s j asr pending =
    ok (queued state_asr_pending (asr_job_queue j.created_at s) (load_quota c s))
process_of c s j asr running = ok (only_state state_asr_running)
process_of c s j asr done = ok (only_state state_done)

unfoldable pub process_of_latest : Clock → Store → Option Job → Result VideoProcess
unfolding process_of
process_of_latest c s none = ok (only_state state_new)
process_of_latest c s (some j) = process_of c s j j.job_type j.state

-- GetVideoProcess
unfoldable pub get_video_process : Clock → ℕ → Store → Result VideoProcess
unfolding get_video_jobs get_latest_job process_of_latest
get_video_process c video s =
    let rows = get_video_jobs video s.jobs in
    if ltb 2 (length rows) then err corrupted_data else process_of_latest c s (get_latest_job rows)

abbrev pub max_queue_size : ℕ
max_queue_size = 5

-- No row is returned where another request made the job: in both cases the process is loaded.
unfoldable pub started : Clock → ℕ → Store → Result (ℕ × Store) → Result VideoProcess × Store
unfolding get_video_process
started c video s (err no_rows) = (get_video_process c video s, s)
started c video s (err e) = (err e, s)
started c video s (ok (id, t)) = (get_video_process c video t, t)

unfoldable pub start : Clock → ℕ → String → Store → Result VideoProcess × Store
unfolding create_fetch_job_if_absent fetch_job_queue started
start c video online s =
    let enqueued = fetch_job_queue c.app s in
    if leb max_queue_size (length enqueued)
    then (ok (queued state_at_capacity enqueued no_quota), s)
    else started c video s (create_fetch_job_if_absent video online c.db s)

unfoldable pub admit : Clock → ℕ → Video → Option Obstacle → Store → Result VideoProcess × Store
unfolding start
admit c video v (some obstacle) s = (err unprocessable_video, s)
admit c video v none s = start c video v.online_video_id s

unfoldable pub checked : Clock → ℕ → Result Video → Store → Result VideoProcess × Store
unfolding processing_obstacle admit
checked c video (err e) s = (err e, s)
checked c video (ok v) s = admit c video v (processing_obstacle v) s

-- createVideoProcess
unfoldable pub create_video_process : Clock → ℕ → Store → Result VideoProcess × Store
unfolding get_video_by_id by_id_row_to_video checked
create_video_process c video s = elim (get_video_by_id video s) [
  | none ↦ (err no_such_video, s)
  | some row ↦ checked c video (by_id_row_to_video row) s
]

abbrev pub is_new : ProcessingState → Bool
is_new state_new = true
is_new _ = false

-- GetOrCreateVideoProcess
unfoldable pub get_or_create_video_process : Clock → ℕ → Store → Result VideoProcess × Store
unfolding create_video_process get_video_process
get_or_create_video_process c video s = elim (get_video_process c video s) [
  | err e ↦ (err e, s)
  | ok p ↦ if is_new p.state then create_video_process c video s else (ok p, s)
]
