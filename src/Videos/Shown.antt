-- ===== src/Videos/Shown.antt =====
-- What GetVideoProcess shows of a video is the state of its latest job.
-- The state that is shown for a job of a type and a state. No state stands for a done fetch job.
use qarau.Common.Tables.{In}
use qarau.Jobs.{Job, JobType, JobState, fetch, asr, pending, running, done, failed}
use qarau.Videos.Latest.{
  length-get_video_jobs-le, get_video_jobs-In, In-get_video_jobs, get_latest_job-some,
}
use qarau.Videos.Followed.{IsFollowed}
use qarau.Common.Result.{ok, Result}
use qarau.Videos.Consistent.{run-IsConsistent, IsConsistent}
use qarau.Service.Requests.{run, Request}
use qarau.Store.{Store}
use qarau.Common.{
  refl, false, length, ltb, ◌∙◌, inr, [], inl, ◌≤◌, arith, ◌⊎◌, some, ◌∷◌, ◌≢◌, none, ◌≡◌, Option,
  List, ℕ,
}
use qarau.Service.{Clock}
use qarau.Videos.Process.{
  state_done, state_asr_running, state_asr_pending, state_fetch_running, only_state,
  process_of_latest, state_fetch_pending, state_new, VideoProcess, get_video_jobs, state_failed,
  ProcessingState, get_latest_job, process_of, get_video_process,
}

abbrev pub IsShown : JobType → JobState → ProcessingState → Type 0
IsShown ty failed p = p ≡ state_failed
IsShown fetch pending p = p ≡ state_fetch_pending
IsShown fetch running p = p ≡ state_fetch_running
IsShown fetch done p = ⊥
IsShown asr pending p = p ≡ state_asr_pending
IsShown asr running p = p ≡ state_asr_running
IsShown asr done p = p ≡ state_done

-- The video has no job and is shown as new, or its job of the largest id is shown.
abbrev pub ShowsLatest : ℕ → List Job → ProcessingState → Type 0
ShowsLatest v js p =
    (((k : Job) → In k js → k.video_id ≢ v) × (p ≡ state_new))
    ⊎ ((j : Job) × In j js
        × (j.video_id ≡ v)
        × ((k : Job) → In k js → k.video_id ≡ v → k.id ≤ j.id)
        × IsShown j.job_type j.state p)

abbrev pub Answers : ℕ → List Job → Result VideoProcess → Type 0
Answers v js r = (p : VideoProcess) × (r ≡ ok p) × ShowsLatest v js p.state

process_of-ok :
    (c : Clock) (s : Store) (j : Job) (ty : JobType) (st : JobState)
    → (ty ≡ fetch → st ≡ done → ⊥)
    → (p : VideoProcess) × (process_of c s j ty st ≡ ok p) × IsShown ty st p.state
unfolding process_of
process_of-ok c s j fetch failed h = (_, refl, refl)
process_of-ok c s j asr failed h = (_, refl, refl)
process_of-ok c s j fetch pending h = (_, refl, refl)
process_of-ok c s j fetch running h = (_, refl, refl)
process_of-ok c s j fetch done h = absurd (h refl refl)
process_of-ok c s j asr pending h = (_, refl, refl)
process_of-ok c s j asr running h = (_, refl, refl)
process_of-ok c s j asr done h = (_, refl, refl)

-- The latest job of a video is no done fetch job: an asr job would be later.
latest-ok :
    (v : ℕ) (js : List Job) (j : Job)
    → IsFollowed js
    → get_latest_job (get_video_jobs v js) ≡ some j
    → j.job_type ≡ fetch
    → j.state ≡ done
    → ⊥
latest-ok v js j h e ty st =
    let (m, largest) = get_latest_job-some (get_video_jobs v js) j e in
    let (n, at) = In-get_video_jobs v j js m in
    let (k, l, a, b, lt) = h j n ty st in
    let le = largest k (get_video_jobs-In v k js l (b ∙ at)) in omega arith

get_latest_job-none : (js : List Job) → get_latest_job js ≡ none → (k : Job) → In k js → ⊥
unfolding get_latest_job
get_latest_job-none [] e k m = m
get_latest_job-none (j ∷ js) e k m = absurd (ground arith)

pub get_video_process-Answers :
    (c : Clock) (v : ℕ) (s : Store) → IsConsistent s → Answers v s.jobs (get_video_process c v s)
unfolding get_video_process process_of_latest
get_video_process-Answers c v s (val, h) =
    let few : ltb 2 (length (get_video_jobs v s.jobs)) ≡ false =
      ground (arith, length-get_video_jobs-le v s.next_job s.jobs val) in
    rw few (go (get_latest_job (get_video_jobs v s.jobs)) refl)
  where
    go :
        (o : Option Job)
        → get_latest_job (get_video_jobs v s.jobs) ≡ o
        → Answers v s.jobs (process_of_latest c s o)
    go none e = (
      only_state state_new,
      refl,
      inl (λ k m at. get_latest_job-none _ e k (get_video_jobs-In v k s.jobs m at), refl),
    )
    go (some j) e =
        let (p, q, shown) = process_of-ok c s j j.job_type j.state (latest-ok v s.jobs j h e) in
        let (m, largest) = get_latest_job-some (get_video_jobs v s.jobs) j e in
        let (n, at) = In-get_video_jobs v j s.jobs m in
        (p, q, inr (j, n, at, (λ k l b. largest k (get_video_jobs-In v k s.jobs l b)), shown))

-- From a database whose jobs are valid and in which each done fetch job has an asr job of the same
-- video with a larger id, every sequence of leases, completions, failures and new fetch jobs leads
-- to one in which GetVideoProcess answers without an error: with state_new if the video has no
-- job, and else with the state that stands for the type and the state of its job of the largest
-- id, which is never a done fetch job.
pub get_video_process-run :
    (c : Clock) (v : ℕ) (s : Store) (rs : List Request)
    → IsConsistent s
    → Answers v (run s rs).jobs (get_video_process c v (run s rs))
get_video_process-run c v s rs h =
    get_video_process-Answers c v (run s rs) (run-IsConsistent s rs h)
