-- ===== src/Examples/Jobs.antt =====
-- The job service on a small database.
use qarau.Common.Tables.{find, oldest, update_where}
use Prim.Native.String.{String}
use qarau.Examples.Samples.{sample_video}
use qarau.Service.Answers.{check_lease_lem, fail_job_lem, IsCurrent}
use text.Mathlib.TextEquality.{eq_iff}
use qarau.Common.Result.{panic, err, ok}
use qarau.Service.Grants.{lease_job_lem, LeaseResult}
use qarau.Common.{
  ◌⊎◌, ◌↔◌, ◌+◌, ◌≢◌, ℕ, ◌≡◌, refl, inl, inr, Bool, true, false, some, List, [], ◌∷◌, arith,
}
use qarau.Common.Int.{pos}
use qarau.Jobs.{
  failed, pending, gave_up, claimed, is_claimable, claim_job, Job, fetch, asr, running, done,
  get_job, new_job,
}
use qarau.Store.{Store}
use qarau.Service.{convert_job_type, lease_job, fail_job, check_lease, Clock, request_fetch}
use qarau.Service.Refines.{serve-Changed}
use qarau.Service.Requests.{Changed, serve, Request, lease, fail, run}
use qarau.Service.Valid.{IsValidStore, run-IsValid}
use qarau.Service.Leases.{lease_kept, finished_kept, stranded}

-- A pending fetch job of one video, at its second attempt, and a running one on its last.
abbrev waiting : Job
waiting = record (new_job 1 7 fetch "abc" 10) { attempts = 1 }

abbrev last_try : Job
last_try = record (new_job 2 8 fetch "def" 20) {
  state = running;
  locked_by = some "w1";
  locked_until = some 500;
  attempts = 3;
  started_at = some 30;
}

abbrev over : Job
over = record (new_job 3 9 asr "ghi" 15) {
  state = done;
  locked_by = some "w2";
  locked_until = some 90;
  attempts = 1;
  started_at = some 30;
  finished_at = some 80;
}

abbrev sample : Store
sample = record {
  videos = sample_video (pos 60000000) ∷ [];
  next_video = 8;
  jobs = waiting ∷ last_try ∷ over ∷ [];
  next_job = 4;
  blobs = [];
  transcriptions = [];
  next_transcription = 1;
  words = [];
  sentences = [];
  quota = [];
}

sample-IsValid : IsValidStore sample
sample-IsValid = ground arith

abbrev noon : Clock
noon = record { app = 400; db = 400 }

abbrev free : ℕ → Bool
free id = false

abbrev traffic : List Request
traffic =
    lease noon free "w3" request_fetch
    ∷ fail 1 "w3" "no network" false
    ∷ fail 2 "w3" "not mine" true
    ∷ []

run-IsValid_example : IsValidStore (run sample traffic)
run-IsValid_example = run-IsValid sample traffic sample-IsValid

at_two : get_job 2 sample.jobs ≡ some last_try
unfolding get_job find
at_two = refl

at_three : get_job 3 sample.jobs ≡ some over
unfolding get_job find
at_three = refl

-- Two texts differ.
other : ◌≢◌ {A = String} "w3" "w1"
other e = cc ((eq_iff "w3" "w1").1 e)

lease_kept_example : get_job 2 (run sample traffic).jobs ≡ some last_try
lease_kept_example =
    lease_kept sample traffic 2 "w1" 500 last_try sample-IsValid at_two (refl, refl, refl)
      (omega arith, (inl (omega arith), (inr other, tt)))

finished_kept_example : get_job 3 (run sample traffic).jobs ≡ some over
finished_kept_example = finished_kept sample traffic 3 over sample-IsValid at_three (inl refl)

stranded_example : get_job 2 (run sample traffic).jobs ≡ some last_try
stranded_example =
    stranded sample traffic 2 "w1" last_try sample-IsValid at_two refl refl refl
      (tt, (inl (omega arith), (inr other, tt)))

-- At time 400 the lease of job 2 still runs.
check_lease_lem_example :
    ((check_lease noon 2 "w1" sample ≡ ok true)
      ↔ IsCurrent noon "w1" running (some "w1") (some 500))
    × ((check_lease noon 2 "w1" sample ≡ err panic) ↔ ((running ≡ pending) ⊎ (running ≡ failed)))
check_lease_lem_example = check_lease_lem noon 2 "w1" sample last_try sample-IsValid at_two

-- Job 2 has used all its attempts.
fail_job_lem_example :
    (t : Store) × (fail_job 2 "w1" "no network" false sample ≡ ok (tt, t))
    × (get_job 2 t.jobs ≡ some (gave_up "no network" last_try))
    × ((k : ℕ) → k ≢ 2 → get_job k t.jobs ≡ get_job k sample.jobs)
fail_job_lem_example = fail_job_lem 2 "w1" "no network" false sample last_try at_two refl refl

-- The waiting job is handed out.
lease_job_lem_example :
    LeaseResult noon free "w3" fetch sample (lease_job noon free "w3" request_fetch sample)
unfolding convert_job_type
lease_job_lem_example = lease_job_lem noon free "w3" request_fetch fetch sample refl sample-IsValid

check_pending_panics : check_lease noon 1 "w1" sample ≡ err panic
unfolding check_lease get_job find
check_pending_panics = refl

lease_hands_out :
    get_job 1 (serve (lease noon free "w3" request_fetch) sample).jobs
    ≡ some (claimed "w3" (400 + 300000000) 400 waiting)
unfolding serve lease_job get_job find claim_job oldest is_claimable update_where
lease_hands_out = refl

serve-Changed_example :
    Changed
      (lease noon free "w3" request_fetch)
      sample.jobs
      4
      (serve (lease noon free "w3" request_fetch) sample).jobs
      (serve (lease noon free "w3" request_fetch) sample).next_job
serve-Changed_example = serve-Changed (lease noon free "w3" request_fetch) sample
