-- ===== src/Examples/Videos.antt =====
-- The video service on a small database.
use qarau.Transcript.{micros_to_floor_seconds}
use qarau.Videos.Probed.{probe_video-twice, stored}
use qarau.Videos.Shown.{get_video_process-run, Answers}
use qarau.Videos.Once.{
  get_or_create_video_process-Outcome, get_or_create_video_process-IsStarted, Outcome,
}
use qarau.Videos.Consistent.{IsConsistent}
use qarau.Videos.Probe.{probe_video}
use qarau.Videos.Started.{IsStartable, IsStarted}
use qarau.Videos.Process.{
  make_queue, by_age, fetch_job_queue, get_video_process, get_or_create_video_process,
  calculate_used_percent,
}
use qarau.Common.{◌≡◌, refl, true, false, none, some, [], ◌∷◌, inl, inr, arith}
use qarau.Common.Int.{int32, quot, pos, negsuc}
use qarau.Common.Result.{ok, err, no_rows}
use qarau.Jobs.{Job, fetch, asr, done, new_job}
use qarau.Examples.Samples.{sample_video}
use qarau.Store.{Store}
use qarau.Service.{Clock, request_asr}
use qarau.Service.Requests.{lease, fail, run}
use qarau.Videos.{
  whole, by_id_row_to_video, find_row, processing_obstacle, get_video_by_id, get_video, Video,
  too_few_likes,
}

abbrev at_noon : Clock
at_noon = record { app = 1000; db = 1000 }

-- The fetch job of video 7 is done, and its asr job waits.
abbrev fetched : Job
fetched = record (new_job 1 7 fetch "abc" 10) {
  state = done;
  locked_by = some "w1";
  locked_until = some 500;
  attempts = 1;
  started_at = some 20;
  finished_at = some 30;
}

abbrev fetched_store : Store
fetched_store = record {
  videos = sample_video (pos 61500000) ∷ [];
  next_video = 8;
  jobs = new_job 2 7 asr "abc" 30 ∷ fetched ∷ [];
  next_job = 3;
  blobs = [];
  transcriptions = [];
  next_transcription = 1;
  words = [];
  sentences = [];
  quota = [];
}

abbrev fresh_store : Store
fresh_store = record fetched_store { jobs = []; next_job = 1 }

fetched-IsConsistent : IsConsistent fetched_store
fetched-IsConsistent = (
  ground arith,
  λ j. elim [
    | inl q ↦ λ ty st. absurd (ground arith)
    | inr m ↦ elim m [
      | inl q ↦ λ ty st. (new_job 2 7 asr "abc" 30, inl refl, refl, ground arith, ground arith)
      | inr n ↦ absurd n
    ]
  ],
)

fresh-IsConsistent : IsConsistent fresh_store
fresh-IsConsistent = (tt, λ j m. absurd m)

get_video_process-run_example :
    Answers 7
      (run fetched_store
        (lease at_noon (λ i. false) "w2" request_asr ∷ fail 2 "w2" "e" false ∷ [])).jobs
      (get_video_process at_noon 7 (
        run fetched_store
          (lease at_noon (λ i. false) "w2" request_asr ∷ fail 2 "w2" "e" false ∷ [])))
get_video_process-run_example =
    get_video_process-run at_noon 7 fetched_store
      (lease at_noon (λ i. false) "w2" request_asr ∷ fail 2 "w2" "e" false ∷ [])
      fetched-IsConsistent

fresh-IsStartable : IsStartable at_noon 7 fresh_store (sample_video (pos 61500000))
unfolding get_video_by_id find_row by_id_row_to_video whole micros_to_floor_seconds quot int32
    fetch_job_queue by_age make_queue
fresh-IsStartable = record {
  at = refl;
  video = _;
  whole = refl;
  admitted = record {
    shown = refl;
    short = omega arith;
    liked = inr (omega arith);
    viewed = omega arith;
  };
  room = omega arith;
  none_yet = λ k m. absurd m;
}

get_or_create_video_process-IsStarted_example :
    IsStarted at_noon 7 fresh-IsStartable.video.online_video_id fresh_store
      (get_or_create_video_process at_noon 7 fresh_store)
get_or_create_video_process-IsStarted_example =
    get_or_create_video_process-IsStarted at_noon 7 fresh_store (sample_video (pos 61500000))
      fresh-IsConsistent fresh-IsStartable

get_or_create_video_process-Outcome_example :
    Outcome at_noon 7 fresh_store (get_or_create_video_process at_noon 7 fresh_store)
get_or_create_video_process-Outcome_example =
    get_or_create_video_process-Outcome at_noon 7 fresh_store fresh-IsConsistent

abbrev talk : Video
talk = record {
  id = 0;
  online_video_id = "new";
  title = "t";
  channel_id = "c";
  channel_title = "ch";
  published_at = 9;
  duration_secs = pos 90;
  views = pos 5000;
  likes = negsuc 0;
  default_lang = "kk";
  embeddable = true;
  thumbnail_url = "u";
  thumbnail_width = pos 1;
  thumbnail_height = pos 1;
  loaded_from_db = false;
}

not_there : get_video "new" fetched_store ≡ none
unfolding get_video find_row
not_there = refl

probe_video-twice_example :
    let (r, t) = probe_video "new" true (ok talk) fetched_store in
    (r ≡ ok (stored fetched_store talk))
    × (probe_video "new" false (err no_rows) t
        ≡ (ok (record (stored fetched_store talk) { loaded_from_db = true }), t))
probe_video-twice_example =
    probe_video-twice "new" true talk 90 (err no_rows) fetched_store not_there refl refl
      (omega arith)

few_likes : processing_obstacle (record talk { likes = pos 3 }) ≡ some (too_few_likes (pos 3))
unfolding processing_obstacle
few_likes = refl

used_percents :
    (calculate_used_percent (negsuc 4) ≡ 0)
    × (calculate_used_percent (pos 35999) ≡ 99)
    × (calculate_used_percent (pos 36000) ≡ 100)
unfolding calculate_used_percent
used_percents = (refl, refl, refl)
