-- ===== src/Examples/Streams.antt =====
-- The streams of audio on small recordings.
use qarau.Common.Tables.{find, update_returning, update_where}
use qarau.Examples.Samples.{sample_video}
use qarau.Common.{◌↔◌, ℕ, zero, suc, ◌≡◌, refl, true, some, List, [], ◌∷◌, map, arith}
use qarau.Common.Int.{◌<ℤ◌, ℤ, pos, negsuc}
use qarau.Common.Result.{ok, err, panic}
use qarau.Jobs.{Job, fetch, asr, running, done, new_job, get_job, mark_job_done}
use qarau.Store.{Store, exists, create_audio_blob, complete_job, create_asr_job, insert_job}
use qarau.Service.{Clock, complete_fetch_job, check_lease}
use qarau.Words.{Word}
use qarau.Service.Stored.{IsTranscribed, complete_asr_job-IsTranscribed}
use qarau.Service.{quota_day}
use qarau.Store.{
  upsert_transcription, delete_words, delete_sentences, insert_words, upsert_asr_quota,
  delete_where, get_asr_quota, set_quota,
}
use qarau.Common.Int.{int32, int16, quot, ◌+ℤ◌}
use qarau.Sentences.{segment_word_stream, to_sentences, last_word, join_words}
use qarau.Sentences.Manager.{
  complete_asr, create_and_upsert_sentences, upsert_sentences, to_sentence_rows,
}
use qarau.Sentences.Saved.{IsSaved, complete_asr-IsSaved}
use qarau.Common.Runs.{runs, joined}
use qarau.Store.{insert_sentences}
use qarau.Transcript.{
  complete_asr_job, get_video_duration, store_transcription, store_words, to_word_row, to_word_rows,
  micros_to_ceil_seconds, micros_to_floor_seconds, find_video,
}
use qarau.Streams.{checksum, crc_bytes, crc_bits, xor}
use qarau.Streams.Panics.{complete_fetch-panics}
use qarau.Common.Int.{pos_part}
use qarau.Streams.Upload.{
  accept_chunk, accept_end, Meta, empty, Message, meta, chunk, Event, received, validate_filename,
  dot_pos, stream_audio, complete_fetch, accept_meta, receive_upload,
}
use qarau.Streams.Download.{Response, got, get_fetched_audio, receive_audio}
use qarau.Streams.Delivery.{complete_fetch-stream_audio}
use qarau.Streams.Fetched.{receive_audio-get_fetched_audio}
use qarau.Streams.Intact.{complete_fetch-IsWhole, IsAllowed, IsUpload}

-- The check value of CRC-32, of the text 123456789.
checksum_check : checksum (49 ∷ 50 ∷ 51 ∷ 52 ∷ 53 ∷ 54 ∷ 55 ∷ 56 ∷ 57 ∷ []) ≡ 3421780262
unfolding checksum crc_bytes crc_bits xor
checksum_check = refl

abbrev repeat : ℕ → List ℕ
repeat zero = []
repeat (suc n) = 7 ∷ repeat n

abbrev audio : List ℕ
audio = repeat 1024

-- a.mp3
abbrev file_name : List ℕ
file_name = 97 ∷ 46 ∷ 109 ∷ 112 ∷ 51 ∷ []

file_name_valid : validate_filename file_name ≡ true
unfolding validate_filename dot_pos
file_name_valid = refl

abbrev download : Job
download = record (new_job 1 7 fetch "abc" 10) {
  state = running;
  locked_by = some "w1";
  locked_until = some 500;
  attempts = 1;
  started_at = some 30;
}

abbrev before : Store
before = record {
  videos = sample_video (pos 60500000) ∷ [];
  next_video = 8;
  jobs = download ∷ [];
  next_job = 2;
  blobs = [];
  transcriptions = [];
  next_transcription = 1;
  words = [];
  sentences = [];
  quota = [];
}

abbrev at_400 : Clock
at_400 = record { app = 400; db = 400 }

abbrev behind : Store
behind = record before {
  jobs = new_job 2 7 asr "abc" 400 ∷ record download { state = done; finished_at = some 400 } ∷ [];
  next_job = 3;
  blobs = record { video_id = 7; content = audio; filename = file_name } ∷ [];
}

completed : complete_fetch_job at_400 "w1" 1 7 audio file_name before ≡ ok (tt, behind)
unfolding complete_fetch_job create_audio_blob complete_job create_asr_job insert_job exists find
    update_where mark_job_done update_returning
completed = refl

-- A lease of the asr job.
abbrev transcribing : Store
transcribing = record behind {
  jobs =
      record (new_job 2 7 asr "abc" 400) {
        state = running;
        locked_by = some "w2";
        locked_until = some 900;
        attempts = 1;
        started_at = some 410;
      }
      ∷ [];
}

held : check_lease at_400 2 "w2" transcribing ≡ ok true
unfolding check_lease get_job find
held = refl

receive_audio-get_fetched_audio_example :
    (rs : List Response) × (get_fetched_audio at_400 "w2" 2 7 transcribing ≡ ok rs)
    × (micros : ℤ) × (find_video 7 before.videos ≡ some micros)
    × (receive_audio (map got rs)
        ≡ ok (record { file = audio; duration_secs = micros_to_floor_seconds micros }))
receive_audio-get_fetched_audio_example =
    receive_audio-get_fetched_audio at_400 at_400 "w1" "w2" 1 7 2 audio file_name before behind
      transcribing completed (omega arith) (omega arith) refl refl held

complete_fetch-stream_audio_example :
    (ms : List Message) × (stream_audio 1 7 file_name audio ≡ ok ms)
    × (complete_fetch at_400 "w1" (map received ms) before ≡ ok (tt, behind))
unfolding complete_fetch_job create_audio_blob complete_job create_asr_job insert_job exists find
    update_where mark_job_done update_returning
complete_fetch-stream_audio_example =
    complete_fetch-stream_audio at_400 "w1" before 1 7 file_name audio (omega arith) (omega arith)
      file_name_valid (omega arith) (omega arith)

abbrev hello : List Event
hello =
    received
      (meta (record { job_id = pos 1; video_id = pos 7; filename = file_name; length = pos 2 }))
    ∷ received empty
    ∷ received (chunk (record { offset = pos 0; content = 104 ∷ 105 ∷ []; crc32 = 3633523372 }))
    ∷ []

abbrev after_hello : Store
after_hello = record behind {
  blobs = record { video_id = 7; content = 104 ∷ 105 ∷ []; filename = file_name } ∷ [];
}

hello_completes : complete_fetch at_400 "w1" hello before ≡ ok (tt, after_hello)
unfolding complete_fetch receive_upload accept_meta accept_chunk accept_end validate_filename
    dot_pos checksum crc_bytes crc_bits xor complete_fetch_job create_audio_blob complete_job
    create_asr_job insert_job exists find update_where mark_job_done update_returning
hello_completes = refl

complete_fetch-IsWhole_example :
    (m : Meta) × IsAllowed m
    × IsUpload m hello
    × (m.length ≡ pos 2)
    × (complete_fetch_job at_400 "w1"
          (pos_part m.job_id)
          (pos_part m.video_id)
          (104 ∷ 105 ∷ [])
          m.filename
          before
        ≡ ok (tt, after_hello))
complete_fetch-IsWhole_example =
    complete_fetch-IsWhole at_400 "w1" hello before after_hello hello_completes

abbrev negative : List Event
negative =
    received empty
    ∷ received (
        meta (record { job_id = pos 1; video_id = pos 7; filename = file_name; length = negsuc 0 }))
    ∷ []

complete_fetch-panics_example : (complete_fetch at_400 "w1" negative before ≡ err panic) ↔ (
    (pos 0 <ℤ pos 1)
    × (pos 0 <ℤ pos 7)
    × (validate_filename file_name ≡ true)
    × (negsuc 0 <ℤ pos 0))
complete_fetch-panics_example = complete_fetch-panics at_400 "w1" negative before

-- The asr job of that recording ends with one word.
abbrev one_word : List Word
one_word = record { word = "hi"; start_ms = 5; end_ms = 90; confidence = 99; speaker = 1 } ∷ []

abbrev transcribed : Store
transcribed = record transcribing {
  jobs =
      record (new_job 2 7 asr "abc" 400) {
        state = done;
        locked_by = some "w2";
        locked_until = some 900;
        attempts = 1;
        started_at = some 410;
        finished_at = some 400;
      }
      ∷ [];
  transcriptions = record { id = 1; video_id = 7; model = "scribe" } ∷ [];
  next_transcription = 2;
  words =
      to_word_row 1 0
        (record { word = "hi"; start_ms = 5; end_ms = 90; confidence = 99; speaker = 1 })
      ∷ [];
  quota = (0, pos 61) ∷ [];
}

transcribes : complete_asr_job at_400 "w2" 2 7 "scribe" one_word transcribing ≡ ok (1, transcribed)
unfolding complete_asr_job get_video_duration store_transcription upsert_transcription delete_words
    delete_sentences store_words to_word_rows insert_words complete_job upsert_asr_quota quota_day
    find_video micros_to_ceil_seconds micros_to_floor_seconds exists delete_where mark_job_done
    update_returning update_where find get_asr_quota set_quota int32 int16 quot ◌+ℤ◌
transcribes = refl

complete_asr_job-IsTranscribed_example :
    (used : ℤ) × (get_video_duration 7 transcribing ≡ ok used)
    × IsTranscribed at_400 "w2" 2 7 "scribe" one_word used transcribing 1 transcribed
complete_asr_job-IsTranscribed_example =
    complete_asr_job-IsTranscribed at_400 "w2" 2 7 "scribe" one_word transcribing 1 transcribed
      transcribes

abbrev with_sentence : Store
with_sentence = record transcribed {
  sentences =
      record {
        transcription_id = 1;
        seq = pos 0;
        start_word_seq = pos 0;
        end_word_seq = pos 0;
        start_ms = pos 5;
        end_ms = pos 90;
        text = "hi";
      }
      ∷ [];
}

saves :
    complete_asr at_400 "w2" (pos 2) 7 (some ("scribe", one_word)) transcribing
    ≡ ok (tt, with_sentence)
unfolding complete_asr complete_asr_job get_video_duration store_transcription upsert_transcription
    delete_words delete_sentences store_words to_word_rows insert_words complete_job
    upsert_asr_quota quota_day find_video micros_to_ceil_seconds micros_to_floor_seconds exists
    delete_where mark_job_done update_returning update_where find get_asr_quota set_quota int32
    int16 quot ◌+ℤ◌ create_and_upsert_sentences upsert_sentences to_sentence_rows insert_sentences
    segment_word_stream to_sentences runs joined last_word join_words
saves = refl

complete_asr-IsSaved_example :
    (id : ℕ) × (u : Store) × (complete_asr_job at_400 "w2" 2 7 "scribe" one_word transcribing
      ≡ ok (id, u))
    × IsSaved id one_word u with_sentence
complete_asr-IsSaved_example =
    complete_asr-IsSaved at_400 "w2" (pos 2) 7 "scribe" one_word transcribing with_sentence saves
