-- ===== src/Transcript.antt =====
-- JobService (internal/api/job_service.go): storing a transcription and reading an audio blob,
-- with the conversions of internal/api/time.go.
use Prim.Native.String.{String}
use qarau.Common.{ℕ, suc, Option, none, some, List, [], ◌∷◌, ◌==◌, if◌then◌else◌}
use qarau.Common.Int.{int32_of, int16, int32, ℤ, pos, ◌+ℤ◌, quot}
use qarau.Common.Result.{Result, ok, err, no_rows}
use qarau.Words.{Word}
use qarau.Jobs.{asr}
use qarau.Store.{
  Store, Video, WordRow, AudioBlob, Tx, ◌>>=◌, ◌>>◌, return, complete_job, upsert_transcription,
  delete_words, delete_sentences, insert_words, upsert_asr_quota,
}
use qarau.Service.{Clock, second, quota_day}

-- MicrosToFloorInt32Seconds
unfoldable pub micros_to_floor_seconds : ℤ → ℤ
unfolding int32 quot
micros_to_floor_seconds micros = int32_of (quot micros second)

-- MicrosToCeilInt32Seconds
unfoldable pub micros_to_ceil_seconds : ℤ → ℤ
unfolding micros_to_floor_seconds ◌+ℤ◌
micros_to_ceil_seconds micros = micros_to_floor_seconds (micros +ℤ pos 999999)

-- GetVideoByID, of which only the duration is read.
unfoldable pub find_video : ℕ → List Video → Option ℤ
find_video id [] = none
find_video id (v ∷ vs) = if v.id == id then some v.duration_micros else find_video id vs

-- getVideoDuration
unfoldable pub get_video_duration : ℕ → Store → Result ℤ
unfolding find_video micros_to_ceil_seconds
get_video_duration video s = elim (find_video video s.videos) [
  | none ↦ err no_rows
  | some micros ↦ ok (micros_to_ceil_seconds micros)
]

abbrev pub to_word_row : ℕ → ℕ → Word → WordRow
to_word_row transcription i w = record {
  transcription_id = transcription;
  seq = int32 i;
  start_ms = int32 w.start_ms;
  end_ms = int32 w.end_ms;
  word = w.word;
  confidence = int16 w.confidence;
  speaker = int32 w.speaker;
}

unfoldable pub to_word_rows : ℕ → ℕ → List Word → List WordRow
to_word_rows transcription i [] = []
to_word_rows transcription i (w ∷ ws) =
    to_word_row transcription i w ∷ to_word_rows transcription (suc i) ws

unfoldable pub store_words : ℕ → List Word → Tx (Unit {0})
unfolding to_word_rows insert_words
store_words transcription [] = return tt
store_words transcription (w ∷ ws) = insert_words (to_word_rows transcription 0 (w ∷ ws))

-- The transaction of CompleteAsrJob.
unfoldable pub store_transcription : Clock → String → ℕ → ℕ → String → List Word → ℤ → Tx ℕ
unfolding upsert_transcription delete_words delete_sentences store_words complete_job
    upsert_asr_quota quota_day
store_transcription c worker job video model words used_seconds = do
  transcription ← upsert_transcription video model
  delete_words transcription
  delete_sentences transcription
  store_words transcription words
  complete_job job asr worker c.db
  upsert_asr_quota (quota_day c.app) used_seconds
  return transcription

-- CompleteAsrJob
unfoldable pub complete_asr_job : Clock → String → ℕ → ℕ → String → List Word → Tx ℕ
unfolding get_video_duration store_transcription
complete_asr_job c worker job video model words s = elim (get_video_duration video s) [
  | err e ↦ err e
  | ok used ↦ store_transcription c worker job video model words used s
]

-- GetAudioBlob: the blob and, from the video, its duration.
pub record AudioBlobContent : Type 0 where
  pub filename : List ℕ
  pub content : List ℕ
  pub duration_secs : ℤ

unfoldable pub find_blob : ℕ → List AudioBlob → Option AudioBlob
find_blob video [] = none
find_blob video (b ∷ bs) = if b.video_id == video then some b else find_blob video bs

abbrev with_duration : AudioBlob → Option ℤ → Result AudioBlobContent
with_duration b none = err no_rows
with_duration b (some micros) = ok (record {
  filename = b.filename;
  content = b.content;
  duration_secs = micros_to_floor_seconds micros;
})

unfoldable pub get_audio_blob : ℕ → Store → Result AudioBlobContent
unfolding find_blob find_video micros_to_floor_seconds
get_audio_blob video s = elim (find_blob video s.blobs) [
  | none ↦ err no_rows
  | some b ↦ with_duration b (find_video video s.videos)
]
