-- ===== src/Streams/Download.antt =====
-- The download of a recording by an asr worker: JobServer.GetFetchedAudio
-- (internal/api/job_server.go) and ASRWorker.getFetchedAudio (internal/asr/asr_worker.go), whose
-- file is its bytes. The file system is taken to write what it is given.
use Prim.Native.String.{String}
use qarau.Common.{ℕ, ◌+◌, not, List, [], ◌∷◌, ◌++◌, map, length, ◌==◌, if◌then◌else◌}
use qarau.Common.Int.{ℤ, pos, ltb_ℤ}
use qarau.Common.Result.{
  Result, ok, err, ◌>>=◌, not_found, internal, unavailable, too_big, too_short, empty_message,
  bad_offset, bad_checksum, bad_length,
}
use qarau.Store.{Store}
use qarau.Service.{Clock, check_lease}
use qarau.Transcript.{AudioBlobContent, get_audio_blob}
use qarau.Streams.{Chunk, checksum, to_chunks, max_audio_chunk, max_audio_size}
use qarau.Streams.Upload.{is_size}

-- FetchedAudioMeta
pub record AudioMeta : Type 0 where
  pub filename : List ℕ
  pub length : ℤ
  pub duration_secs : ℤ

-- GetFetchedAudioResponse: one of the two, or neither.
pub data Response : Type 0 where
  audio_meta : AudioMeta → Response
  audio_chunk : Chunk → Response
  no_message : Response

pub data Reply : Type 0 where
  got : Response → Reply
  lost : Reply

abbrev pub to_meta : AudioBlobContent → AudioMeta
to_meta b = record {
  filename = b.filename;
  length = pos (length b.content);
  duration_secs = b.duration_secs;
}

abbrev pub send_audio : AudioBlobContent → List Response
send_audio b = audio_meta (to_meta b) ∷ map audio_chunk (to_chunks max_audio_chunk b.content)

abbrev pub answer_blob : Result AudioBlobContent → Result (List Response)
answer_blob (ok b) = ok (send_audio b)
answer_blob (err e) = err internal

-- GetFetchedAudio
unfoldable pub get_fetched_audio : Clock → String → ℕ → ℕ → Store → Result (List Response)
unfolding check_lease get_audio_blob to_chunks
get_fetched_audio c worker job video s = check_lease c job worker s >>= λ valid.
    if valid then answer_blob (get_audio_blob video s) else err not_found

pub record FetchedAudio : Type 0 where
  pub file : List ℕ
  pub duration_secs : ℤ

-- The first message: the length and the duration that it declares.
abbrev pub receive_meta : Reply → Result AudioMeta
receive_meta lost = err unavailable
receive_meta (got (audio_chunk c)) = err empty_message
receive_meta (got no_message) = err empty_message
receive_meta (got (audio_meta m)) =
    if ltb_ℤ m.length (pos 1024)
    then err too_short
    else if ltb_ℤ (pos max_audio_size) m.length
    then err too_big
    else ok m

-- A further message, after the bytes written so far.
unfoldable pub receive_chunk : ℤ → List ℕ → Reply → Result (List ℕ)
receive_chunk declared written lost = err unavailable
receive_chunk declared written (got (audio_meta m)) = err empty_message
receive_chunk declared written (got no_message) = err empty_message
receive_chunk declared written (got (audio_chunk c)) =
    if not (is_size (length written) c.offset)
    then err bad_offset
    else if not (checksum c.content == c.crc32)
    then err bad_checksum
    else if ltb_ℤ declared (pos (length written + length c.content))
    then err bad_length
    else ok (written ++ c.content)

unfoldable pub receive_chunks : ℤ → List ℕ → List Reply → Result (List ℕ)
unfolding receive_chunk
receive_chunks declared written [] =
    if is_size (length written) declared then ok written else err bad_length
receive_chunks declared written (r ∷ rs) =
    receive_chunk declared written r >>= λ next. receive_chunks declared next rs

-- getFetchedAudio
unfoldable pub receive_audio : List Reply → Result FetchedAudio
unfolding receive_chunks
receive_audio [] = err unavailable
receive_audio (r ∷ rs) = receive_meta r >>= λ m. receive_chunks m.length [] rs >>= λ bytes.
    ok (record { file = bytes; duration_secs = m.duration_secs })
