-- ===== src/Streams/Upload.antt =====
-- The upload of a fetched recording: FetchWorker.streamAudio (internal/fetch/fetch_worker.go), and
-- JobServer.validateFilename and CompleteFetch (internal/api/job_server.go).
use Prim.Native.String.{String}
use qarau.Common.{
  ℕ, suc, ◌+◌, Bool, false, not, ◌||◌, ◌&&◌, Option, none, some, List, [], ◌∷◌, ◌++◌, map, length,
  ltb, leb, ◌==◌, if◌then◌else◌,
}
use qarau.Common.Int.{ℤ, pos, negsuc, pos_part, ltb_ℤ, leb_ℤ}
use qarau.Common.Result.{
  Result, ok, err, ◌>>=◌, panic, failed_precondition, internal, unavailable, too_big,
}
use qarau.Store.{Store}
use qarau.Service.{Clock, complete_fetch_job}
use qarau.Streams.{Chunk, checksum, to_chunks, max_audio_chunk, max_audio_size}

-- CompleteFetchMeta
pub record Meta : Type 0 where
  pub job_id : ℤ
  pub video_id : ℤ
  pub filename : List ℕ
  pub length : ℤ

-- CompleteFetchRequest: one of the two, or neither.
pub data Message : Type 0 where
  meta : Meta → Message
  chunk : Chunk → Message
  empty : Message

-- What stream.Recv returns, until io.EOF.
pub data Event : Type 0 where
  received : Message → Event
  broken : Event

-- strings.Index(filename, ".")
unfoldable pub dot_pos : List ℕ → Option ℕ
dot_pos [] = none
dot_pos (b ∷ bs) =
    if b == 46 then some 0 else elim (dot_pos bs) [ none ↦ none | some n ↦ some (suc n) ]

abbrev pub is_inner : Option ℕ → ℕ → Bool
is_inner none size = false
is_inner (some at) size = not (ltb at 1 || leb size (at + 1))

-- validateFilename
unfoldable pub validate_filename : List ℕ → Bool
unfolding dot_pos
validate_filename name = not (leb (length name) 3) && is_inner (dot_pos name) (length name)

-- The variables of CompleteFetch. A declared length of zero is: no metadata yet.
pub record Upload : Type 0 where
  pub job_id : ℤ
  pub video_id : ℤ
  pub filename : List ℕ
  pub declared_len : ℤ
  pub accumulator : List ℕ

abbrev pub no_upload : Upload
no_upload = record {
  job_id = pos 0;
  video_id = pos 0;
  filename = [];
  declared_len = pos 0;
  accumulator = [];
}

abbrev pub is_size : ℕ → ℤ → Bool
is_size size (pos n) = size == n
is_size size (negsuc n) = false

abbrev pub is_zero : ℤ → Bool
is_zero = is_size 0

-- The case of a meta message. `accumulator.Grow` panics on a negative number.
unfoldable pub accept_meta : Upload → Meta → Result Upload
unfolding validate_filename
accept_meta u m =
    if ltb_ℤ (pos 0) u.declared_len
    then err failed_precondition
    else if is_zero m.length
    then err failed_precondition
    else if ltb_ℤ (pos max_audio_size) m.length
    then err failed_precondition
    else if leb_ℤ m.job_id (pos 0)
    then err failed_precondition
    else if leb_ℤ m.video_id (pos 0)
    then err failed_precondition
    else if not (validate_filename m.filename)
    then err failed_precondition
    else if ltb_ℤ m.length (pos 0)
    then err panic
    else ok (record {
      job_id = m.job_id;
      video_id = m.video_id;
      filename = m.filename;
      declared_len = m.length;
      accumulator = u.accumulator;
    })

-- The case of a chunk.
unfoldable pub accept_chunk : Upload → Chunk → Result Upload
accept_chunk u c =
    if is_zero u.declared_len
    then err failed_precondition
    else if not (is_size (length u.accumulator) c.offset)
    then err failed_precondition
    else if not (checksum c.content == c.crc32)
    then err failed_precondition
    else ok (record u { accumulator = u.accumulator ++ c.content })

abbrev pub accept : Upload → Message → Result Upload
accept u (meta m) = accept_meta u m
accept u (chunk c) = accept_chunk u c
accept u empty = ok u

-- At the end of the stream.
unfoldable pub accept_end : Upload → Result Upload
accept_end u =
    if is_zero u.declared_len
    then err failed_precondition
    else if not (is_size (length u.accumulator) u.declared_len)
    then err failed_precondition
    else ok u

unfoldable pub receive_upload : Upload → List Event → Result Upload
unfolding accept_meta accept_chunk accept_end
receive_upload u [] = accept_end u
receive_upload u (broken ∷ events) = err unavailable
receive_upload u (received m ∷ events) = accept u m >>= λ next. receive_upload next events

-- Whatever fails in the service, the stream ends with codes.Internal.
abbrev pub as_internal : {A : Type 0} → Result A → Result A
as_internal (err e) = err internal
as_internal (ok a) = ok a

-- CompleteFetch
unfoldable pub complete_fetch : Clock → String → List Event → Store → Result (Unit {0} × Store)
unfolding receive_upload complete_fetch_job
complete_fetch c worker events s = receive_upload no_upload events >>= λ u. as_internal (
    complete_fetch_job c worker (pos_part u.job_id) (pos_part u.video_id) u.accumulator u.filename
      s)

abbrev pub stream_meta : ℕ → ℕ → List ℕ → List ℕ → Message
stream_meta job video filename content = meta (record {
  job_id = pos job;
  video_id = pos video;
  filename = filename;
  length = pos (length content);
})

-- What streamAudio sends for a file with this content.
unfoldable pub stream_audio : ℕ → ℕ → List ℕ → List ℕ → Result (List Message)
unfolding to_chunks
stream_audio job video filename content =
    if ltb max_audio_size (length content)
    then err too_big
    else ok (stream_meta job video filename content ∷ map chunk (to_chunks max_audio_chunk content))
