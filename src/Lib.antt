-- ===== src/Lib.antt =====
-- A model of qarau, which downloads videos, transcribes their speech and serves the result.
--
-- The api process keeps a PostgreSQL database and hands out jobs to worker processes: a fetch
-- worker downloads the audio of a video, and an asr worker transcribes it. A worker leases a job
-- for a while, and then completes it or reports that it failed. An asr worker cuts the speech out
-- of the recording, has it transcribed in parts, and moves the words back to their times.
--
-- The files, and the code that each is about:
--   Common (Tests, Lists, Int, Result, Runs, Tables, Sorted): tests, lists and integers over the
--     native numbers, the wrap-around of int32 and int16, results with errors, greedy loops, and
--     the SQL statements on a table, with ORDER BY.
--   Words: the message Word of proto/qarau/v1/word.proto.
--   Jobs: the table `jobs` and its statements, db/gen/jobs.sql.go. Jobs/Rows and Jobs/Valid have
--     the lemmas on rows and the invariant of the table.
--   Store: the other tables and statements of db/gen that the job service uses. A statement takes
--     the database and returns it changed, or an error, which rolls its transaction back.
--   Service and Transcript: internal/api/job_service.go, one definition for each call. Of its
--     children, Service/Requests makes the calls one type of requests, Service/Refines reduces
--     each to the statements it runs on the jobs, and the others prove what the calls guarantee.
--   Streams: the chunks and the checksum that both streams of audio use. Streams/Upload is
--     FetchWorker.streamAudio of internal/fetch/fetch_worker.go and CompleteFetch of
--     internal/api/job_server.go; Streams/Download is GetFetchedAudio there and getFetchedAudio of
--     internal/asr/asr_worker.go. A stream is the list of the messages that arrive, io.EOF at its
--     end. The others prove what the receivers get.
--   Vad: internal/vad/segment.go and join.go; Vad/Segment is SegmentAudioByTimestampRanges,
--     Vad/Restore is internal/vad/restore.go.
--   Eleven: internal/eleven/partition.go and the parts of transcriber.go that send the speech in
--     parts; the transcription service is a parameter. Eleven/Request is one request to it, and
--     Eleven/Speakers proves how its answer is read.
--   Sentences and Subtitles: internal/sentences/segment.go and internal/subtitles/group.go, whose
--     loops, as that of Eleven, are the greedy cut into runs of Common/Runs. Sentences/Manager is
--     internal/api/sentence_manager.go with CompleteAsr of internal/api/job_server.go.
--   Videos: internal/api/video.go, the table `videos` (db/gen/videos.sql.go) and the calls of
--     internal/api/video_service.go that load a video (Videos/Probe) and process it
--     (Videos/Process); the other children prove what these calls guarantee. A database error
--     other than those of the tables' constraints is not modelled.
--   Breakdowns: the batches of sentences that a language model breaks down. Breakdowns/Batches is
--     db/gen/breakdown_batches.sql.go, Breakdowns/Model the answers of the model in
--     internal/llm/llm.go and stream.go, Breakdowns/Runner the runner of internal/llm/bb_runner.go,
--     Breakdowns/Blocking the blocking calls of llm.go, and Breakdowns/Requests what a viewer asks
--     for in internal/api/video_service.go; the others are theorems. Its tables are a record of
--     their own: the removal of a transcription's sentences, which takes their batches with it, is
--     not among the steps. Which statements fail in a round of the runner is an input of the round.
--   Pages: the subtitles of a transcription page by page, in internal/api/video_service.go and
--     video_handler.go; Pages/Client follows the pages, and Pages/Followed proves what it gets.
--   Playlists: the suggested playlists page by page, in internal/api/video_service.go, and the
--     table db/gen/playlists.sql.go; YouTube's answer is a parameter. Playlists/Client follows the
--     pages, and the other children prove what it gets.
--   LangId: internal/langid/sample.go, StitchAsFloat32 of internal/vad/segment.go and
--     internal/audio/audio.go, whose division to float32 is a parameter.
--   Worker: internal/worker/loop.go. Retries is the loop of both services' requests, that of
--     Eleven/Request and that of Breakdowns/Blocking; what a request gives is an input.
--   Examples: each theorem applied to concrete data, and tests.
--
-- Requests run one after the other. The code's requests overlap: LeaseJob and FailJob read the
-- quota or the job before they write, not in one transaction; what they write is one statement,
-- whose conditions are tested on the row again. EnqueueBreakdowns counts a transcription's active
-- batches before it inserts one, so that the bound on them is that of requests in turn. The rows
-- that another transaction locks while ClaimJob runs, which SKIP LOCKED leaves out, are an
-- argument. Two clocks are arguments of each request: that of the api process, which writes the
-- end of a lease, and that of the database, which compares with it.
--
-- Each loop goes through a list, but for three with fuel: that which cuts a recording into chunks
-- has the number of bytes, the greedy one of Common/Runs the number of elements, and that which
-- widens a sample of LangId the number of fragments; their theorems show these to be enough. The
-- clients of Pages and Playlists ask for a number of pages that their theorems show to suffice.
-- Times of the voice detector are float64 seconds, whose type and conversion are parameters, as
-- are those of the numbers in an answer of the transcription service. Integers of 64 bits are
-- unbounded where a value is a position in a recording.
--
-- Not modelled: the other web pages and their queries, the calls of YouTube, the prompt of the
-- language model, the decoding of JSON, prices, the transcription service, the classifier of the
-- language, configuration and logging.
pub mod Common
pub mod Words
pub mod Jobs
pub mod Store
pub mod Service
pub mod Transcript
pub mod Videos
pub mod Breakdowns
pub mod Streams
pub mod Worker
pub mod Retries
pub mod Pages
pub mod Playlists
pub mod Sentences
pub mod Subtitles
pub mod Vad
pub mod Eleven
pub mod LangId
pub mod Examples
