-- ===== src/Pages.antt =====
-- Reading subtitles page by page: GetSubtitles and FindSeqByStartMs of internal/api/video_service.go
-- and the handler Subtitles of internal/api/video_handler.go, whose parameters are parsed here
-- already.
pub mod Client
pub mod Followed
use Prim.Native.String.{String, ◌++◌ as str_append}
use qarau.Common.{
  ℕ, suc, ◌+◌, ◌-◌, ◌%◌, Bool, true, false, ◌&&◌, ◌||◌, Option, none, some, List, [], ◌∷◌, ◌==◌,
  if◌then◌else◌, leb, ltb, length, take, map,
}
use qarau.Common.Int.{ℤ, pos, negsuc, ◌+ℤ◌, leb_ℤ, ltb_ℤ, pos_part, int32_of, between}
use qarau.Common.Result.{
  ◌>>=◌, Result, ok, err, no_rows, no_such_seq, no_such_transcription, invalid_argument,
}
use qarau.Common.Tables.{find}
use qarau.Common.Sorted.{select_by_seq}
use qarau.Common.Sorted.Parts.{max_seq}
use qarau.Store.{Store, WordRow, SentenceRow, Transcription}
use qarau.Subtitles.{InputWord, Subtitle, group}

abbrev pub is_word_from : ℕ → ℤ → WordRow → Bool
is_word_from transcription start w = w.transcription_id == transcription && leb_ℤ start w.seq

-- GetWords: LIMIT refuses a negative number.
unfoldable pub get_words : ℕ → ℤ → ℤ → Store → Result (List WordRow)
unfolding select_by_seq
get_words transcription start count s =
    if ltb_ℤ count (pos 0)
    then err invalid_argument
    else ok (
        take (pos_part count)
          (select_by_seq WordRow.seq (is_word_from transcription start) s.words))

-- A word of low confidence is shown in brackets.
abbrev pub shown_word : ℤ → WordRow → String
shown_word min_confidence w =
    if leb_ℤ min_confidence w.confidence then w.word else str_append "[" (str_append w.word "?]")

abbrev pub uint32_of : ℤ → ℕ
uint32_of (pos n) = n % 4294967296
uint32_of (negsuc n) = 4294967295 - n % 4294967296

abbrev pub to_input : ℤ → WordRow → InputWord
to_input min_confidence w = record {
  word = shown_word min_confidence w;
  start_ms = w.start_ms;
  end_ms = w.end_ms;
  speaker = uint32_of w.speaker;
}

pub record SubtitleSpan : Type 0 where
  pub items : List Subtitle
  pub next : ℤ

-- The start of the next page, in int32, or -1.
unfoldable pub next_seq : ℤ → List WordRow → ℤ
unfolding ◌+ℤ◌ max_seq
next_seq count words =
    let last = max_seq WordRow.seq (negsuc 0) words in
    if leb_ℤ (pos 0) last && leb_ℤ count (pos (length words))
    then int32_of (last +ℤ pos 1)
    else negsuc 0

-- GetTranscription
unfoldable pub get_transcription : ℕ → Store → Result Transcription
unfolding find
get_transcription id s = elim (find (λ t. Transcription.id t == id) s.transcriptions) [
  | none ↦ err no_rows
  | some t ↦ ok t
]

abbrev pub no_words : Result Transcription → Result SubtitleSpan
no_words (ok t) = ok (record { items = []; next = negsuc 0 })
no_words (err no_rows) = err no_such_transcription
no_words (err e) = err e

abbrev pub span_of : ℕ → ℤ → ℤ → Store → List WordRow → Result SubtitleSpan
span_of transcription count min_confidence s [] = no_words (get_transcription transcription s)
span_of transcription count min_confidence s (w ∷ ws) = ok (record {
  items = group (map (to_input min_confidence) (w ∷ ws)) (pos 1000) (pos 14);
  next = next_seq count (w ∷ ws);
})

-- GetSubtitles
unfoldable pub get_subtitles : ℕ → ℤ → ℤ → ℤ → Store → Result SubtitleSpan
unfolding get_words next_seq get_transcription group
get_subtitles transcription start count min_confidence s =
    get_words transcription start count s >>= span_of transcription count min_confidence s

abbrev pub is_word_at : ℕ → ℤ → WordRow → Bool
is_word_at transcription start_ms w =
    w.transcription_id == transcription && leb_ℤ start_ms w.start_ms

abbrev pub first_word : List WordRow → Result ℤ
first_word [] = err no_such_seq
first_word (w ∷ ws) = ok w.seq

-- FindSeqByStartMs
unfoldable pub find_seq_by_start_ms : ℕ → ℤ → Store → Result ℤ
unfolding select_by_seq
find_seq_by_start_ms transcription start_ms s =
    first_word (select_by_seq WordRow.seq (is_word_at transcription start_ms) s.words)

-- seqBeyondEnd
abbrev pub seq_beyond_end : ℤ
seq_beyond_end = pos 2147483647

-- How a request says where to start.
pub data Position : Type 0 where
  from_beginning : Position
  from_start_ms from_seq : ℤ → Position
  from_both : ℤ → ℤ → Position

abbrev pub or_beyond_end : Result ℤ → Result ℤ
or_beyond_end (ok seq) = ok seq
or_beyond_end (err no_such_seq) = ok seq_beyond_end
or_beyond_end (err e) = err e

unfoldable pub start_seq : ℕ → Position → Store → Result ℤ
unfolding find_seq_by_start_ms
start_seq transcription from_beginning s = ok (pos 0)
start_seq transcription (from_both ms seq) s = err invalid_argument
start_seq transcription (from_start_ms ms) s =
    if between (pos 0) seq_beyond_end ms
    then or_beyond_end (find_seq_by_start_ms transcription ms s)
    else err invalid_argument
start_seq transcription (from_seq seq) s =
    if between (pos 0) seq_beyond_end seq then ok seq else err invalid_argument

-- VideoHandler.Subtitles
unfoldable pub subtitles : ℕ → Position → ℤ → ℤ → Store → Result SubtitleSpan
unfolding start_seq get_subtitles
subtitles transcription position word_count confidence s =
    start_seq transcription position s >>= λ seq.
    if between (pos 1) (pos 1000) word_count
    then (if between (pos 0) (pos 100) confidence
        then get_subtitles transcription seq word_count confidence s
        else err invalid_argument)
    else err invalid_argument
