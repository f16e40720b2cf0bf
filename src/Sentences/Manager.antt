-- ===== src/Sentences/Manager.antt =====
-- SentenceManager (internal/api/sentence_manager.go), and JobServer.CompleteAsr
-- (internal/api/job_server.go), which stores a transcription and then its sentences.
use Prim.Native.String.{String}
use qarau.Common.{ℕ, suc, Option, none, some, List, [], ◌∷◌, length, if◌then◌else◌}
use qarau.Common.Int.{ℤ, pos, pos_part, int32, leb_ℤ}
use qarau.Common.Result.{ok, err, internal, invalid_argument}
use qarau.Words.{Word}
use qarau.Store.{SentenceRow, Tx, ◌>>◌, return, delete_sentences, insert_sentences}
use qarau.Service.{Clock}
use qarau.Service.Requests.{after}
use qarau.Transcript.{complete_asr_job}
use qarau.Sentences.{Sentence, segment_word_stream}

abbrev pub to_sentence_row : ℕ → ℕ → Sentence → SentenceRow
to_sentence_row transcription i s = record {
  transcription_id = transcription;
  seq = int32 i;
  start_word_seq = int32 s.start_word_seq;
  end_word_seq = int32 s.end_word_seq;
  start_ms = int32 s.start_ms;
  end_ms = int32 s.end_ms;
  text = s.text;
}

unfoldable pub to_sentence_rows : ℕ → ℕ → List Sentence → List SentenceRow
to_sentence_rows transcription i [] = []
to_sentence_rows transcription i (s ∷ ss) =
    to_sentence_row transcription i s ∷ to_sentence_rows transcription (suc i) ss

-- upsertSentences
unfoldable pub upsert_sentences : ℕ → List Sentence → Tx ℕ
unfolding to_sentence_rows delete_sentences insert_sentences
upsert_sentences transcription ss = do
  delete_sentences transcription
  insert_sentences (to_sentence_rows transcription 0 ss)
  return (length ss)

-- CreateAndUpsertSentencesForTranscription
unfoldable pub create_and_upsert_sentences : ℕ → List Word → Tx ℕ
unfolding upsert_sentences segment_word_stream
create_and_upsert_sentences transcription words =
    upsert_sentences transcription (segment_word_stream words)

abbrev pub complete_transcription : Clock → String → ℕ → ℕ → String → List Word → Tx (Unit {0})
complete_transcription c worker job video model words s =
    elim (complete_asr_job c worker job video model words s) [
      | err e ↦ err internal
      | ok (id, t) ↦ ok (tt, after t (create_and_upsert_sentences id words t))
    ]

-- CompleteAsr. A failure to store the sentences is only logged.
unfoldable pub complete_asr : Clock → String → ℤ → ℕ → Option (String × List Word) → Tx (Unit {0})
unfolding complete_asr_job create_and_upsert_sentences
complete_asr c worker job video transcription s =
    if leb_ℤ job (pos 0) then err invalid_argument else elim transcription [
      | none ↦ err invalid_argument
      | some (model, words) ↦ complete_transcription c worker (pos_part job) video model words s
    ]
