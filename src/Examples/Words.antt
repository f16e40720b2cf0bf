-- ===== src/Examples/Words.antt =====
-- Sentences, subtitles, the parts of a transcription and the polling loop on small inputs.
use Prim.Native.String.{String}
use qarau.Common.{ℕ, ◌≡◌, refl, List, [], ◌∷◌, length, arith, ◌≤◌, ◌+◌, map}
use qarau.Common.Int.{pos}
use qarau.Common.Result.{ok}
use qarau.Common.Runs.{runs, joined}
use qarau.Worker.{
  Round, wait_no_job, backoff_on_error, processed, loop, initial_back_off, sleeps, loop-sleeps,
}
use qarau.Words.{Word}
use qarau.Sentences.{
  Sentence, segment_word_stream, to_sentences, goes_on, ends_terminal, is_trailing_noise, is_space,
  is_terminal_rune, join_words, last_word,
}
use qarau.Sentences.Cut.{AreCut, segment_word_stream-AreCut}
use qarau.Subtitles.{InputWord, group}
use qarau.Subtitles.Grouped.{AreGrouped, group-AreGrouped}
use qarau.Vad.{Fragment, length_in_frames}
use qarau.Eleven.{partition, total_length, target_frames, parts_max}
use qarau.Eleven.Parts.{AreParts, partition-AreParts}

abbrev said : String → ℕ → ℕ → Word
said text at speaker = record {
  word = text;
  start_ms = at;
  end_ms = at + 90;
  confidence = 99;
  speaker = speaker;
}

abbrev talk : List Word
talk = said "Is" 0 1 ∷ said "it?»" 100 1 ∷ said "Yes" 200 2 ∷ said "no" 300 1 ∷ []

-- A question that a quotation mark closes, and two speakers.
talk_sentences : map Sentence.text (segment_word_stream talk) ≡ "Is it?»" ∷ "Yes" ∷ "no" ∷ []
unfolding segment_word_stream to_sentences goes_on ends_terminal is_trailing_noise is_space
    is_terminal_rune join_words last_word runs joined
talk_sentences = refl

segment_word_stream-AreCut_example : AreCut 0 talk (segment_word_stream talk)
segment_word_stream-AreCut_example = segment_word_stream-AreCut talk

abbrev shown : String → ℕ → ℕ → InputWord
shown text at speaker = record {
  word = text;
  start_ms = pos at;
  end_ms = pos (at + 90);
  speaker = speaker;
}

abbrev titles : List InputWord
titles = shown "one" 0 1 ∷ shown "two" 100 1 ∷ shown "three" 2000 1 ∷ shown "four" 2100 2 ∷ []

group-AreGrouped_example : AreGrouped (pos 500) (pos 8) titles (group titles (pos 500) (pos 8))
group-AreGrouped_example = group-AreGrouped (pos 500) (pos 8) titles

abbrev speech : List Fragment
speech = record { content = 1 ∷ 2 ∷ 3 ∷ 4 ∷ []; ranges = []; real_speech_end = pos 2 } ∷ []

speech_length : 1 ≤ total_length speech
unfolding total_length length_in_frames
speech_length = omega arith

partition-AreParts_example :
    (parts : List (List Fragment)) × (partition speech ≡ ok parts)
    × AreParts (target_frames (total_length speech)) speech parts
    × (length parts ≤ parts_max + 1)
partition-AreParts_example = partition-AreParts speech speech_length

abbrev night : List Round
night = backoff_on_error ∷ backoff_on_error ∷ processed ∷ backoff_on_error ∷ wait_no_job ∷ []

-- A processed job leaves the back-off period as it is.
night_sleeps : loop initial_back_off night ≡ 60 ∷ 120 ∷ 240 ∷ 10 ∷ []
unfolding loop
night_sleeps = refl

loop-sleeps_example : loop initial_back_off night ≡ sleeps 0 night
loop-sleeps_example = loop-sleeps night
