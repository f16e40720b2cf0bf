-- ===== src/Eleven.antt =====
-- Transcription by the service of ElevenLabs (internal/eleven/partition.go and transcriber.go): the
-- speech is sent in parts. The service, which is requestWithRetries on one part's audio, is a
-- parameter.
pub mod Parts
pub mod Chains
pub mod Pipeline
pub mod Request
pub mod Speakers
use qarau.Common.{
  ℕ, suc, ◌+◌, ◌*◌, ◌/◌, Bool, true, false, Option, none, some, List, [], ◌∷◌, ◌++◌, length, ltb,
  ◌==◌, max, if◌then◌else◌,
}
use qarau.Common.Result.{Result, ok, err, ◌>>=◌, no_fragments, no_content}
use qarau.Common.Runs.{runs}
use qarau.Words.{Word}
use qarau.Vad.{Fragment, length_in_frames, join_ranges, stitch_content}
use qarau.Vad.Restore.{restore_word_timestamps}

abbrev pub add_frames : ℕ → Fragment → ℕ
add_frames n f = n + length_in_frames f

-- Whether a part that is not at its end goes on.
abbrev pub is_short : ℕ → ℕ → Fragment → Bool
is_short target frames next = ltb frames target

unfoldable pub to_parts : List (Fragment × List Fragment) → List (List Fragment)
to_parts [] = []
to_parts ((f, fs) ∷ rs) = (f ∷ fs) ∷ to_parts rs

-- partitionFragments: a part ends when it has the target's length, or with the last fragment.
unfoldable pub partition_fragments : List Fragment → ℕ → Option (List (List Fragment))
unfolding to_parts runs length_in_frames
partition_fragments fragments target =
    if length fragments == 0
    then none
    else if target == 0
    then none
    else some
        (to_parts (runs length_in_frames add_frames (is_short target) (length fragments) fragments))

abbrev pub part_min_frames : ℕ
part_min_frames = 7 * 60 * 16000

abbrev pub parts_max : ℕ
parts_max = 10

unfoldable pub total_length : List Fragment → ℕ
total_length [] = 0
total_length (f ∷ fs) = length_in_frames f + total_length fs

unfoldable pub target_frames : ℕ → ℕ
target_frames total = max part_min_frames (total / parts_max)

abbrev or_no_parts : Option (List (List Fragment)) → Result (List (List Fragment))
or_no_parts none = err no_fragments
or_no_parts (some parts) = ok parts

-- partition
unfoldable pub partition : List Fragment → Result (List (List Fragment))
unfolding total_length target_frames partition_fragments
partition fragments =
    if total_length fragments == 0
    then err no_content
    else or_no_parts (partition_fragments fragments (target_frames (total_length fragments)))

-- stitch
unfoldable pub stitch : List Fragment → Result (List ℕ)
stitch [] = err no_fragments
stitch (f ∷ fs) = ok (stitch_content (f ∷ fs))

-- concatWords
unfoldable pub concat_words : List (List Word) → List Word
concat_words [] = []
concat_words (ws ∷ parts) = ws ++ concat_words parts

module _ (request : List ℕ → Result (List Word)) where
  -- What one goroutine of parallelRequest does.
  unfoldable pub transcribe_part : List Fragment → Result (List Word)
  unfolding stitch join_ranges restore_word_timestamps
  transcribe_part part = stitch part >>= λ audio.
      request audio >>= λ words. ok (restore_word_timestamps (join_ranges part) words)

  unfoldable pub transcribe_parts : List (List Fragment) → Result (List (List Word))
  unfolding transcribe_part
  transcribe_parts [] = ok []
  transcribe_parts (p ∷ ps) =
      transcribe_part p >>= λ words. transcribe_parts ps >>= λ rest. ok (words ∷ rest)

  -- parallelRequest: each part's words go to a place of their own, so that the order in which the
  -- requests end does not matter; an error of one is an error of all (of
  -- several, the code returns that which came first, and this the one of the first part).
  unfoldable pub parallel_request : List Fragment → Result (List Word)
  unfolding partition transcribe_parts concat_words
  parallel_request fragments = partition fragments >>= λ parts.
      transcribe_parts parts >>= λ results. ok (concat_words results)
