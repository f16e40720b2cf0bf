-- ===== src/Examples/Vad.antt =====
-- The segmentation and the restoring of words on short recordings.
use qarau.Common.{ℕ, ◌≡◌, refl, List, [], ◌∷◌, arith}
use qarau.Common.Int.{quot, min_ℤ, ◌*ℤ◌, ◌-ℤ◌, ◌+ℤ◌, ℤ, pos}
use qarau.Common.Result.{ok}
use qarau.Common.{◌≤◌}
use qarau.Common.Result.{Result}
use qarau.Eleven.{total_length, partition, parallel_request, concat_words}
use qarau.Eleven.Pipeline.{AllRestored, AnswersInOrder, parallel_request-AllRestored}
use qarau.Words.{Word}
use qarau.Vad.{
  finalize_if_present, length_in_frames, append_segment, do_append_segment, finalize_if_max_frames,
  new_collector, append_to_fragment, finalize, finalize_if_gap, get_real_end, SegmentRange,
  Fragment, join_ranges, stitch_content,
}
use qarau.Vad.Segment.{
  segment_loop, segment_step, frames_between, take_from_prev_gap, take_from_next_gap, padded_end,
  padded_start, ceil_div, Segment, segment_audio,
}
use qarau.Vad.Layout.{AllLaid, IsLaid, join_ranges-IsLaid}
use qarau.Vad.Faithful.{segment_audio-laid}
use qarau.Vad.Spans.{spans}
use qarau.Vad.Coverage.{Covers, segment_audio-Covers}
use qarau.Vad.Restore.{end_frame, restore_in, frame_of, restore_word_timestamps}
use qarau.Vad.Placing.{AllBack, restore_word_timestamps-AllBack}

-- Times in milliseconds, as the detector's seconds would round to.
abbrev same : ℤ → ℤ
same t = t

abbrev short : List ℕ
short = 1 ∷ 2 ∷ 3 ∷ 4 ∷ []

abbrev one : List (Segment ℤ)
one = record { speech_start_at = pos 0; speech_end_at = pos 1 } ∷ []

abbrev whole : List Fragment
whole =
    record {
      content = short;
      ranges = record { real_start = pos 0; real_end = pos 2; copy_start = pos 0 } ∷ [];
      real_speech_end = pos 16;
    }
    ∷ []

no_gap : segment_audio ℤ same short one (pos 100) (pos 2000) (pos 120000) ≡ ok whole
unfolding segment_audio segment_loop segment_step ◌*ℤ◌ ◌-ℤ◌ ◌+ℤ◌ frames_between take_from_prev_gap
    take_from_next_gap min_ℤ ceil_div finalize_if_present length_in_frames append_segment
    do_append_segment finalize_if_max_frames new_collector append_to_fragment quot padded_end
    padded_start finalize finalize_if_gap get_real_end
no_gap = refl

segment_audio-laid_example : AllLaid short whole
segment_audio-laid_example =
    segment_audio-laid ℤ same short one (pos 100) (pos 2000) (pos 120000) whole no_gap

segment_audio-Covers_example :
    (fs : List Fragment) × (segment_audio ℤ same short one (pos 100) (pos 2000) (pos 120000)
      ≡ ok fs)
    × Covers (record { pcm = short; pad_millis = pos 100 }) 0 ((0, 1) ∷ []) (spans fs)
unfolding ceil_div
segment_audio-Covers_example =
    segment_audio-Covers ℤ same short one ((0, 1) ∷ []) 100 (pos 2000) (pos 120000) refl
      (refl, refl, tt) (omega arith)

-- Two fragments of one frame each.
abbrev halves : List Fragment
halves =
    record {
      content = 1 ∷ 2 ∷ [];
      ranges = record { real_start = pos 0; real_end = pos 1; copy_start = pos 0 } ∷ [];
      real_speech_end = pos 1;
    }
    ∷ record {
      content = 3 ∷ 4 ∷ [];
      ranges = record { real_start = pos 1; real_end = pos 2; copy_start = pos 0 } ∷ [];
      real_speech_end = pos 2;
    }
    ∷ []

join_ranges-IsLaid_example : IsLaid short 0 (stitch_content halves) (join_ranges halves)
join_ranges-IsLaid_example = join_ranges-IsLaid short halves (
  (0, 1, [], (refl, refl, refl, omega arith, omega arith), refl, refl),
  ((1, 2, [], (refl, refl, refl, omega arith, omega arith), refl, refl), tt),
)

-- A range of two milliseconds that begins one millisecond into the recording.
abbrev shifted : SegmentRange
shifted = record { real_start = pos 16; real_end = pos 48; copy_start = pos 0 }

abbrev spoken : List Word
spoken =
    record { word = "алма"; start_ms = 0; end_ms = 1; confidence = 90; speaker = 0 }
    ∷ record { word = "қызыл"; start_ms = 1; end_ms = 3; confidence = 80; speaker = 0 }
    ∷ []

restored :
    restore_word_timestamps (shifted ∷ []) spoken
    ≡ record { word = "алма"; start_ms = 1; end_ms = 2; confidence = 90; speaker = 0 }
      ∷ record { word = "қызыл"; start_ms = 2; end_ms = 3; confidence = 80; speaker = 0 }
      ∷ []
unfolding restore_word_timestamps restore_in frame_of end_frame ◌-ℤ◌ ◌+ℤ◌
restored = refl

restore_word_timestamps-AllBack_example :
    AllBack (shifted ∷ []) spoken (restore_word_timestamps (shifted ∷ []) spoken)
unfolding frame_of
restore_word_timestamps-AllBack_example =
    restore_word_timestamps-AllBack shifted [] 32 spoken
      (16, 48, (refl, refl, refl, omega arith, omega arith, omega arith), refl)
      (omega arith, omega arith, (omega arith, omega arith, tt))

-- A service that finds one word at the start of any audio.
abbrev listen : List ℕ → Result (List Word)
listen [] = ok []
listen (b ∷ []) = ok []
listen (b ∷ c ∷ rest) =
    ok (record { word = "a"; start_ms = 0; end_ms = 1; confidence = 99; speaker = 0 } ∷ [])

listen-AnswersInOrder : AnswersInOrder listen
unfolding frame_of
listen-AnswersInOrder [] = ([], refl, tt)
listen-AnswersInOrder (b ∷ []) = ([], refl, tt)
listen-AnswersInOrder (b ∷ c ∷ rest) = (
  record { word = "a"; start_ms = 0; end_ms = 1; confidence = 99; speaker = 0 } ∷ [],
  refl,
  (omega arith, omega arith, tt),
)

whole_length : 1 ≤ total_length whole
unfolding total_length length_in_frames
whole_length = omega arith

parallel_request-AllRestored_example :
    (words : List Word) × (parallel_request listen whole ≡ ok words)
    × (parts : List (List Fragment)) × (results : List (List Word)) × (partition whole ≡ ok parts)
    × (words ≡ concat_words results)
    × AllRestored listen parts results
unfolding ceil_div
parallel_request-AllRestored_example =
    parallel_request-AllRestored ℤ same listen short one ((0, 1) ∷ []) 100 (pos 2000) (pos 120000)
      whole refl (omega arith) (refl, refl, tt) (omega arith) no_gap whole_length
      listen-AnswersInOrder
