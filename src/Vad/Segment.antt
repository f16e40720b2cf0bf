-- ===== src/Vad/Segment.antt =====
-- SegmentAudioByTimestampRanges (internal/vad/segment.go). The detector's times are float64
-- seconds: their type, and float64SecondsToMillis on it, are parameters. Machine integers hold
-- every value of a recording of at most three hours, so they are integers here.
use qarau.Common.{
  ℕ, ◌+◌, ◌-◌, ◌*◌, ◌/◌, Bool, true, false, not, ◌||◌, List, [], ◌∷◌, length, slice, leb, ◌==◌,
  if◌then◌else◌,
}
use qarau.Common.Int.{ℤ, pos, ◌+ℤ◌, ◌-ℤ◌, ◌*ℤ◌, quot, leb_ℤ, ltb_ℤ, min_ℤ}
use qarau.Common.Result.{odd_length, Result, ok, err, ◌>>=◌, panic}
use qarau.Vad.{Fragment, Collector, new_collector, append_segment, finalize_if_present}

abbrev pub sample_rate_khz : ℕ
sample_rate_khz = 16

unfoldable pub ceil_div : ℕ → ℕ → ℕ
ceil_div a b = (a + b - 1) / b

-- How much of the silence before a segment is taken with it.
unfoldable pub take_from_prev_gap : Bool → ℤ → ℤ → ℤ
take_from_prev_gap is_first pad gap =
    if leb_ℤ gap (pad *ℤ pos 2) then if is_first then min_ℤ gap pad else gap -ℤ quot gap 2 else pad

-- How much of the silence after a segment is taken with it.
unfoldable pub take_from_next_gap : Bool → ℤ → ℤ → ℤ
take_from_next_gap has_next pad gap =
    if leb_ℤ gap (pad *ℤ pos 2) then if has_next then quot gap 2 else min_ℤ gap pad else pad

-- pcm[start*2 : end*2]: a negative bound, bounds in the wrong order or an end behind the slice panic.
unfoldable pub frames_between : List ℕ → ℤ → ℤ → Result (List ℕ)
frames_between pcm (pos a) (pos b) =
    if leb a b
    then if leb (b * 2) (length pcm) then ok (slice (a * 2) (b * 2) pcm) else err panic
    else err panic
frames_between pcm _ _ = err panic

pub record Segment (S : Type 0) : Type 0 where
  pub speech_start_at : S
  pub speech_end_at : S

-- What the loop reads of its surroundings.
pub record Recording : Type 0 where
  pub pcm : List ℕ
  pub pad_millis : ℤ

abbrev pub total_frames : Recording → ℕ
total_frames a = length a.pcm / 2

abbrev pub total_millis : Recording → ℕ
total_millis a = ceil_div (total_frames a) sample_rate_khz

abbrev pub to_frames : ℤ → ℤ
to_frames millis = millis *ℤ pos sample_rate_khz

-- The padded start and end of a segment in milliseconds.
unfoldable pub padded_start : Recording → Bool → ℤ → ℤ → ℤ
padded_start a is_first prev_end start =
    start -ℤ take_from_prev_gap is_first a.pad_millis (start -ℤ prev_end)

unfoldable pub padded_end : Recording → Bool → ℤ → ℤ → ℤ
padded_end a has_next next end = end +ℤ take_from_next_gap has_next a.pad_millis (next -ℤ end)

-- The loop's body for one segment, from `start` to `end`, before a next one at `next`: a segment
-- that starts outside the recording or ends before it starts is skipped.
unfoldable pub segment_step :
    Recording → Bool → Bool → ℤ → ℤ → ℤ → ℤ → Collector → Result (ℤ × Collector)
unfolding padded_start padded_end
segment_step a is_first has_next prev_end start end next c =
    if ltb_ℤ (to_frames start) (pos 0) || leb_ℤ (pos (total_frames a)) (to_frames start)
    then ok (prev_end, c)
    else if leb_ℤ (to_frames end) (to_frames start)
    then ok (prev_end, c)
    else let from = to_frames (padded_start a is_first prev_end start) in
      let to = min_ℤ (pos (total_frames a)) (to_frames (padded_end a has_next next end)) in
      frames_between a.pcm from to >>= λ bytes.
      ok (end, append_segment c bytes (to_frames start) from (to_frames end) to)

module _ (S : Type 0) (seconds_to_millis : S → ℤ) where
  abbrev pub has_next : List (Segment S) → Bool
  has_next [] = false
  has_next (r ∷ rs) = true

  abbrev pub next_millis : Recording → List (Segment S) → ℤ
  next_millis a [] = pos (total_millis a)
  next_millis a (r ∷ rs) = seconds_to_millis r.speech_start_at

  unfoldable pub segment_loop :
      Recording → Bool → ℤ → Collector → List (Segment S) → Result Collector
  segment_loop a is_first prev_end c [] = ok c
  segment_loop a is_first prev_end c (r ∷ rs) =
      segment_step a is_first (has_next rs) prev_end (seconds_to_millis r.speech_start_at)
        (seconds_to_millis r.speech_end_at) (next_millis a rs) c
      >>= λ next. segment_loop a false next.0 next.1 rs

  unfoldable pub segment_audio : List ℕ → List (Segment S) → ℤ → ℤ → ℤ → Result (List Fragment)
  segment_audio pcm segments pad_millis gap_max_millis fragment_max_millis =
      if not (length pcm == (length pcm / 2) * 2)
      then err odd_length
      else segment_loop (record { pcm = pcm; pad_millis = pad_millis }) true (pos 0)
          (new_collector (record {
            fragment_max_frames = to_frames fragment_max_millis;
            gap_max_frames = to_frames gap_max_millis;
          }))
          segments
        >>= λ c. ok (finalize_if_present c).fragments
