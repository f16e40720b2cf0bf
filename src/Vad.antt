-- ===== src/Vad.antt =====
-- Cutting the speech out of a recording (internal/vad/segment.go) and joining the ranges of the
-- pieces (internal/vad/join.go). A byte is a number; positions are frames of two bytes.
-- `copy` clones both slices, so that a finished fragment shares no memory with the current one.
pub mod Segment
pub mod Layout
pub mod Faithful
pub mod Padding
pub mod Spans
pub mod Coverage
pub mod Restore
pub mod Chains
pub mod Placing
use qarau.Common.{
  ℕ, suc, ◌+◌, ◌-◌, ◌*◌, ◌/◌, Bool, true, false, not, ◌||◌, List, [], ◌∷◌, ◌++◌, length, slice, leb,
  ltb, ◌==◌, if◌then◌else◌, ◌≡◌,
}
use qarau.Common.Int.{ℤ, pos, negsuc, ◌+ℤ◌, ◌-ℤ◌, ◌*ℤ◌, quot, leb_ℤ, ltb_ℤ, min_ℤ}
use qarau.Common.Result.{Result, ok, err, ◌>>=◌, panic}

pub record SegmentRange : Type 0 where
  pub real_start : ℤ
  pub real_end : ℤ
  pub copy_start : ℤ

unfoldable pub duration : SegmentRange → ℤ
duration r = r.real_end -ℤ r.real_start

pub record Fragment : Type 0 where
  pub content : List ℕ
  pub ranges : List SegmentRange
  pub real_speech_end : ℤ

unfoldable pub length_in_frames : Fragment → ℕ
length_in_frames f = length f.content / 2

abbrev pub reset : Fragment → Fragment
reset f = record f { content = []; ranges = [] }

unfoldable pub get_real_end : Fragment → ℤ
get_real_end f = if length f.ranges == 0 then pos 0 else f.real_speech_end

unfoldable pub append_to_fragment : Fragment → List ℕ → ℤ → ℤ → ℤ → Fragment
append_to_fragment f bytes real_start real_speech_end real_end = record {
  content = f.content ++ bytes;
  ranges =
      f.ranges
      ++ record {
        real_start = real_start;
        real_end = real_end;
        copy_start = pos (length_in_frames f);
      }
        ∷ [];
  real_speech_end = real_speech_end;
}

pub record SegmentationParams : Type 0 where
  pub fragment_max_frames : ℤ
  pub gap_max_frames : ℤ

pub record Collector : Type 0 where
  pub params : SegmentationParams
  pub fragments : List Fragment
  pub current : Fragment

unfoldable pub new_collector : SegmentationParams → Collector
new_collector params = record {
  params = params;
  fragments = [];
  current = record { content = []; ranges = []; real_speech_end = pos 0 };
}

unfoldable pub finalize : Collector → Collector
finalize c = record c { fragments = c.fragments ++ c.current ∷ []; current = reset c.current }

unfoldable pub finalize_if_max_frames : Collector → Collector
finalize_if_max_frames c =
    if leb_ℤ c.params.fragment_max_frames (pos (length_in_frames c.current)) then finalize c else c

unfoldable pub finalize_if_gap : Collector → ℤ → Collector
finalize_if_gap c next_speech_start =
    if leb_ℤ c.params.gap_max_frames (next_speech_start -ℤ get_real_end c.current)
    then finalize c
    else c

unfoldable pub finalize_if_present : Collector → Collector
finalize_if_present c = if length_in_frames c.current == 0 then c else finalize c

unfoldable pub do_append_segment : Collector → List ℕ → ℤ → ℤ → ℤ → Collector
do_append_segment c bytes start speech_end end =
    finalize_if_max_frames
      (record c { current = append_to_fragment c.current bytes start speech_end end })

unfoldable pub append_segment : Collector → List ℕ → ℤ → ℤ → ℤ → ℤ → Collector
append_segment c bytes speech_start start speech_end end =
    do_append_segment
      (if length_in_frames c.current == 0 then c else finalize_if_gap c speech_start) bytes start
      speech_end end

-- JoinRanges: the loop over the fragments, with its offset.
unfoldable pub shift_ranges : ℕ → List SegmentRange → List SegmentRange
shift_ranges offset [] = []
shift_ranges offset (r ∷ rs) =
    record {
      real_start = r.real_start;
      real_end = r.real_end;
      copy_start = pos offset +ℤ r.copy_start;
    }
    ∷ shift_ranges offset rs

unfoldable pub join_from : ℕ → List Fragment → List SegmentRange
join_from offset [] = []
join_from offset (f ∷ fs) =
    shift_ranges offset f.ranges ++ join_from (offset + length_in_frames f) fs

unfoldable pub join_ranges : List Fragment → List SegmentRange
join_ranges = join_from 0

-- stitch of internal/eleven/transcriber.go: the audio of the fragments in one piece, and an error
-- for none.
unfoldable pub stitch_content : List Fragment → List ℕ
stitch_content [] = []
stitch_content (f ∷ fs) = f.content ++ stitch_content fs
