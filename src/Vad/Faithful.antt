-- ===== src/Vad/Faithful.antt =====
-- Every fragment that the segmentation returns is cut from the recording by its ranges.
use mathlib.Core.Bool.{not}
use mathlib.Core.List.{append-nil}
use qarau.Common.{
  if◌then◌else◌, ◌==◌, ℕ, ◌*◌, ◌/◌, ◌≤◌, ◌≡◌, refl, sym, ap, ◌∙◌, subst, List, [], ◌∷◌, ◌++◌,
  length, slice, arith, Bool, true, false, Bool-cases, inl, inr, leb, leb→le, ◌||◌,
}
use qarau.Common.Int.{ℤ, pos, negsuc, ltb_ℤ, leb_ℤ, min_ℤ}
use qarau.Common.Result.{ok, Yields, Yields-bind}
use qarau.Vad.{
  Fragment, Collector, new_collector, append_to_fragment, length_in_frames, finalize,
  finalize_if_gap, finalize_if_max_frames, finalize_if_present, do_append_segment, append_segment,
}
use qarau.Vad.Layout.{IsLaid, AllLaid, IsLaid-append}
use qarau.Vad.Segment.{
  Segment, Recording, segment_step, segment_loop, segment_audio, frames_between, padded_start,
  padded_end, to_frames, total_frames, has_next, next_millis,
}

pub record IsLaidCollector (pcm : List ℕ) (c : Collector) : Type 0 where
  pub done : AllLaid pcm c.fragments
  pub current_laid : IsLaid pcm 0 c.current.content c.current.ranges

AllLaid-append :
    (pcm : List ℕ) (fs gs : List Fragment)
    → AllLaid pcm fs
    → AllLaid pcm gs
    → AllLaid pcm (fs ++ gs)
AllLaid-append pcm [] gs l m = m
AllLaid-append pcm (f ∷ fs) gs l m = (l.0, AllLaid-append pcm fs gs l.1 m)

finalize-laid :
    (pcm : List ℕ) (c : Collector) → IsLaidCollector pcm c → IsLaidCollector pcm (finalize c)
unfolding finalize
finalize-laid pcm c l = record {
  done = AllLaid-append pcm c.fragments (c.current ∷ []) l.done (l.current_laid, tt);
  current_laid = refl;
}

if-laid :
    (pcm : List ℕ) (b : Bool) (c d : Collector)
    → IsLaidCollector pcm c
    → IsLaidCollector pcm d
    → IsLaidCollector pcm (if b then c else d)
if-laid pcm true c d l m = l
if-laid pcm false c d l m = m

-- Where a range of the recording lies.
abbrev pub IsCut : List ℕ → ℤ → ℤ → List ℕ → Type 0
IsCut pcm from to bytes =
    (a : ℕ) × (b : ℕ) × (from ≡ pos a)
    × (to ≡ pos b)
    × (a ≤ b)
    × (b * 2 ≤ length pcm)
    × (bytes ≡ slice (a * 2) (b * 2) pcm)

append_to_fragment-IsLaid :
    (pcm : List ℕ) (f : Fragment) (bytes : List ℕ) (from speech to : ℤ)
    → IsCut pcm from to bytes
    → IsLaid pcm 0 f.content f.ranges
    → let g = append_to_fragment f bytes from speech to in IsLaid pcm 0 g.content g.ranges
unfolding append_to_fragment length_in_frames
append_to_fragment-IsLaid pcm f bytes from speech to (a, b, p, q, le, fits, e) l =
    IsLaid-append pcm 0 f.content bytes f.ranges _ l
      (a, b, [], (p, q, ap pos (omega arith), le, fits), e ∙ sym (append-nil _), refl)

-- The collector before the append: closed at a gap.
abbrev pub settled : Collector → ℤ → Collector
settled c start = if length_in_frames c.current == 0 then c else finalize_if_gap c start

settled-laid :
    (pcm : List ℕ) (c : Collector) (start : ℤ)
    → IsLaidCollector pcm c
    → IsLaidCollector pcm (settled c start)
unfolding finalize_if_gap
settled-laid pcm c start l = if-laid pcm _ _ _ l (if-laid pcm _ _ _ (finalize-laid pcm c l) l)

do_append_segment-laid :
    (pcm : List ℕ) (c : Collector) (bytes : List ℕ) (from speech to : ℤ)
    → IsCut pcm from to bytes
    → IsLaidCollector pcm c
    → IsLaidCollector pcm (do_append_segment c bytes from speech to)
unfolding do_append_segment finalize_if_max_frames
do_append_segment-laid pcm c bytes from speech to cut l =
    if-laid pcm _ _ _ (finalize-laid pcm _ added) added
  where
    added :
        IsLaidCollector pcm
          (record c { current = append_to_fragment c.current bytes from speech to })
    added = record {
      done = l.done;
      current_laid =
          append_to_fragment-IsLaid pcm c.current bytes from speech to cut l.current_laid;
    }

append_segment-laid :
    (pcm : List ℕ) (c : Collector) (bytes : List ℕ) (start from speech to : ℤ)
    → IsCut pcm from to bytes
    → IsLaidCollector pcm c
    → IsLaidCollector pcm (append_segment c bytes start from speech to)
unfolding append_segment
append_segment-laid pcm c bytes start from speech to cut l =
    do_append_segment-laid pcm (settled c start) bytes from speech to cut
      (settled-laid pcm c start l)

finalize_if_present-laid :
    (pcm : List ℕ) (c : Collector)
    → IsLaidCollector pcm c
    → AllLaid pcm (finalize_if_present c).fragments
unfolding finalize_if_present
finalize_if_present-laid pcm c l = (if-laid pcm _ _ _ l (finalize-laid pcm c l)).done

frames_between-IsCut :
    (pcm : List ℕ) (from to : ℤ) → Yields (frames_between pcm from to) (IsCut pcm from to)
unfolding frames_between
frames_between-IsCut pcm (pos a) (pos b) = elim (Bool-cases (leb a b)) [
  | inl le ↦ rw le (elim (Bool-cases (leb (b * 2) (length pcm))) [
    | inl fits ↦ rw fits (a, b, refl, refl, leb→le a b le, leb→le _ _ fits, refl)
    | inr e ↦ rw e tt
  ])
  | inr e ↦ rw e tt
]
frames_between-IsCut pcm (pos a) (negsuc b) = tt
frames_between-IsCut pcm (negsuc a) to = tt

segment_step-laid :
    (a : Recording) (first more : Bool) (prev start end next : ℤ) (c : Collector)
    → IsLaidCollector a.pcm c
    → Yields (segment_step a first more prev start end next c) (λ r. IsLaidCollector a.pcm r.1)
unfolding segment_step
segment_step-laid a first more prev start end next c l =
    elim (Bool-cases
      (ltb_ℤ (to_frames start) (pos 0) || leb_ℤ (pos (total_frames a)) (to_frames start))) [
        | inl e ↦ rw e l
        | inr e ↦ rw e (elim (Bool-cases (leb_ℤ (to_frames end) (to_frames start))) [
          | inl q ↦ rw q l
          | inr q ↦ rw q (
              Yields-bind _ _ _ _ (frames_between-IsCut a.pcm from to) (λ bytes cut.
                append_segment-laid a.pcm c bytes (to_frames start) from (to_frames end) to cut l))
        ])
      ]
  where
    from : ℤ
    from = to_frames (padded_start a first prev start)

    to : ℤ
    to = min_ℤ (pos (total_frames a)) (to_frames (padded_end a more next end))

module _ (S : Type 0) (seconds_to_millis : S → ℤ) where
  segment_loop-laid :
      (a : Recording) (first : Bool) (prev : ℤ) (c : Collector) (rs : List (Segment S))
      → IsLaidCollector a.pcm c
      → Yields (segment_loop S seconds_to_millis a first prev c rs) (IsLaidCollector a.pcm)
  unfolding segment_loop
  segment_loop-laid a first prev c [] l = l
  segment_loop-laid a first prev c (r ∷ rs) l =
      Yields-bind
        (segment_step a first (has_next S seconds_to_millis rs) prev
          (seconds_to_millis r.speech_start_at) (seconds_to_millis r.speech_end_at)
          (next_millis S seconds_to_millis a rs) c)
        _ _ _
        (segment_step-laid a first (has_next S seconds_to_millis rs) prev
          (seconds_to_millis r.speech_start_at) (seconds_to_millis r.speech_end_at)
          (next_millis S seconds_to_millis a rs) c l)
        (λ next m. segment_loop-laid a false next.0 next.1 rs m)

  segment_audio-Yields :
      (pcm : List ℕ) (segments : List (Segment S)) (pad gap_max fragment_max : ℤ)
      → Yields
          (segment_audio S seconds_to_millis pcm segments pad gap_max fragment_max)
          (AllLaid pcm)
  unfolding segment_audio new_collector
  segment_audio-Yields pcm segments pad gap_max fragment_max =
      elim (Bool-cases (not (length pcm == length pcm / 2 * 2))) [
        | inl e ↦ rw e tt
        | inr e ↦ rw e (
            Yields-bind _ _ (IsLaidCollector pcm) _
              (segment_loop-laid (record { pcm = pcm; pad_millis = pad }) true (pos 0) _ segments
                (record { done = tt; current_laid = refl }))
              (λ c l. finalize_if_present-laid pcm c l))
      ]

  -- Whatever segments the detector reports, and whatever the limits: every fragment that
  -- SegmentAudioByTimestampRanges returns holds exactly the frames of the recording that its
  -- ranges name, in order and with nothing between them, each from its copy_start on, and every
  -- range lies inside the recording.
  pub segment_audio-laid :
      (pcm : List ℕ) (segments : List (Segment S)) (pad gap_max fragment_max : ℤ)
      (fs : List Fragment)
      → segment_audio S seconds_to_millis pcm segments pad gap_max fragment_max ≡ ok fs
      → AllLaid pcm fs
  segment_audio-laid pcm segments pad gap_max fragment_max fs h =
      subst (λ r. Yields r (AllLaid pcm)) h
        (segment_audio-Yields pcm segments pad gap_max fragment_max)
