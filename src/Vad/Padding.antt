-- ===== src/Vad/Padding.antt =====
-- The padding of a segment in natural numbers, for segments that follow one another in time.
use qarau.Vad.{append_segment, ok, Collector}
use qarau.Common.{
  ◌||◌, le→leb, slice, length, List, ◌<◌, ℕ, ◌+◌, ◌-◌, ◌*◌, ◌/◌, ◌≤◌, ◌≡◌, Bool, true, false, leb,
  min, if◌then◌else◌, arith,
}
use qarau.Common.Int.{leb_ℤ, ltb_ℤ, pos, ◌+ℤ◌, ◌-ℤ◌, ◌*ℤ◌, quot, min_ℤ}
use qarau.Vad.Segment.{
  frames_between, segment_step, Recording, take_from_prev_gap, take_from_next_gap, padded_start,
  padded_end, to_frames, total_frames,
}

abbrev pub prev_take : Bool → ℕ → ℕ → ℕ
prev_take is_first pad gap =
    if leb gap (pad * 2) then if is_first then min gap pad else gap - gap / 2 else pad

abbrev pub next_take : Bool → ℕ → ℕ → ℕ
next_take has_next pad gap =
    if leb gap (pad * 2) then if has_next then gap / 2 else min gap pad else pad

take_from_prev_gap-pos :
    (b : Bool) (pad gap : ℕ) → take_from_prev_gap b (pos pad) (pos gap) ≡ pos (prev_take b pad gap)
unfolding take_from_prev_gap ◌*ℤ◌ ◌-ℤ◌ quot min_ℤ
take_from_prev_gap-pos true pad gap = ground arith
take_from_prev_gap-pos false pad gap = ground arith

take_from_next_gap-pos :
    (b : Bool) (pad gap : ℕ) → take_from_next_gap b (pos pad) (pos gap) ≡ pos (next_take b pad gap)
unfolding take_from_next_gap ◌*ℤ◌ quot min_ℤ
take_from_next_gap-pos true pad gap = ground arith
take_from_next_gap-pos false pad gap = ground arith

pub sub-pos : (a b : ℕ) → b ≤ a → pos a -ℤ pos b ≡ pos (a - b)
unfolding ◌-ℤ◌
sub-pos a b h = ground arith

pub add-pos : (a b : ℕ) → pos a +ℤ pos b ≡ pos (a + b)
unfolding ◌+ℤ◌
add-pos a b = ground arith

to_frames-pos : (a : ℕ) → to_frames (pos a) ≡ pos (a * 16)
unfolding ◌*ℤ◌
to_frames-pos a = ground arith

prev_take-le : (b : Bool) (pad gap : ℕ) → prev_take b pad gap ≤ gap
prev_take-le true pad gap = ground arith
prev_take-le false pad gap = ground arith

next_take-le : (b : Bool) (pad gap : ℕ) → next_take b pad gap ≤ gap
next_take-le true pad gap = ground arith
next_take-le false pad gap = ground arith

padded_start-pos :
    (a : Recording) (b : Bool) (pad prev start : ℕ)
    → a.pad_millis ≡ pos pad
    → prev ≤ start
    → padded_start a b (pos prev) (pos start) ≡ pos (start - prev_take b pad (start - prev))
unfolding padded_start
padded_start-pos a b pad prev start p le =
    rw (p, sub-pos start prev le, take_from_prev_gap-pos b pad (start - prev))
      (sub-pos start (prev_take b pad (start - prev))
        (omega (arith, prev_take-le b pad (start - prev))))

padded_end-pos :
    (a : Recording) (b : Bool) (pad next end : ℕ)
    → a.pad_millis ≡ pos pad
    → end ≤ next
    → padded_end a b (pos next) (pos end) ≡ pos (end + next_take b pad (next - end))
unfolding padded_end
padded_end-pos a b pad next end p le =
    rw (p, sub-pos next end le, take_from_next_gap-pos b pad (next - end))
      (add-pos end (next_take b pad (next - end)))

-- The frames that a segment is cut at.
abbrev pub first_frame : Bool → ℕ → ℕ → ℕ → ℕ
first_frame b pad prev start = (start - prev_take b pad (start - prev)) * 16

abbrev pub last_frame : Recording → Bool → ℕ → ℕ → ℕ → ℕ
last_frame a b pad next end = min (total_frames a) ((end + next_take b pad (next - end)) * 16)

min_ℤ-pos : (a b : ℕ) → min_ℤ (pos a) (pos b) ≡ pos (min a b)
unfolding min_ℤ
min_ℤ-pos a b = ground arith

frames_between-pos :
    (pcm : List ℕ) (a b : ℕ)
    → a ≤ b
    → b * 2 ≤ length pcm
    → frames_between pcm (pos a) (pos b) ≡ ok (slice (a * 2) (b * 2) pcm)
unfolding frames_between
frames_between-pos pcm a b le fits = rw (le→leb a b le, le→leb (b * 2) (length pcm) fits)

-- The frames of a segment hold its speech, as far as the recording goes.
pub frames_hold :
    (a : Recording) (first more : Bool) (pad prev start end next : ℕ)
    → start * 16 < total_frames a
    → start < end
    → (first_frame first pad prev start ≤ start * 16)
      × (start * 16 < last_frame a more pad next end)
      × (min (total_frames a) (end * 16) ≤ last_frame a more pad next end)
      × (last_frame a more pad next end * 2 ≤ length a.pcm)
frames_hold a first more pad prev start end next inside lt =
    (omega arith, omega arith, omega arith, omega arith)

-- A segment in time order is cut out as one range.
pub segment_step-pos :
    (a : Recording) (first more : Bool) (pad prev start end next : ℕ) (c : Collector)
    → a.pad_millis ≡ pos pad
    → prev ≤ start
    → start < end
    → end ≤ next
    → start * 16 < total_frames a
    → let from = first_frame first pad prev start in
      let to = last_frame a more pad next end in
      segment_step a first more (pos prev) (pos start) (pos end) (pos next) c
      ≡ ok (
        pos end,
        append_segment c
            (slice (from * 2) (to * 2) a.pcm)
            (pos (start * 16))
            (pos from)
            (pos (end * 16))
            (pos to),
      )
unfolding segment_step
segment_step-pos a first more pad prev start end next c p le lt ne inside =
    let hold = frames_hold a first more pad prev start end next inside lt in
    rw (
      to_frames-pos start,
      to_frames-pos end,
      starts,
      ends,
      padded_start-pos a first pad prev start p le,
      padded_end-pos a more pad next end p ne,
      to_frames-pos (start - prev_take first pad (start - prev)),
      to_frames-pos (end + next_take more pad (next - end)),
      min_ℤ-pos (total_frames a) ((end + next_take more pad (next - end)) * 16),
      frames_between-pos a.pcm (first_frame first pad prev start) (last_frame a more pad next end)
          (omega arith) hold.3,
    )
  where
    starts :
        (ltb_ℤ (pos (start * 16)) (pos 0) || leb_ℤ (pos (total_frames a)) (pos (start * 16)))
        ≡ false
    starts = ground arith

    ends : leb_ℤ (pos (end * 16)) (pos (start * 16)) ≡ false
    ends = ground arith
