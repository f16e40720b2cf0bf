-- ===== src/Vad/Restore.antt =====
-- RestoreWordTimestamps (internal/vad/restore.go): words that were timed in the stitched audio are
-- moved back to their times in the recording. The field `pos` of the loop is the current range
-- with those behind it, since it only moves forward.
use qarau.Common.{
  ◌-◌, ℕ, ◌+◌, ◌*◌, ◌%◌, ◌/◌, ◌&&◌, Option, none, some, List, [], ◌∷◌, ltb, if◌then◌else◌,
}
use qarau.Common.Int.{ℤ, pos, negsuc, ◌+ℤ◌, ◌-ℤ◌, leb_ℤ, ltb_ℤ}
use qarau.Words.{Word}
use qarau.Vad.{SegmentRange, duration}

pub data WordResult : Type 0 where
  good fixed_start fixed_end : WordResult

abbrev pub u32 : ℕ → ℕ
u32 n = n % 4294967296

-- uint32(x) of an int: its low 32 bits.
abbrev pub to_u32 : ℤ → ℕ
to_u32 (pos n) = u32 n
to_u32 (negsuc n) = 4294967295 - u32 n

-- The frame of a time in milliseconds; the product is a uint32.
unfoldable pub frame_of : ℕ → ℕ
frame_of millis = u32 (millis * 16)

-- A word of no length gets one frame.
unfoldable pub end_frame : ℕ → ℕ → ℕ
end_frame start end = if ltb start end then end else start + 1

-- The current range moves forward while the next one starts at or before the word.
unfoldable pub advance : SegmentRange → List SegmentRange → ℕ → SegmentRange × List SegmentRange
advance r [] start = (r, [])
advance r (q ∷ qs) start =
    if leb_ℤ q.copy_start (pos start) then advance q qs start else (r, q ∷ qs)

abbrev pub moved : Word → ℤ → ℤ → ℤ → Word
moved w start end delta = record w {
  start_ms = to_u32 (start +ℤ delta) / 16;
  end_ms = to_u32 (end +ℤ delta) / 16;
}

-- The word in the range r: at its place if it fits, cut at the range's end or start if it reaches
-- over it, and nothing otherwise.
unfoldable pub restore_in : SegmentRange → Word → ℕ → ℕ → Option (Word × WordResult)
unfolding duration
restore_in r w start end =
    let copy_start = r.copy_start in
    let copy_end = copy_start +ℤ duration r in
    let delta = r.real_start -ℤ copy_start in
    if ltb_ℤ delta (pos 0)
    then none
    else if leb_ℤ copy_start (pos start) && leb_ℤ (pos end) copy_end
    then some (moved w (pos start) (pos end) delta, good)
    else if leb_ℤ copy_start (pos start) && ltb_ℤ (pos start) copy_end
    then some (moved w (pos start) copy_end delta, fixed_end)
    else if ltb_ℤ copy_start (pos end) && leb_ℤ (pos end) copy_end
    then some (moved w copy_start (pos end) delta, fixed_start)
    else none

abbrev pub add_result :
    Option (Word × WordResult) → List (Word × WordResult) → List (Word × WordResult)
add_result none rest = rest
add_result (some p) rest = p ∷ rest

-- The frames of a word in the stitched audio.
abbrev pub word_start : Word → ℕ
word_start w = frame_of w.start_ms

abbrev pub word_end : Word → ℕ
word_end w = end_frame (word_start w) (frame_of w.end_ms)

unfoldable pub restore_loop :
    SegmentRange → List SegmentRange → List Word → List (Word × WordResult)
unfolding advance
restore_loop r rest [] = []
restore_loop r rest (w ∷ ws) =
    let at = advance r rest (word_start w) in
    add_result (restore_in at.0 w (word_start w) (word_end w)) (restore_loop at.0 at.1 ws)

abbrev pub later_than : Option ℕ → ℕ → ℕ
later_than none start = start
later_than (some end) start = if ltb start end then end else start

abbrev pub earlier_than : List (Word × WordResult) → ℕ → ℕ
earlier_than [] end = end
earlier_than ((next, k) ∷ rest) end = if ltb next.start_ms end then next.start_ms else end

-- A guessed start gives way to the end of the word before it, a guessed end to the start of the
-- word behind it.
unfoldable pub repair_word : Option ℕ → Word → WordResult → List (Word × WordResult) → Word
repair_word before w good rest = w
repair_word before w fixed_start rest = record w { start_ms = later_than before w.start_ms }
repair_word before w fixed_end rest = record w { end_ms = earlier_than rest w.end_ms }

unfoldable pub repair : Option ℕ → List (Word × WordResult) → List Word
unfolding repair_word
repair before [] = []
repair before ((w, k) ∷ rest) =
    let w' = repair_word before w k rest in w' ∷ repair (some w'.end_ms) rest

unfoldable pub restore_word_timestamps : List SegmentRange → List Word → List Word
unfolding restore_loop repair
restore_word_timestamps [] words = []
restore_word_timestamps (r ∷ rs) words = repair none (restore_loop r rs words)
