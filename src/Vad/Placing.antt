-- ===== src/Vad/Placing.antt =====
-- Words that begin in the stitched audio come back, in order, at times inside the recording.
use qarau.Vad.Chains.{IsPlaced, restore_in-IsPlaced, Stands, advance-IsFound, IsChain, InRanges}
use qarau.Common.{
  refl, Option, none, ℕ, ◌+◌, ◌-◌, ◌/◌, ◌≤◌, ◌<◌, ◌≡◌, inl, some, List, [], ◌∷◌, arith,
}
use qarau.Words.{Word}
use qarau.Vad.{SegmentRange}
use qarau.Vad.Restore.{
  earlier_than, fixed_start, frame_of, repair_word, repair, restore_loop, end_frame,
  restore_word_timestamps, word_end, word_start, advance, WordResult, good, fixed_end,
}

-- A word put back in one of the ranges, or at the end of its piece cut short.
abbrev pub IsBack : List SegmentRange → Word → Word → Type 0
IsBack rs w v =
    (r : SegmentRange) × (at : ℕ) × (a : ℕ) × (b : ℕ) × InRanges r rs
    × Stands at a b r
    × (at ≤ word_start w)
    × (word_start w < at + (b - a))
    × (v.word ≡ w.word)
    × (v.confidence ≡ w.confidence)
    × (v.speaker ≡ w.speaker)
    × (a / 16 ≤ v.start_ms)
    × (v.start_ms ≡ (word_start w + (a - at)) / 16)
    × (v.end_ms ≤ b / 16)
    × (word_end w ≤ at + (b - a)
        → (v.start_ms ≤ v.end_ms) × (v.end_ms ≡ (word_end w + (a - at)) / 16))

-- The words v, one for each word w and in order, each put back.
abbrev pub AllBack : List SegmentRange → List Word → List Word → Type 0
AllBack rs [] [] = Unit {0}
AllBack rs (w ∷ ws) (v ∷ vs) = IsBack rs w v × AllBack rs ws vs
AllBack rs _ _ = ⊥

-- The words start in the stitched audio, from the frame lo on, in order of time.
abbrev pub InOrder : ℕ → List Word → ℕ → Type 0
InOrder lo [] end = Unit {0}
InOrder lo (w ∷ ws) end = (lo ≤ word_start w) × (word_start w < end) × InOrder (word_start w) ws end

-- The same before the second pass.
abbrev AllKept : List SegmentRange → List Word → List (Word × WordResult) → Type 0
AllKept rs [] [] = Unit {0}
AllKept rs (w ∷ ws) (p ∷ ps) =
    (r : SegmentRange) × (at : ℕ) × (a : ℕ) × (b : ℕ) × InRanges r rs
    × Stands at a b r
    × (at ≤ word_start w)
    × (word_start w < at + (b - a))
    × IsPlaced at a b (word_start w) (word_end w) w p.0 p.1
    × AllKept rs ws ps
AllKept rs _ _ = ⊥

end_frame-lt : (start end : ℕ) → start < end_frame start end
unfolding end_frame
end_frame-lt start end = ground arith

restore_loop-AllKept :
    (all : List SegmentRange) (at lo : ℕ) (r : SegmentRange) (rest : List SegmentRange) (end : ℕ)
    (ws : List Word)
    → IsChain at (r ∷ rest) end
    → at ≤ lo
    → InOrder lo ws end
    → ((q : SegmentRange) → InRanges q (r ∷ rest) → InRanges q all)
    → AllKept all ws (restore_loop r rest ws)
unfolding restore_loop
restore_loop-AllKept all at lo r rest end [] chain le order within = tt
restore_loop-AllKept all at lo r rest end (w ∷ ws) chain le (from, lt, order) within =
    let p = advance r rest (word_start w) in
    let (at', a, b, st, chain', le', lt', within') =
      advance-IsFound all at r rest end (word_start w) chain (omega arith) lt within in
    let (v, k, e, placed) =
      restore_in-IsPlaced p.0 w (word_start w) (word_end w) at' a b st le' lt'
        (end_frame-lt (word_start w) (frame_of w.end_ms)) in
    rw e (
      p.0,
      at',
      a,
      b,
      within' p.0 (inl refl),
      st,
      le',
      lt',
      placed,
      restore_loop-AllKept all at' (word_start w) p.0 p.1 end ws (a, b, st, chain') le' order
          within',
    )

earlier_than-le : (rest : List (Word × WordResult)) (end : ℕ) → earlier_than rest end ≤ end
earlier_than-le [] end = omega arith
earlier_than-le ((w, k) ∷ rest) end = ground arith

repair_word-IsBack :
    (rs : List SegmentRange) (w v : Word) (k : WordResult) (before : Option ℕ)
    (rest : List (Word × WordResult)) (r : SegmentRange) (at a b : ℕ)
    → InRanges r rs
    → Stands at a b r
    → at ≤ word_start w
    → word_start w < at + (b - a)
    → IsPlaced at a b (word_start w) (word_end w) w v k
    → IsBack rs w (repair_word before v k rest)
unfolding repair_word
repair_word-IsBack rs w v good before rest r at a b m st le lt placed = (
  r,
  at,
  a,
  b,
  m,
  st,
  le,
  lt,
  placed.0,
  placed.1,
  placed.2,
  placed.3,
  placed.6,
  placed.5,
  λ fits. ground arith,
)
repair_word-IsBack rs w v fixed_start before rest r at a b m st le lt placed = absurd (ground arith)
repair_word-IsBack rs w v fixed_end before rest r at a b m st le lt placed = (
  r,
  at,
  a,
  b,
  m,
  st,
  le,
  lt,
  placed.0,
  placed.1,
  placed.2,
  placed.3,
  placed.6,
  omega (arith, earlier_than-le rest v.end_ms, placed.5),
  λ fits. absurd (ground arith),
)

repair-AllBack :
    (rs : List SegmentRange) (before : Option ℕ) (ws : List Word) (ps : List (Word × WordResult))
    → AllKept rs ws ps
    → AllBack rs ws (repair before ps)
unfolding repair
repair-AllBack rs before [] [] h = tt
repair-AllBack rs before (w ∷ ws) ((v, k) ∷ ps) (r, at, a, b, m, st, le, lt, placed, h) = (
  repair_word-IsBack rs w v k before ps r at a b m st le lt placed,
  repair-AllBack rs (some (repair_word before v k ps).end_ms) ws ps h,
)
repair-AllBack rs before [] (p ∷ ps) h = absurd h
repair-AllBack rs before (w ∷ ws) [] h = absurd h

-- Let the ranges cover the stitched audio from its start to the frame `end`, each at frames of the
-- recording that are not before its place in the stitched audio, and below 2³². Then for words
-- that start in the stitched audio in order of time, RestoreWordTimestamps returns one word for
-- each, in order, with the same text, confidence and speaker. Each is put back in a range of the
-- list that holds its start: it starts at its own start, shifted by the range's delta and rounded
-- down to milliseconds, and ends inside the range; and if the word ended in that range, it ends at
-- its own end, shifted likewise, not before it starts.
pub restore_word_timestamps-AllBack :
    (r : SegmentRange) (rs : List SegmentRange) (end : ℕ) (ws : List Word)
    → IsChain 0 (r ∷ rs) end
    → InOrder 0 ws end
    → AllBack (r ∷ rs) ws (restore_word_timestamps (r ∷ rs) ws)
unfolding restore_word_timestamps
restore_word_timestamps-AllBack r rs end ws chain order =
    repair-AllBack (r ∷ rs) none ws (restore_loop r rs ws)
      (restore_loop-AllKept (r ∷ rs) 0 0 r rs end ws chain (omega arith) order (λ q m. m))
