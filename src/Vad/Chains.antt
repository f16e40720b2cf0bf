-- ===== src/Vad/Chains.antt =====
-- Ranges that cover the stitched audio one behind the other, and the one in which a word stands
-- (restore.go).
use qarau.Vad.Padding.{add-pos, sub-pos}
use qarau.Common.{
  leb, ℕ, ◌+◌, ◌-◌, ◌/◌, ◌≤◌, ◌<◌, ◌≡◌, ◌⊎◌, inl, inr, some, List, [], ◌∷◌, arith, Bool-cases,
}
use qarau.Common.Int.{leb_ℤ, pos}
use qarau.Words.{Word}
use qarau.Vad.{SegmentRange}
use qarau.Vad.Restore.{advance, WordResult, good, fixed_end, restore_in}

-- The range stands for the frames from a to b of the recording, copied to the frame `at`, which is
-- not behind a; frames are counted in 32 bits.
abbrev pub Stands : ℕ → ℕ → ℕ → SegmentRange → Type 0
Stands at a b r =
    (r.real_start ≡ pos a)
    × (r.real_end ≡ pos b)
    × (r.copy_start ≡ pos at)
    × (at ≤ a)
    × (a ≤ b)
    × (b < 4294967296)

-- The ranges cover the stitched frames from `at` to `end` one behind the other.
abbrev pub IsChain : ℕ → List SegmentRange → ℕ → Type 0
IsChain at [] end = at ≡ end
IsChain at (r ∷ rs) end = (a : ℕ) × (b : ℕ) × Stands at a b r × IsChain (at + (b - a)) rs end

-- Where a word is put back: within the range, at the shifted frames, cut at the range's end.
abbrev pub IsPlaced : ℕ → ℕ → ℕ → ℕ → ℕ → Word → Word → WordResult → Type 0
IsPlaced at a b start end w v k =
    (v.word ≡ w.word)
    × (v.confidence ≡ w.confidence)
    × (v.speaker ≡ w.speaker)
    × (a / 16 ≤ v.start_ms)
    × (v.start_ms ≤ v.end_ms)
    × (v.end_ms ≤ b / 16)
    × (v.start_ms ≡ (start + (a - at)) / 16)
    × (((k ≡ good) × (end ≤ at + (b - a)) × (v.end_ms ≡ (end + (a - at)) / 16))
        ⊎ ((k ≡ fixed_end) × (at + (b - a) < end) × (v.end_ms ≡ b / 16)))

-- A word that begins inside a range is put back, at a place in that range.
pub restore_in-IsPlaced :
    (r : SegmentRange) (w : Word) (start end at a b : ℕ)
    → Stands at a b r
    → at ≤ start
    → start < at + (b - a)
    → start < end
    → (v : Word) × (k : WordResult) × (restore_in r w start end ≡ some (v, k))
      × IsPlaced at a b start end w v k
unfolding restore_in
restore_in-IsPlaced r w start end at a b st le lt long =
    elim (Bool-cases (leb end (at + (b - a)))) [
      | inl fits ↦ (
        record w { start_ms = (start + (a - at)) / 16; end_ms = (end + (a - at)) / 16 },
        good,
        rw
            (
              st.0,
              st.1,
              st.2,
              sub-pos b a st.4,
              sub-pos a at st.3,
              add-pos at (b - a),
              add-pos start (a - at),
              add-pos end (a - at),
            )
            (ground arith),
        ground arith,
      )
      | inr over ↦ (
        record w { start_ms = (start + (a - at)) / 16; end_ms = b / 16 },
        fixed_end,
        rw
            (
              st.0,
              st.1,
              st.2,
              sub-pos b a st.4,
              sub-pos a at st.3,
              add-pos at (b - a),
              add-pos start (a - at),
              add-pos (at + (b - a)) (a - at),
            )
            (ground arith),
        ground arith,
      )
    ]

abbrev pub InRanges : SegmentRange → List SegmentRange → Type 0
InRanges r [] = ⊥
InRanges r (q ∷ qs) = (r ≡ q) ⊎ InRanges r qs

-- The range of the list in which a stitched frame lies, with the chain behind it.
abbrev pub IsFound : List SegmentRange → ℕ → ℕ → SegmentRange × List SegmentRange → Type 0
IsFound all end start p =
    (at : ℕ) × (a : ℕ) × (b : ℕ) × Stands at a b p.0
    × IsChain (at + (b - a)) p.1 end
    × (at ≤ start)
    × (start < at + (b - a))
    × ((q : SegmentRange) → InRanges q (p.0 ∷ p.1) → InRanges q all)

pub advance-IsFound :
    (all : List SegmentRange) (at : ℕ) (r : SegmentRange) (rest : List SegmentRange) (end start : ℕ)
    → IsChain at (r ∷ rest) end
    → at ≤ start
    → start < end
    → ((q : SegmentRange) → InRanges q (r ∷ rest) → InRanges q all)
    → IsFound all end start (advance r rest start)
unfolding advance
advance-IsFound all at r [] end start (a, b, st, e) le lt within =
    (at, a, b, st, e, le, omega arith, within)
advance-IsFound all at r (q ∷ qs) end start (a, b, st, chain) le lt within =
    elim (Bool-cases (leb_ℤ q.copy_start (pos start))) [
      | inl on ↦ rw on (
          advance-IsFound all (at + (b - a)) q qs end start chain (ground (arith, chain)) lt
            (λ p m. within p (inr m)))
      | inr off ↦ rw off (at, a, b, st, chain, le, ground (arith, chain), within)
    ]
