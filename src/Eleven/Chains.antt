-- ===== src/Eleven/Chains.antt =====
-- The ranges of a part of the speech form a chain, so that its words can be put back.
use qarau.Common.{
  ℕ, ◌+◌, ◌-◌, ◌/◌, ◌≤◌, ◌<◌, ◌≡◌, refl, sym, ap, ◌∙◌, subst, arith, List, [], ◌∷◌, ◌++◌, length,
}
use qarau.Common.Int.{pos_part, pos}
use qarau.Vad.{
  SegmentRange, Fragment, length_in_frames, shift_ranges, join_from, join_ranges, stitch_content,
}
use qarau.Vad.Layout.{IsLaid, AllLaid, join_ranges-IsLaid, frames-append}
use qarau.Vad.Spans.{spans}
use qarau.Vad.Coverage.{Covers, IsOrdered}
use qarau.Vad.Segment.{Recording}
use qarau.Vad.Chains.{IsChain}

-- The ranges lie in the recording in order and apart, from the frame lo on.
abbrev pub AreApart : ℕ → List SegmentRange → Type 0
AreApart lo [] = Unit {0}
AreApart lo (r ∷ rs) =
    (from : ℕ) × (to : ℕ) × (r.real_start ≡ pos from)
    × (r.real_end ≡ pos to)
    × (lo ≤ from)
    × (from ≤ to)
    × AreApart to rs

pub Covers-AreApart :
    (a : Recording) (lo : ℕ) (ts : List (ℕ × ℕ)) (rs : List SegmentRange) (prev : ℕ)
    → IsOrdered a prev ts
    → Covers a lo ts rs
    → AreApart lo rs
Covers-AreApart a lo [] [] prev o c = tt
Covers-AreApart a lo [] (r ∷ rs) prev o c = absurd c
Covers-AreApart a lo ((start, end) ∷ ts) [] prev o c = absurd c
Covers-AreApart a lo ((start, end) ∷ ts) (r ∷ rs) prev (o1, o2, o3, o)
      (from, to, s, e, le, before, behind, inside, c) =
    (from, to, s, e, le, omega arith, Covers-AreApart a to ts rs end o c)

AreApart-lower : (lo hi : ℕ) (rs : List SegmentRange) → lo ≤ hi → AreApart hi rs → AreApart lo rs
AreApart-lower lo hi [] le h = tt
AreApart-lower lo hi (r ∷ rs) le (from, to, s, e, above, order, h) =
    (from, to, s, e, omega arith, order, h)

pub AreApart-append :
    (lo : ℕ) (rs qs : List SegmentRange) → AreApart lo (rs ++ qs) → AreApart lo rs × AreApart lo qs
AreApart-append lo [] qs h = (tt, h)
AreApart-append lo (r ∷ rs) qs (from, to, s, e, above, order, h) =
    let (front, back) = AreApart-append to rs qs h in
    ((from, to, s, e, above, order, front), AreApart-lower lo to qs (omega arith) back)

-- The two lists name the same frames of the recording.
abbrev SameReal : List SegmentRange → List SegmentRange → Type 0
SameReal [] [] = Unit {0}
SameReal (r ∷ rs) (q ∷ qs) =
    (r.real_start ≡ q.real_start) × (r.real_end ≡ q.real_end) × SameReal rs qs
SameReal _ _ = ⊥

SameReal-append :
    (rs qs us vs : List SegmentRange)
    → SameReal rs qs
    → SameReal us vs
    → SameReal (rs ++ us) (qs ++ vs)
SameReal-append [] [] us vs h k = k
SameReal-append [] (q ∷ qs) us vs h k = absurd h
SameReal-append (r ∷ rs) [] us vs h k = absurd h
SameReal-append (r ∷ rs) (q ∷ qs) us vs (s, e, h) k = (s, e, SameReal-append rs qs us vs h k)

shift_ranges-SameReal : (n : ℕ) (rs : List SegmentRange) → SameReal rs (shift_ranges n rs)
unfolding shift_ranges
shift_ranges-SameReal n [] = tt
shift_ranges-SameReal n (r ∷ rs) = (refl, refl, shift_ranges-SameReal n rs)

join_from-SameReal : (n : ℕ) (fs : List Fragment) → SameReal (spans fs) (join_from n fs)
unfolding join_from spans
join_from-SameReal n [] = tt
join_from-SameReal n (f ∷ fs) =
    SameReal-append f.ranges (shift_ranges n f.ranges) (spans fs)
      (join_from (n + length_in_frames f) fs) (shift_ranges-SameReal n f.ranges)
      (join_from-SameReal (n + length_in_frames f) fs)

SameReal-AreApart :
    (lo : ℕ) (rs qs : List SegmentRange) → SameReal rs qs → AreApart lo rs → AreApart lo qs
SameReal-AreApart lo [] [] same h = tt
SameReal-AreApart lo [] (q ∷ qs) same h = absurd same
SameReal-AreApart lo (r ∷ rs) [] same h = absurd same
SameReal-AreApart lo (r ∷ rs) (q ∷ qs) (s, e, same) (from, to, s', e', above, order, h) =
    (from, to, sym s ∙ s', sym e ∙ e', above, order, SameReal-AreApart to rs qs same h)

-- Audio that is laid by ranges apart is covered by them.
IsLaid-IsChain :
    (pcm : List ℕ) (at lo : ℕ) (bytes : List ℕ) (rs : List SegmentRange)
    → length pcm / 2 < 4294967296
    → at ≤ lo
    → IsLaid pcm at bytes rs
    → AreApart lo rs
    → IsChain at rs (at + length bytes / 2)
IsLaid-IsChain pcm at lo bytes [] small le laid apart = rw laid (omega arith)
IsLaid-IsChain pcm at lo bytes (r ∷ rs) small le (a, b, rest, (s, e, copy, order, fits), cut, laid)
      (from, to, s', e', above, order', apart) =
    let starts : a ≡ from = ap pos_part (sym s ∙ s') in
    let ends : b ≡ to = ap pos_part (sym e ∙ e') in
    (
      a,
      b,
      (s, e, copy, omega arith, order, omega arith),
      subst (λ n. IsChain (at + (b - a)) rs n)
          (omega (arith, frames-append pcm a b rest order fits, ap (λ x. length x / 2) cut))
          (IsLaid-IsChain pcm (at + (b - a)) to rest rs small (omega arith) laid apart),
    )

-- A part whose fragments are laid, with ranges apart: its joined ranges cover its audio.
pub join_ranges-IsChain :
    (pcm : List ℕ) (part : List Fragment)
    → length pcm / 2 < 4294967296
    → AllLaid pcm part
    → AreApart 0 (spans part)
    → IsChain 0 (join_ranges part) (length (stitch_content part) / 2)
unfolding join_ranges
join_ranges-IsChain pcm part small laid apart = subst (IsChain 0 (join_ranges part)) (omega arith) (
    IsLaid-IsChain pcm 0 0 (stitch_content part) (join_ranges part) small (omega arith)
      (join_ranges-IsLaid pcm part laid)
      (SameReal-AreApart 0 (spans part) (join_ranges part) (join_from-SameReal 0 part) apart))
