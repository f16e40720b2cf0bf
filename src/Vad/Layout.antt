-- ===== src/Vad/Layout.antt =====
-- How ranges describe a piece of audio: it is cut from the recording range by range.
use native.Mathlib.Nat.{add_assoc}
use mathlib.Core.List.{append_assoc}
use qarau.Common.{
  length_laws, ℕ, ◌+◌, ◌-◌, ◌*◌, ◌/◌, ◌≤◌, ◌≡◌, refl, sym, subst, List, [], ◌∷◌, ◌++◌, length,
  slice, arith,
}
use qarau.Common.Int.{pos, ◌+ℤ◌}
use qarau.Vad.{
  SegmentRange, Fragment, length_in_frames, shift_ranges, join_from, join_ranges, stitch_content,
}

-- The range stands for the frames from a to b of the recording, copied to the frame `at`.
abbrev pub IsCopy : List ℕ → ℕ → ℕ → ℕ → SegmentRange → Type 0
IsCopy pcm at a b r =
    (r.real_start ≡ pos a)
    × (r.real_end ≡ pos b)
    × (r.copy_start ≡ pos at)
    × (a ≤ b)
    × (b * 2 ≤ length pcm)

-- The bytes are the ranges' frames of the recording, one behind the other, and each range's
-- copy_start is the frame at which its part begins, counted from `at`.
abbrev pub IsLaid : List ℕ → ℕ → List ℕ → List SegmentRange → Type 0
IsLaid pcm at bytes [] = bytes ≡ []
IsLaid pcm at bytes (r ∷ rs) =
    (a : ℕ) × (b : ℕ) × (rest : List ℕ) × IsCopy pcm at a b r
    × (bytes ≡ slice (a * 2) (b * 2) pcm ++ rest)
    × IsLaid pcm (at + (b - a)) rest rs

pub length-frames :
    (pcm : List ℕ) (a b : ℕ)
    → a ≤ b
    → b * 2 ≤ length pcm
    → length (slice (a * 2) (b * 2) pcm) ≡ (b - a) * 2
length-frames pcm a b le fits = grind length_laws

pub frames-append :
    (pcm : List ℕ) (a b : ℕ) (rest : List ℕ)
    → a ≤ b
    → b * 2 ≤ length pcm
    → length (slice (a * 2) (b * 2) pcm ++ rest) / 2 ≡ (b - a) + length rest / 2
frames-append pcm a b rest le fits = grind (length_laws, length-frames pcm a b le fits)

-- Two pieces, the second laid from where the first ends.
pub IsLaid-append :
    (pcm : List ℕ) (at : ℕ) (xs ys : List ℕ) (rs qs : List SegmentRange)
    → IsLaid pcm at xs rs
    → IsLaid pcm (at + length xs / 2) ys qs
    → IsLaid pcm at (xs ++ ys) (rs ++ qs)
IsLaid-append pcm at xs ys [] qs e l = rw e (subst (λ n. IsLaid pcm n ys qs) (rw e (omega arith)) l)
IsLaid-append pcm at xs ys (r ∷ rs) qs (a, b, rest, copy, e, tail) l = (
  a,
  b,
  rest ++ ys,
  copy,
  rw e (append_assoc (slice (a * 2) (b * 2) pcm) rest ys),
  IsLaid-append pcm (at + (b - a)) rest ys rs qs tail (
      subst (λ n. IsLaid pcm n ys qs)
        (rw e (omega (arith, frames-append pcm a b rest copy.3 copy.4))) l),
)

shift-IsCopy :
    (pcm : List ℕ) (k at a b : ℕ) (r : SegmentRange)
    → IsCopy pcm at a b r
    → IsCopy pcm (k + at) a b (record {
      real_start = r.real_start;
      real_end = r.real_end;
      copy_start = pos k +ℤ r.copy_start;
    })
unfolding ◌+ℤ◌
shift-IsCopy pcm k at a b r (s, e, c, le, fits) = (s, e, rw c (ground arith), le, fits)

pub shift_ranges-IsLaid :
    (pcm : List ℕ) (k at : ℕ) (xs : List ℕ) (rs : List SegmentRange)
    → IsLaid pcm at xs rs
    → IsLaid pcm (k + at) xs (shift_ranges k rs)
unfolding shift_ranges
shift_ranges-IsLaid pcm k at xs [] l = l
shift_ranges-IsLaid pcm k at xs (r ∷ rs) (a, b, rest, copy, e, tail) = (
  a,
  b,
  rest,
  shift-IsCopy pcm k at a b r copy,
  e,
  subst (λ n. IsLaid pcm n rest (shift_ranges k rs)) (sym (add_assoc k at (b - a)))
      (shift_ranges-IsLaid pcm k (at + (b - a)) rest rs tail),
)

-- Every fragment is laid by its own ranges, from its own start.
abbrev pub AllLaid : List ℕ → List Fragment → Type 0
AllLaid pcm [] = Unit {0}
AllLaid pcm (f ∷ fs) = IsLaid pcm 0 f.content f.ranges × AllLaid pcm fs

join_from-IsLaid :
    (pcm : List ℕ) (offset : ℕ) (fs : List Fragment)
    → AllLaid pcm fs
    → IsLaid pcm offset (stitch_content fs) (join_from offset fs)
unfolding stitch_content join_from length_in_frames
join_from-IsLaid pcm offset [] l = refl
join_from-IsLaid pcm offset (f ∷ fs) (l, ls) =
    IsLaid-append pcm offset f.content (stitch_content fs) (shift_ranges offset f.ranges)
      (join_from (offset + length f.content / 2) fs)
      (subst (λ n. IsLaid pcm n f.content (shift_ranges offset f.ranges)) (omega arith)
        (shift_ranges-IsLaid pcm offset 0 f.content f.ranges l))
      (join_from-IsLaid pcm (offset + length f.content / 2) fs ls)

-- JoinRanges fits stitch: for fragments that are each laid by their ranges, the stitched audio is
-- laid by the joined ranges, that is, each joined range's copy_start is the frame of the stitched
-- audio at which the frames from its real_start to its real_end of the recording begin, and
-- nothing else stands in between.
pub join_ranges-IsLaid :
    (pcm : List ℕ) (fs : List Fragment)
    → AllLaid pcm fs
    → IsLaid pcm 0 (stitch_content fs) (join_ranges fs)
unfolding join_ranges
join_ranges-IsLaid pcm fs l = join_from-IsLaid pcm 0 fs l
